-- ===== src/Converge/Examples.antt =====
-- Two findings on an issue whose tasks.md has one task and one phase.
use deviatdd.Prelude.{true, none, some, List, [], ◌∷◌, ◌++◌, ◌≡◌, refl}
use deviatdd.Prelude.Text.{Text, codes, text_eq}
use deviatdd.Converge.{
  ConvergenceFinding, sort_findings, answered, Files, Setting, appended, apply_findings,
}
use deviatdd.Converge.Ids.{next_task_ids}
use deviatdd.Converge.Applied.{Applied, apply_findings-Applied}

abbrev minor : ConvergenceFinding
minor = record {
  taxonomy = codes "partial";
  source_ref = codes "AC-PLAN-001";
  summary = codes "half";
  severity = none;
}

abbrev major : ConvergenceFinding
major = record {
  taxonomy = codes "missing";
  source_ref = codes "AC-PLAN-002";
  summary = codes "nothing";
  severity = some (codes "Critical");
}

abbrev two : List ConvergenceFinding
two = minor ∷ major ∷ []

-- A ledger of ids, on which every append works.
abbrev setting : Setting (List Text)
setting = record {
  append_record = λ task ledger. answered true (ledger ++ task.id ∷ []);
  ledger_text = λ ledger. [];
  finalize = λ files. some files;
  commit_works = λ files. true;
}

abbrev text : Text
text = codes "## Phase 1: Core\n- TSK-004-07: done"

abbrev files : Files (List Text)
files = record { tasks_md = some text; ledger = codes "TSK-004-07" ∷ [] }

test_next_task_ids :
    next_task_ids (codes "ISS-001-004") text 2 ≡ codes "TSK-004-08" ∷ codes "TSK-004-09" ∷ []
unfolding next_task_ids
test_next_task_ids = refl

test_hundred : next_task_ids (codes "4") (codes "TSK-004-99") 1 ≡ codes "TSK-004-100" ∷ []
unfolding next_task_ids
test_hundred = refl

test_apply_findings :
    (apply_findings setting (codes "ISS-001-004") true two files).0
    ≡ appended (codes "TSK-004-08" ∷ codes "TSK-004-09" ∷ []) 2
unfolding apply_findings text_eq
test_apply_findings = refl

apply_findings-Applied_example :
    Applied setting
      (codes "ISS-001-004")
      files
      (sort_findings two)
      (apply_findings setting (codes "ISS-001-004") true two files)
apply_findings-Applied_example = apply_findings-Applied setting (codes "ISS-001-004") true two files

test_sort_findings : sort_findings two ≡ major ∷ minor ∷ []
unfolding sort_findings text_eq
test_sort_findings = refl
