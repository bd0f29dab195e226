-- ===== src/Review/Examples.antt =====
-- An issue with a plan of two tokens: one task is completed, the other was put back.
use deviatdd.Prelude.{String, true, some, [], ◌∷◌, ◌++◌, ◌≡◌, refl, all}
use deviatdd.Prelude.Text.{Text, codes, starts_with, text_eq}
use deviatdd.Ledger.Rows.{Row, str, array, object, nil, cons, end, field, get, json_eq}
use deviatdd.Judge.Evidence.{member}
use deviatdd.Judge.Evidence.Diff.{find_source}
use deviatdd.Review.{Workspace, complete, evaluate_review_coverage, may_apply_finding}
use deviatdd.Review.Cards.{task_cards}
use deviatdd.Review.Claims.{
  planned_tokens, settled, Splits, evaluate_review_coverage-Splits,
  complete-evaluate_review_coverage,
}

abbrev task_row : String → String → Row
task_row task_id status =
    ("id", str task_id) ∷ ("issue_id", str "ISS-001") ∷ ("status", str status) ∷ []

abbrev cites : String → Row
cites token = ("evidence", array (cons (object (field "ac" (str token) end)) nil)) ∷ []

abbrev card_text : Text
card_text =
    codes "- [x] TSK-001-01: first\n  - **Acceptance Criteria**: AC-PLAN-001\n- TSK-001-02: second"

abbrev workspace : Workspace
workspace = record {
  issues = (("issue_id", str "ISS-001") ∷ ("source_file", str "specs/e/issues/a.md") ∷ []) ∷ [];
  plan_md = λ s. some (codes "AC-PLAN-001 and AC-PLAN-002, AC-PLAN-001");
  tasks_md = λ s. some card_text;
  tasks_jsonl = λ s.
      (task_row "TSK-001-02" "COMPLETED" ++ cites "AC-PLAN-002")
      ∷ task_row "TSK-001-01" "COMPLETED"
      ∷ task_row "TSK-001-02" "PENDING"
      ∷ [];
}

test_task_cards : task_cards card_text ≡ (
    (codes "TSK-001-02", codes "- TSK-001-02: second")
    ∷ (
      codes "TSK-001-01",
      codes "- [x] TSK-001-01: first\n  - **Acceptance Criteria**: AC-PLAN-001",
    )
    ∷ [])
unfolding task_cards starts_with
test_task_cards = refl

test_evaluate : evaluate_review_coverage workspace "ISS-001" ≡ record {
  issue_id = some "ISS-001";
  plan_tokens = codes "AC-PLAN-001" ∷ codes "AC-PLAN-002" ∷ [];
  claimed = codes "AC-PLAN-001" ∷ [];
  uncovered = codes "AC-PLAN-002" ∷ [];
}
unfolding evaluate_review_coverage json_eq get starts_with text_eq find_source
test_evaluate = refl

test_may_apply_finding : may_apply_finding true (codes " critical ") (codes "Data-Loss") true ≡ true
unfolding may_apply_finding text_eq
test_may_apply_finding = refl

evaluate_review_coverage-Splits_example :
    Splits
      (codes "AC-PLAN-002")
      (member (codes "AC-PLAN-002") (planned_tokens workspace "ISS-001"))
      (settled workspace "ISS-001" (codes "AC-PLAN-002"))
      (evaluate_review_coverage workspace "ISS-001")
evaluate_review_coverage-Splits_example =
    evaluate_review_coverage-Splits workspace "ISS-001" (codes "AC-PLAN-002")

complete-evaluate_review_coverage_example :
    complete (evaluate_review_coverage workspace "ISS-001")
    ≡ all (settled workspace "ISS-001") (planned_tokens workspace "ISS-001")
complete-evaluate_review_coverage_example = complete-evaluate_review_coverage workspace "ISS-001"
