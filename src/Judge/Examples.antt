-- ===== src/Judge/Examples.antt =====
-- JUDGE manifests and the routes they get.
use deviatdd.Prelude.{
  String, Bool, true, false, Option, none, some, List, [], ◌∷◌, ◌≡◌, refl, ◌⊎◌, is_some, ◌&&◌, ◌||◌,
  not, all,
}
use deviatdd.Judge.Evidence.Diff.{map_diff_hunks}
use deviatdd.Judge.Evidence.{
  Item, Request, missing_tokens, tokens_of, member, normalized_paths, evaluate_judge_evidence,
}
use deviatdd.Judge.Evidence.Passes.{
  passes, present, covered, supported, is_nil, evaluate_judge_evidence-passes,
}
use deviatdd.Prelude.Text.{Text, codes}
use deviatdd.Judge.Policy.{
  Manifest, undeclared, categorized, test_defect, unset, blames_test, coerce_judge_action,
  verdict_is_fail, verdict_is_clean_pass, blast_for_action,
}
use deviatdd.Judge.Policy.Routes.{
  known, coerce_judge_action-known, coerce_judge_action-clean_pass, coerce_judge_action-fail,
}

abbrev rejecting : Manifest
rejecting = record {
  red_baseline_integrity = undeclared;
  evaluation_test_integrity = [];
  test_integrity = [];
  violations = some (categorized (codes "Security") ∷ []);
  train_feedback = codes "fix it";
  next_action = some "revert_before";
}

abbrev passing : Manifest
passing = record rejecting {
  violations = none;
  train_feedback = [];
  next_action = some "revert_red";
}

abbrev fail : Text
fail = codes "COMPLIANCE_FAIL"

abbrev pass : Text
pass = codes "COMPLIANCE_PASS"

coerce_judge_action-known_example : known (coerce_judge_action rejecting fail test_defect) ≡ true
coerce_judge_action-known_example = coerce_judge_action-known rejecting fail test_defect

is_clean : verdict_is_clean_pass pass passing ≡ true
unfolding verdict_is_clean_pass deviatdd.Prelude.Text.upper deviatdd.Prelude.Text.strip
    deviatdd.Prelude.Text.contains deviatdd.Prelude.Text.text_eq
    deviatdd.Judge.Advisory.feedback_is_refactor_only
is_clean = refl

coerce_judge_action-clean_pass_example :
    blast_for_action (coerce_judge_action passing pass unset) ≡ "none"
coerce_judge_action-clean_pass_example =
    coerce_judge_action-clean_pass passing pass unset is_clean refl

is_fail : verdict_is_fail fail ≡ true
unfolding verdict_is_fail deviatdd.Prelude.Text.upper deviatdd.Prelude.Text.strip
    deviatdd.Prelude.Text.contains
is_fail = refl

is_unclean : verdict_is_clean_pass fail rejecting ≡ false
unfolding verdict_is_clean_pass deviatdd.Prelude.Text.text_eq deviatdd.Prelude.Text.upper
    deviatdd.Prelude.Text.strip deviatdd.Prelude.Text.contains deviatdd.Prelude.Text.lower
    deviatdd.Prelude.Regex.search
is_unclean = refl

coerce_judge_action-fail_example :
    (is_some (coerce_judge_action rejecting fail test_defect) ≡ true)
    × ((blames_test test_defect ≡ false)
        ⊎ (coerce_judge_action rejecting fail test_defect ≡ some "revert_red"))
coerce_judge_action-fail_example =
    coerce_judge_action-fail rejecting fail test_defect is_fail is_unclean

abbrev diff : Text
diff =
    codes
      "diff --git a/t.py b/t.py\n+++ b/t.py\n+def test_parse_value():\ndiff --git a/p.py b/p.py\n+++ b/p.py\n+return 1\n"

abbrev citation : Item
citation = record {
  ac = codes "AC-PLAN-001";
  test_path = codes "t.py";
  test_quote = codes "def test_parse_value():";
  impl_path = codes "p.py";
  impl_quote = codes "return 1";
}

abbrev request : Request
request = record {
  plan_tokens = [];
  injected_diff = diff;
  evidence = citation ∷ [];
  next_action = none;
  head_contents = [];
  declared_paths = codes " t.py" ∷ [];
  required_tokens = some (codes "AC-PLAN-001" ∷ codes "AC-PLAN-001" ∷ []);
  use_head = none;
}

evaluate_judge_evidence-passes_example : passes (evaluate_judge_evidence request) ≡ (
    all (present (map_diff_hunks diff) []) (normalized_paths (codes " t.py" ∷ codes "t.py" ∷ []))
    && (is_nil (tokens_of request)
        || (all (covered (citation ∷ [])) (tokens_of request)
            && all
                (λ i.
                  not (member i.ac (tokens_of request))
                  || supported i (map_diff_hunks diff) [] false true)
                (citation ∷ []))))
evaluate_judge_evidence-passes_example = evaluate_judge_evidence-passes request

test_passes : passes (evaluate_judge_evidence request) ≡ true
unfolding evaluate_judge_evidence map_diff_hunks deviatdd.Judge.Evidence.Diff.find_source
    deviatdd.Prelude.Text.strip deviatdd.Prelude.Text.starts_with deviatdd.Prelude.Text.text_eq
    deviatdd.Prelude.Text.contains
test_passes = refl

test_missing :
    evaluate_judge_evidence (record request { evidence = [] })
    ≡ some (missing_tokens (codes "AC-PLAN-001" ∷ []))
unfolding evaluate_judge_evidence map_diff_hunks deviatdd.Judge.Evidence.Diff.find_source
    deviatdd.Prelude.Text.strip deviatdd.Prelude.Text.starts_with deviatdd.Prelude.Text.text_eq
    deviatdd.Prelude.Text.contains
test_missing = refl
