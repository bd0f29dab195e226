-- ===== src/Micro/Verdict/Examples.antt =====
-- A verdict that passes, applied to a session after a look for repairs.
use deviatdd.Prelude.{true, false, none, some, [], ◌≡◌, refl, ◌⊎◌}
use deviatdd.Prelude.Text.{codes, text_eq, contains}
use deviatdd.Ledger.Phase.{phase_already_done}
use deviatdd.Ledger.Append.{append_task_transition}
use deviatdd.Judge.Advisory.{feedback_is_refactor_only}
use deviatdd.Micro.Task.{read_ledger_records}
use deviatdd.Judge.Policy.{Integrity, verdict_is_clean_pass}
use deviatdd.Micro.Fixtures.{task, start}
use deviatdd.Micro.Boundary.Fixtures.{sample}
use deviatdd.Micro.Action.{State, ok}
use deviatdd.Micro.Session.{
  is_forward_route, is_green_test_failure, tdd_pre_green_decision, complete,
}
use deviatdd.Micro.Verdict.Rules.{
  Handover, Judging, reset_done, rule, is_test_bearing_tdd, evidence_failure,
}
use deviatdd.Micro.Verdict.Outcome.{
  SettledFrom, apply_judge_verdict-Settled, apply_judge_verdict-completes,
}
use deviatdd.Micro.Verdict.Gates.{rule-gated}
use deviatdd.Micro.Verdict.{apply_judge_verdict, commit_first}

abbrev judging : Judging (Unit {0})
judging = record {
  git_of = λ w. sample;
  strip_citations = λ text. text;
  ac_tokens = λ s. [];
  head_contents = λ s paths. [];
  injected_diff = [];
  declared_paths = [];
  has_baseline = false;
  restore_baseline = λ ledger w. (reset_done, (ledger, w));
  detect_contradiction = λ feedback s. none;
  confirm = λ ledger w. (ok tt, (ledger, w));
  commit_repairs = λ ledger w. (ok (some false), (ledger, w));
  run_suite = λ ledger w. (ok none, (ledger, w));
  execute_rollback = λ sha ledger w. (reset_done, (ledger, w));
  reset_env_red = λ ledger w. (reset_done, (ledger, w));
  reset_env_green = λ ledger w. (reset_done, (ledger, w));
  commit_feedback = λ feedback action ledger w. (ok (codes "c"), (ledger, w));
  append_revert = λ feedback ledger w. (ok tt, (ledger, w));
  completed_evidence = λ t s. ok none;
  commit_completed = λ ledger w. (ok tt, (ledger, w));
}

abbrev passing : Handover
passing = record {
  policy = record {
    red_baseline_integrity = Integrity.intact;
    evaluation_test_integrity = [];
    test_integrity = [];
    violations = some [];
    train_feedback = [];
    next_action = some "skip_refactor";
  };
  verdict = codes "COMPLIANCE_PASS";
  is_hitl = false;
  summary = "";
  rationale = [];
  violations_text = [];
  parse_errors = [];
  evidence = [];
  evidence_rows = [];
  files = [];
  test_file = [];
}

abbrev applied : State (Unit {0})
applied = (apply_judge_verdict judging task passing false true start).1

returned : apply_judge_verdict judging task passing false true start ≡ (ok tt, applied)
unfolding apply_judge_verdict text_eq feedback_is_refactor_only contains phase_already_done
    read_ledger_records append_task_transition
returned = refl

forward_route : is_forward_route applied.session.pending_judge_action ≡ true
unfolding apply_judge_verdict text_eq feedback_is_refactor_only contains phase_already_done
    read_ledger_records append_task_transition
forward_route = refl

apply_judge_verdict-Settled_example : SettledFrom judging task true start applied
apply_judge_verdict-Settled_example =
    apply_judge_verdict-Settled judging task passing false true start applied returned

apply_judge_verdict-completes_example :
    (u : State (Unit {0})) × (commit_first judging task true start ≡ (ok tt, u))
    × (is_green_test_failure u.session ≡ false)
    × ((tdd_pre_green_decision task.id applied.session).0 ≡ complete)
apply_judge_verdict-completes_example =
    apply_judge_verdict-completes judging task passing false true start applied returned refl
      forward_route

is_gated_here : (rule judging task passing start).gated ≡ true
unfolding rule text_eq feedback_is_refactor_only contains
is_gated_here = refl

rule-gated_example :
    (verdict_is_clean_pass passing.verdict passing.policy ≡ true)
    ⊎ (is_test_bearing_tdd task ≡ false)
    ⊎ (evidence_failure judging task passing start (rule judging task passing start).action ≡ none)
rule-gated_example = rule-gated judging task passing start is_gated_here
