-- ===== src/Micro/Cycle/Examples.antt =====
-- GREEN and an escalation on a concrete state.
use deviatdd.Prelude.{
  ℕ, String, Bool, true, false, Option, none, some, List, [], ◌∷◌, ◌≡◌, ◌≢◌, refl, ◌⊎◌, arith, leb,
  any, All,
}
use deviatdd.Prelude.Text.{Text, codes}
use deviatdd.Micro.Session.{Session, Phase, red, no_kind, is_forward_route}
use deviatdd.Micro.Action.{State, ok}
use deviatdd.Micro.Task.{append_task_row, Task, status_row}
use deviatdd.Micro.Budget.{run_green_lem}
use deviatdd.Micro.Green.{run_green, green_is_skipped}
use deviatdd.Micro.Cycle.{escalate_to_new_red, again, cycle_round, cycle_loop, account_red_escalate}
use deviatdd.Micro.Run.{run_tdd_cycle, start_cycle, finish_tdd_cycle}
use deviatdd.Micro.Cycle.Termination.{skips_green, round_skips_green}
use deviatdd.Micro.Cycle.Budget.{Escalated, escalate_to_new_red-Escalated}
use deviatdd.Micro.Session.{
  tdd_pre_green_decision, forward_route_is_stale, bind_judge_forward_route,
}
use deviatdd.Micro.Run.{refuses}
use deviatdd.Micro.Fixtures.{task, start, failing, failing_keeps}

abbrev after_green_state : State (Unit {0})
after_green_state = (run_green failing task start).1

green_runs : green_is_skipped failing task start ≡ false
unfolding skips_green round_skips_green deviatdd.Micro.Cycle.enter_round
    deviatdd.Micro.Session.tdd_pre_green_decision start_cycle deviatdd.Micro.Run.enter_cycle
    deviatdd.Prelude.Text.strip deviatdd.Micro.Green.green_is_skipped
    deviatdd.Ledger.Phase.phase_already_done deviatdd.Micro.Task.read_ledger_records cycle_round
    deviatdd.Micro.Cycle.green_step deviatdd.Micro.Green.run_green
    deviatdd.Micro.Green.green_attempt deviatdd.Micro.Green.after_reply
    deviatdd.Micro.Cycle.after_green deviatdd.Micro.Cycle.judge_step
    deviatdd.Micro.Cycle.after_judge account_red_escalate deviatdd.Micro.Cycle.append_failed
    deviatdd.Micro.Cycle.escalate_to_new_red deviatdd.Micro.Cycle.raise_train_exhausted
    deviatdd.Micro.Cycle.train_green_or_escalate deviatdd.Micro.Session.clear_judge_retry_gate
    deviatdd.Micro.Session.consume_retry_gate_after_red
    deviatdd.Micro.Session.has_red_commit_boundary deviatdd.Micro.Session.inject_escalate_note
    deviatdd.Micro.Session.invalidate_stale_forward_route
    deviatdd.Micro.Session.is_green_test_failure deviatdd.Micro.Session.is_green_train_dump
    deviatdd.Micro.Session.reset_tdd_retry_budget deviatdd.Micro.Session.short_escalate_note
    deviatdd.Micro.Session.train_feedback_is_advisory deviatdd.Prelude.Text.contains
    deviatdd.Prelude.Text.lstrip deviatdd.Prelude.Text.rstrip deviatdd.Prelude.Text.starts_with
    deviatdd.Micro.Session.forward_route_is_stale deviatdd.Ledger.Phase.after_last_pending
green_runs = refl

green_returns : run_green failing task start ≡ (ok tt, after_green_state)
unfolding skips_green round_skips_green deviatdd.Micro.Cycle.enter_round
    deviatdd.Micro.Session.tdd_pre_green_decision start_cycle deviatdd.Micro.Run.enter_cycle
    deviatdd.Prelude.Text.strip deviatdd.Micro.Green.green_is_skipped
    deviatdd.Ledger.Phase.phase_already_done deviatdd.Micro.Task.read_ledger_records cycle_round
    deviatdd.Micro.Cycle.green_step deviatdd.Micro.Green.run_green
    deviatdd.Micro.Green.green_attempt deviatdd.Micro.Green.after_reply
    deviatdd.Micro.Cycle.after_green deviatdd.Micro.Cycle.judge_step
    deviatdd.Micro.Cycle.after_judge account_red_escalate deviatdd.Micro.Cycle.append_failed
    deviatdd.Micro.Cycle.escalate_to_new_red deviatdd.Micro.Cycle.raise_train_exhausted
    deviatdd.Micro.Cycle.train_green_or_escalate deviatdd.Micro.Session.clear_judge_retry_gate
    deviatdd.Micro.Session.consume_retry_gate_after_red
    deviatdd.Micro.Session.has_red_commit_boundary deviatdd.Micro.Session.inject_escalate_note
    deviatdd.Micro.Session.invalidate_stale_forward_route
    deviatdd.Micro.Session.is_green_test_failure deviatdd.Micro.Session.is_green_train_dump
    deviatdd.Micro.Session.reset_tdd_retry_budget deviatdd.Micro.Session.short_escalate_note
    deviatdd.Micro.Session.train_feedback_is_advisory deviatdd.Prelude.Text.contains
    deviatdd.Prelude.Text.lstrip deviatdd.Prelude.Text.rstrip deviatdd.Prelude.Text.starts_with
    deviatdd.Micro.Session.forward_route_is_stale deviatdd.Ledger.Phase.after_last_pending
green_returns = refl

run_green_lem_example :
    (after_green_state.session.green_attempts ≡ 1) × (after_green_state.session.red_attempts ≡ 0)
run_green_lem_example =
    run_green_lem failing failing_keeps task start after_green_state green_runs green_returns

abbrev escalated_state : State (Unit {0})
escalated_state = (escalate_to_new_red failing task (codes "test defect") start).1

escalates : escalate_to_new_red failing task (codes "test defect") start ≡ (ok tt, escalated_state)
unfolding skips_green round_skips_green deviatdd.Micro.Cycle.enter_round
    deviatdd.Micro.Session.tdd_pre_green_decision start_cycle deviatdd.Micro.Run.enter_cycle
    deviatdd.Prelude.Text.strip deviatdd.Micro.Green.green_is_skipped
    deviatdd.Ledger.Phase.phase_already_done deviatdd.Micro.Task.read_ledger_records cycle_round
    deviatdd.Micro.Cycle.green_step deviatdd.Micro.Green.run_green
    deviatdd.Micro.Green.green_attempt deviatdd.Micro.Green.after_reply
    deviatdd.Micro.Cycle.after_green deviatdd.Micro.Cycle.judge_step
    deviatdd.Micro.Cycle.after_judge account_red_escalate deviatdd.Micro.Cycle.append_failed
    deviatdd.Micro.Cycle.escalate_to_new_red deviatdd.Micro.Cycle.raise_train_exhausted
    deviatdd.Micro.Cycle.train_green_or_escalate deviatdd.Micro.Session.clear_judge_retry_gate
    deviatdd.Micro.Session.consume_retry_gate_after_red
    deviatdd.Micro.Session.has_red_commit_boundary deviatdd.Micro.Session.inject_escalate_note
    deviatdd.Micro.Session.invalidate_stale_forward_route
    deviatdd.Micro.Session.is_green_test_failure deviatdd.Micro.Session.is_green_train_dump
    deviatdd.Micro.Session.reset_tdd_retry_budget deviatdd.Micro.Session.short_escalate_note
    deviatdd.Micro.Session.train_feedback_is_advisory deviatdd.Prelude.Text.contains
    deviatdd.Prelude.Text.lstrip deviatdd.Prelude.Text.rstrip deviatdd.Prelude.Text.starts_with
    deviatdd.Micro.Session.forward_route_is_stale deviatdd.Ledger.Phase.after_last_pending
escalates = refl

escalate_to_new_red-Escalated_example :
    Escalated 0 escalated_state.session.green_attempts escalated_state.session.red_attempts
escalate_to_new_red-Escalated_example =
    escalate_to_new_red-Escalated failing failing_keeps task (codes "test defect") start
      escalated_state escalates
