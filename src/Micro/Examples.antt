-- ===== src/Micro/Examples.antt =====
-- Runs of the loop of the cycle on concrete states.
use deviatdd.Prelude.{
  ℕ, String, Bool, true, false, Option, none, some, List, [], ◌∷◌, ◌≡◌, ◌≢◌, refl, ◌⊎◌, arith, leb,
  any, All,
}
use deviatdd.Prelude.Text.{Text, codes}
use deviatdd.Micro.Session.{Session, Phase, red, no_kind, is_forward_route}
use deviatdd.Micro.Action.{State, ok}
use deviatdd.Micro.Task.{append_task_row, Task, status_row}
use deviatdd.Micro.Green.{run_green, green_is_skipped}
use deviatdd.Micro.Cycle.{escalate_to_new_red, again, cycle_round, cycle_loop, account_red_escalate}
use deviatdd.Micro.Run.{run_tdd_cycle, start_cycle, finish_tdd_cycle}
use deviatdd.Micro.Cycle.Termination.{
  skips_green, round_skips_green, cycle_round-Moved, cycle_loop-ends,
}
use deviatdd.Micro.Cycle.Budget.{Moved}
use deviatdd.Micro.Session.{
  tdd_pre_green_decision, forward_route_is_stale, bind_judge_forward_route,
}
use deviatdd.Micro.Run.{refuses}
use deviatdd.Micro.Run.Ends.{run_tdd_cycle-ends}
use deviatdd.Micro.Fixtures.{task, start, failing, failing_keeps}

abbrev after_start_state : State (Unit {0})
after_start_state = (start_cycle failing task false "GREEN" start).1

never_skips : skips_green failing task 16 false false false after_start_state ≡ false
unfolding skips_green round_skips_green deviatdd.Micro.Cycle.enter_round
    deviatdd.Micro.Session.tdd_pre_green_decision start_cycle deviatdd.Micro.Run.enter_cycle
    deviatdd.Prelude.Text.strip deviatdd.Micro.Green.green_is_skipped
    deviatdd.Ledger.Phase.phase_already_done deviatdd.Micro.Task.read_ledger_records cycle_round
    deviatdd.Micro.Cycle.green_step deviatdd.Micro.Green.run_green
    deviatdd.Micro.Green.green_attempt deviatdd.Micro.Green.after_reply
    deviatdd.Micro.Cycle.after_green deviatdd.Micro.Cycle.judge_step
    deviatdd.Micro.Cycle.after_judge account_red_escalate deviatdd.Micro.Cycle.append_failed
    deviatdd.Micro.Cycle.escalate_to_new_red deviatdd.Micro.Cycle.raise_train_exhausted
    deviatdd.Micro.Cycle.train_green_or_escalate deviatdd.Micro.Session.clear_judge_retry_gate
    deviatdd.Micro.Session.consume_retry_gate_after_red
    deviatdd.Micro.Session.has_red_commit_boundary deviatdd.Micro.Session.inject_escalate_note
    deviatdd.Micro.Session.invalidate_stale_forward_route
    deviatdd.Micro.Session.is_green_test_failure deviatdd.Micro.Session.is_green_train_dump
    deviatdd.Micro.Session.reset_tdd_retry_budget deviatdd.Micro.Session.short_escalate_note
    deviatdd.Micro.Session.train_feedback_is_advisory deviatdd.Prelude.Text.contains
    deviatdd.Prelude.Text.lstrip deviatdd.Prelude.Text.rstrip deviatdd.Prelude.Text.starts_with
    deviatdd.Micro.Session.forward_route_is_stale deviatdd.Ledger.Phase.after_last_pending
never_skips = refl

run_tdd_cycle-ends_example : run_tdd_cycle failing task 16 false false "GREEN" start ≢ none
run_tdd_cycle-ends_example =
    run_tdd_cycle-ends failing failing_keeps task false false "GREEN" start never_skips

abbrev next_state : State (Unit {0})
next_state = (cycle_round failing task false false false start).1

plays_green : round_skips_green failing task start ≡ false
unfolding skips_green round_skips_green deviatdd.Micro.Cycle.enter_round
    deviatdd.Micro.Session.tdd_pre_green_decision start_cycle deviatdd.Micro.Run.enter_cycle
    deviatdd.Prelude.Text.strip deviatdd.Micro.Green.green_is_skipped
    deviatdd.Ledger.Phase.phase_already_done deviatdd.Micro.Task.read_ledger_records cycle_round
    deviatdd.Micro.Cycle.green_step deviatdd.Micro.Green.run_green
    deviatdd.Micro.Green.green_attempt deviatdd.Micro.Green.after_reply
    deviatdd.Micro.Cycle.after_green deviatdd.Micro.Cycle.judge_step
    deviatdd.Micro.Cycle.after_judge account_red_escalate deviatdd.Micro.Cycle.append_failed
    deviatdd.Micro.Cycle.escalate_to_new_red deviatdd.Micro.Cycle.raise_train_exhausted
    deviatdd.Micro.Cycle.train_green_or_escalate deviatdd.Micro.Session.clear_judge_retry_gate
    deviatdd.Micro.Session.consume_retry_gate_after_red
    deviatdd.Micro.Session.has_red_commit_boundary deviatdd.Micro.Session.inject_escalate_note
    deviatdd.Micro.Session.invalidate_stale_forward_route
    deviatdd.Micro.Session.is_green_test_failure deviatdd.Micro.Session.is_green_train_dump
    deviatdd.Micro.Session.reset_tdd_retry_budget deviatdd.Micro.Session.short_escalate_note
    deviatdd.Micro.Session.train_feedback_is_advisory deviatdd.Prelude.Text.contains
    deviatdd.Prelude.Text.lstrip deviatdd.Prelude.Text.rstrip deviatdd.Prelude.Text.starts_with
    deviatdd.Micro.Session.forward_route_is_stale deviatdd.Ledger.Phase.after_last_pending
plays_green = refl

first_round : cycle_round failing task false false false start ≡ (ok (again true), next_state)
unfolding skips_green round_skips_green deviatdd.Micro.Cycle.enter_round
    deviatdd.Micro.Session.tdd_pre_green_decision start_cycle deviatdd.Micro.Run.enter_cycle
    deviatdd.Prelude.Text.strip deviatdd.Micro.Green.green_is_skipped
    deviatdd.Ledger.Phase.phase_already_done deviatdd.Micro.Task.read_ledger_records cycle_round
    deviatdd.Micro.Cycle.green_step deviatdd.Micro.Green.run_green
    deviatdd.Micro.Green.green_attempt deviatdd.Micro.Green.after_reply
    deviatdd.Micro.Cycle.after_green deviatdd.Micro.Cycle.judge_step
    deviatdd.Micro.Cycle.after_judge account_red_escalate deviatdd.Micro.Cycle.append_failed
    deviatdd.Micro.Cycle.escalate_to_new_red deviatdd.Micro.Cycle.raise_train_exhausted
    deviatdd.Micro.Cycle.train_green_or_escalate deviatdd.Micro.Session.clear_judge_retry_gate
    deviatdd.Micro.Session.consume_retry_gate_after_red
    deviatdd.Micro.Session.has_red_commit_boundary deviatdd.Micro.Session.inject_escalate_note
    deviatdd.Micro.Session.invalidate_stale_forward_route
    deviatdd.Micro.Session.is_green_test_failure deviatdd.Micro.Session.is_green_train_dump
    deviatdd.Micro.Session.reset_tdd_retry_budget deviatdd.Micro.Session.short_escalate_note
    deviatdd.Micro.Session.train_feedback_is_advisory deviatdd.Prelude.Text.contains
    deviatdd.Prelude.Text.lstrip deviatdd.Prelude.Text.rstrip deviatdd.Prelude.Text.starts_with
    deviatdd.Micro.Session.forward_route_is_stale deviatdd.Ledger.Phase.after_last_pending
first_round = refl

cycle_round-Moved_example :
    Moved 0 0 next_state.session.green_attempts next_state.session.red_attempts
cycle_round-Moved_example =
    cycle_round-Moved failing task failing_keeps false false false true start next_state plays_green
      first_round

never_skips_from : skips_green failing task 16 false false false start ≡ false
unfolding skips_green round_skips_green deviatdd.Micro.Cycle.enter_round
    deviatdd.Micro.Session.tdd_pre_green_decision start_cycle deviatdd.Micro.Run.enter_cycle
    deviatdd.Prelude.Text.strip deviatdd.Micro.Green.green_is_skipped
    deviatdd.Ledger.Phase.phase_already_done deviatdd.Micro.Task.read_ledger_records cycle_round
    deviatdd.Micro.Cycle.green_step deviatdd.Micro.Green.run_green
    deviatdd.Micro.Green.green_attempt deviatdd.Micro.Green.after_reply
    deviatdd.Micro.Cycle.after_green deviatdd.Micro.Cycle.judge_step
    deviatdd.Micro.Cycle.after_judge account_red_escalate deviatdd.Micro.Cycle.append_failed
    deviatdd.Micro.Cycle.escalate_to_new_red deviatdd.Micro.Cycle.raise_train_exhausted
    deviatdd.Micro.Cycle.train_green_or_escalate deviatdd.Micro.Session.clear_judge_retry_gate
    deviatdd.Micro.Session.consume_retry_gate_after_red
    deviatdd.Micro.Session.has_red_commit_boundary deviatdd.Micro.Session.inject_escalate_note
    deviatdd.Micro.Session.invalidate_stale_forward_route
    deviatdd.Micro.Session.is_green_test_failure deviatdd.Micro.Session.is_green_train_dump
    deviatdd.Micro.Session.reset_tdd_retry_budget deviatdd.Micro.Session.short_escalate_note
    deviatdd.Micro.Session.train_feedback_is_advisory deviatdd.Prelude.Text.contains
    deviatdd.Prelude.Text.lstrip deviatdd.Prelude.Text.rstrip deviatdd.Prelude.Text.starts_with
    deviatdd.Micro.Session.forward_route_is_stale deviatdd.Ledger.Phase.after_last_pending
never_skips_from = refl

cycle_loop-ends_example : cycle_loop failing task 16 false false false start ≢ none
cycle_loop-ends_example =
    cycle_loop-ends failing task failing_keeps 16 false false false start (omega arith)
      never_skips_from
