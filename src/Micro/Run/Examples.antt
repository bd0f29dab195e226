-- ===== src/Micro/Run/Examples.antt =====
-- The end of a cycle, the decision before GREEN and the end of the escalations.
use deviatdd.Prelude.{
  ℕ, String, Bool, true, false, Option, none, some, List, [], ◌∷◌, ◌≡◌, ◌≢◌, refl, ◌⊎◌, arith, leb,
  any, All,
}
use deviatdd.Prelude.Text.{Text, codes}
use deviatdd.Ledger.Append.{append_row, append_task_transition}
use deviatdd.Micro.Session.{Session}
use deviatdd.Micro.Action.{State, ok}
use deviatdd.Micro.Task.{append_task_row, Task, status_row}
use deviatdd.Micro.Cycle.{account_red_escalate}
use deviatdd.Micro.Run.{finish_tdd_cycle}
use deviatdd.Micro.Cycle.Exhausted.{failed_row, GivenUp, account_red_escalate-GivenUp}
use deviatdd.Micro.Session.{
  tdd_pre_green_decision, forward_route_is_stale, bind_judge_forward_route,
}
use deviatdd.Micro.Session.Routes.{
  Justified, tdd_pre_green_decision-Justified, forward_route_is_stale-bind_judge_forward_route,
}
use deviatdd.Micro.Run.{refuses}
use deviatdd.Micro.Run.Finish.{Consumed, finish_tdd_cycle_lem}
use deviatdd.Micro.Fixtures.{task, blank, start, failing}

abbrev twice_escalated : State (Unit {0})
twice_escalated = record start { session = record blank { red_attempts = 2; green_attempts = 3 } }

failed_append :
    append_task_row task (failed_row failing task) []
    ≡ some (true, append_row [] (failed_row failing task))
unfolding append_task_row append_task_transition
failed_append = refl

account_red_escalate-GivenUp_example :
    GivenUp failing task (account_red_escalate failing task twice_escalated)
account_red_escalate-GivenUp_example =
    account_red_escalate-GivenUp failing task twice_escalated true _ (omega arith) failed_append

abbrev judged : Session
judged = record blank {
  pending_judge_action = "skip_refactor";
  red_attempts = 1;
  judge_task_id = "TSK-001-02";
}

abbrev to_finish : State (Unit {0})
to_finish = record start { session = judged }

abbrev finished_state : State (Unit {0})
finished_state = (finish_tdd_cycle failing task false false to_finish).1

finishes : finish_tdd_cycle failing task false false to_finish ≡ (ok tt, finished_state)
unfolding finish_tdd_cycle deviatdd.Prelude.Text.starts_with
    deviatdd.Ledger.Phase.phase_already_done deviatdd.Micro.Task.read_ledger_records
    append_task_transition
finishes = refl

finish_tdd_cycle_lem_example :
    ((refuses false judged ≡ true) × (finished_state ≡ to_finish))
    ⊎ ((refuses false judged ≡ false) × Consumed "skip_refactor" finished_state)
finish_tdd_cycle_lem_example =
    finish_tdd_cycle_lem failing task false false to_finish finished_state finishes

tdd_pre_green_decision-Justified_example :
    Justified "TSK-001-01" judged (tdd_pre_green_decision "TSK-001-01" judged)
tdd_pre_green_decision-Justified_example = tdd_pre_green_decision-Justified "TSK-001-01" judged

forward_route_is_stale-bind_judge_forward_route_example :
    forward_route_is_stale "TSK-001-02" (bind_judge_forward_route "TSK-001-01" judged) ≡ true
forward_route_is_stale-bind_judge_forward_route_example =
    forward_route_is_stale-bind_judge_forward_route "TSK-001-01" judged "TSK-001-02"
