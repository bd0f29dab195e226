-- ===== src/Micro/Cycle/Exhausted.antt =====
-- The third RED escalation of `_account_red_escalate` in cli/micro/surface.py.
use deviatdd.Prelude.{◌+◌, ◌≤◌, Bool, false, some, List, ◌≡◌, refl, le→leb}
use deviatdd.Ledger.Rows.{Row, Line, get, str}
use deviatdd.Ledger.Append.View.{latest_where}
use deviatdd.Ledger.Append.Latest.{same_task, append_task_transition-latest}
use deviatdd.Micro.Task.{append_task_row, append_task_row_lem, Task, status_row}
use deviatdd.Micro.Phases.{Phases}
use deviatdd.Micro.Session.{reset_tdd_retry_budget, clear_judge_retry_gate}
use deviatdd.Micro.Action.{State, Result, raise, train_exhausted}
use deviatdd.Micro.Cycle.{
  account_red_escalate, count_escalate, raise_train_exhausted, append_failed, exhausted_message,
}

module _ {W : Type 0} (phases : Phases W) (task : Task) where
  abbrev pub failed_row : Row
  failed_row = status_row task "FAILED" (exhausted_message task)

  -- What is left when the escalation gives up: an exception, fresh counters, no pending action and
  -- FAILED as the latest status of the task.
  unfoldable pub GivenUp : Result (Unit {0}) × State W → Type 0
  GivenUp (result, t) =
      (result ≡ raise train_exhausted)
      × (t.session.green_attempts ≡ 0)
      × (t.session.red_attempts ≡ 0)
      × (t.session.pending_judge_action ≡ "")
      × (t.session.judge_rejected ≡ false)
      × ((r : Row) × (latest_where (same_task failed_row) t.ledger ≡ some r)
          × (get "status" r ≡ str "FAILED"))

  failed_latest :
      (s : State W) (b : Bool) (after : List Line)
      → append_task_row task failed_row s.ledger ≡ some (b, after)
      → GivenUp (raise_train_exhausted phases task s)
  unfolding GivenUp raise_train_exhausted append_failed reset_tdd_retry_budget
      clear_judge_retry_gate
  failed_latest s b after h =
      let ((r, found, status), _) =
        append_task_transition-latest failed_row s.ledger after b
          (append_task_row_lem task failed_row s.ledger after b h) in
      rw h (refl, refl, refl, refl, refl, (r, found, unfold status_row get in status))

  -- The escalation that makes three raises `train_exhausted`, resets both counters and the JUDGE gate,
  -- and leaves FAILED as the latest status of the task in the ledger, if the row is a valid task record,
  -- with an id of the form TSK-ddd-dd, and the append itself works.
  pub account_red_escalate-GivenUp :
      (s : State W) (b : Bool) (after : List Line)
      → 3 ≤ s.session.red_attempts + 1
      → append_task_row task failed_row s.ledger ≡ some (b, after)
      → GivenUp (account_red_escalate phases task s)
  unfolding account_red_escalate
  account_red_escalate-GivenUp s b after few h =
      rw (le→leb 3 (s.session.red_attempts + 1) few)
        (failed_latest (record s { session = count_escalate s.session }) b after h)
