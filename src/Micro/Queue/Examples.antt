-- ===== src/Micro/Queue/Examples.antt =====
-- A queue of one task.
use deviatdd.Prelude.{String, true, false, Option, some, [], ◌∷◌, ◌≡◌, refl, ◌⊎◌}
use deviatdd.Ledger.Rows.{Row, get, str}
use deviatdd.Ledger.Append.{append_row, append_task_transition}
use deviatdd.Ledger.Append.View.{latest_where}
use deviatdd.Ledger.Append.Latest.{same_task}
use deviatdd.Micro.Action.{State, Action, ok, phase_failed, pure, throw}
use deviatdd.Micro.Task.{append_task_row, status_row}
use deviatdd.Micro.Queue.{Queued, attempts, run_all, exit_code}
use deviatdd.Micro.Queue.Trace.{AllReady, halts, Reported, run_all_lem}
use deviatdd.Micro.Queue.Attempts.{attempts-failed, Done, attempts-Done}
use deviatdd.Micro.Fixtures.{task, start, failing}

abbrev queued : Queued
queued = record { task = task; status = "PENDING"; depends_on = "TSK-001-00" ∷ [] }

abbrev latest : State (Unit {0}) → String → Option String
latest s id = some "COMPLETED"

abbrev prepare : Queued → Action (Unit {0}) String
prepare q = pure ""

abbrev dispatch : Queued → String → Action (Unit {0}) (Unit {0})
dispatch q start_phase = throw phase_failed

run_all_lem_example :
    let (result, o) = run_all failing prepare dispatch latest (queued ∷ []) start in
    AllReady latest o.trace
    × (halts o.trace ≡ true)
    × ((result ≡ exit_code o) ⊎ ((queued ∷ [] ≡ []) × (result ≡ ok 0)))
    × Reported o.result o.trace
run_all_lem_example = run_all_lem latest failing prepare dispatch (queued ∷ []) start

abbrev failed_row_of : Queued → Row
failed_row_of q = status_row q.task "FAILED" ""

failed_again :
    append_task_row task (failed_row_of queued) []
    ≡ some (true, append_row [] (failed_row_of queued))
unfolding append_task_row append_task_transition
failed_again = refl

attempts-failed_example :
    (attempts failing prepare dispatch queued "" start
      ≡ (ok false, record start { ledger = append_row [] (failed_row_of queued) }))
    × ((r : Row) × (latest_where
            (same_task (failed_row_of queued))
            (append_row [] (failed_row_of queued))
          ≡ some r)
        × (get "status" r ≡ str "FAILED"))
attempts-failed_example =
    attempts-failed failing prepare dispatch queued "" start start start phase_failed phase_failed
      true (append_row [] (failed_row_of queued)) refl refl refl refl failed_again

abbrev dispatch_once : Queued → String → Action (Unit {0}) (Unit {0})
dispatch_once q start_phase = pure tt

returns : attempts failing prepare dispatch_once queued "" start ≡ (ok true, start)
unfolding attempts
returns = refl

attempts-Done_example : Done failing prepare dispatch_once queued "" start start
attempts-Done_example = attempts-Done failing prepare dispatch_once queued "" start start returns
