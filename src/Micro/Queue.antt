-- ===== src/Micro/Queue.antt =====
-- cli/micro/pending.py and `_run_all` of cli/micro/surface.py: the queue of pending tasks.
pub mod Attempts
pub mod Trace
mod Examples
use deviatdd.Prelude.{
  ℕ, zero, suc, String, Bool, true, false, not, ◌&&◌, ◌||◌, Option, none, some, List, [], ◌∷◌, any,
  str_eq, if◌then◌else◌, ◌≡◌, refl,
}
use deviatdd.Ledger.Rows.{Line}
use deviatdd.Micro.Task.{Task, append_status_transition}
use deviatdd.Micro.Phases.{Phases}
use deviatdd.Micro.Action.{
  State, Failure, typer_exit, env_not_ready, hitl_escalation, train_exhausted, phase_failed,
  other_error, Result, ok, raise, Action, pure, throw, continue, ◌>>=◌, ◌>>◌,
}

-- A record of the queue: the task, its latest status and the ids that it depends on.
pub record Queued : Type 0 where
  pub task : Task
  pub status : String
  pub depends_on : List String

abbrev pub is_completed : Option String → Bool
is_completed none = false
is_completed (some status) = str_eq status "COMPLETED"

-- The `dep for dep in deps if ...` of `_unmet_prerequisite_ids`.
unfoldable pub incomplete : (String → Option String) → List String → List String
incomplete latest [] = []
incomplete latest (dep ∷ deps) =
    let rest = incomplete latest deps in if is_completed (latest dep) then rest else dep ∷ rest

unfoldable pub unmet_prerequisite_ids : Queued → (String → Option String) → List String
unfolding incomplete
unmet_prerequisite_ids q latest =
    if str_eq q.status "FAILED" then [] else incomplete latest q.depends_on

-- One dispatch: the task, the state before it and what `_execute_task_with_retry` returned.
pub record Entry (W : Type 0) : Type 0 where
  pub queued : Queued
  pub before : State W
  pub succeeded : Bool

-- What the loop over the queue did: the dispatches in order, and `any_failed` or an exception.
pub record Outcome (W : Type 0) : Type 0 where
  pub trace : List (Entry W)
  pub result : Result Bool
  pub after : State W

abbrev pub add_entry : {W : Type 0} → Entry W → Outcome W → Outcome W
add_entry entry o = record o { trace = entry ∷ o.trace }

abbrev pub code_for : Bool → Result Bool → Result ℕ
code_for idle (raise e) = raise e
code_for idle (ok failed) = ok (if failed || idle then 1 else 0)

module _ {W : Type 0} where
  abbrev pub if_ready : List String → Outcome W → Outcome W → Outcome W
  if_ready [] run skip = run
  if_ready (_ ∷ _) run skip = skip

  -- What follows a dispatch of `q` in state `s`: the rest of the queue, or `break`.
  abbrev pub settle : Queued → State W → (State W → Outcome W) → Result Bool × State W → Outcome W
  settle q s next (raise e, t) = record {
    trace = record { queued = q; before = s; succeeded = false } ∷ [];
    result = raise e;
    after = t;
  }
  settle q s next (ok true, t) =
      add_entry (record { queued = q; before = s; succeeded = true }) (next t)
  settle q s next (ok false, t) = record {
    trace = record { queued = q; before = s; succeeded = false } ∷ [];
    result = ok true;
    after = t;
  }

  abbrev pub is_nil : List (Entry W) → Bool
  is_nil [] = true
  is_nil (_ ∷ _) = false

  -- The exit code of `_run_all`, or its exception: 1 after a failure, and if no task was ready.
  abbrev pub exit_code : Outcome W → Result ℕ
  exit_code o = code_for (is_nil o.trace) o.result

module _ {W : Type 0} (phases : Phases W) where
  -- The task's dispatch, `_dispatch_task`, from the start phase that `prepare` finds: "GREEN" after
  -- `_resume_pending_judge_feedback`, and the empty text for None.
  module _ (prepare : Queued → Action W String)
      (dispatch : Queued → String → Action W (Unit {0})) where
    abbrev mark : Queued → String → Action W Bool
    mark q status =
        append_status_transition phases.completed_evidence q.task status "" >> pure false

    -- One turn of `for attempt in range(2)`; `retry` is the next one, if there is one.
    abbrev pub conclude :
        Queued → Option (Action W Bool) → Result (Unit {0}) × State W → Result Bool × State W
    conclude q retry (ok tt, s) = (ok true, s)
    conclude q retry (raise typer_exit, s) = (raise typer_exit, s)
    conclude q retry (raise env_not_ready, s) = (ok false, s)
    conclude q retry (raise hitl_escalation, s) = mark q "HITL_PENDING" s
    conclude q retry (raise train_exhausted, s) = (ok false, s)
    conclude q none (raise phase_failed, s) = mark q "FAILED" s
    conclude q none (raise other_error, s) = mark q "FAILED" s
    conclude q (some again) (raise phase_failed, s) = again s
    conclude q (some again) (raise other_error, s) = again s

    unfoldable pub attempts : Queued → String → Action W Bool
    unfolding append_status_transition
    attempts q start_phase s =
        conclude q (some λ t. conclude q none (dispatch q start_phase t)) (dispatch q start_phase s)

    unfoldable pub execute_task_with_retry : Queued → Action W Bool
    unfolding attempts
    execute_task_with_retry q = do start_phase ← prepare q; attempts q start_phase

    -- `_latest_task_statuses(root, issue_id)` is read again before each task.
    module _ (latest : State W → String → Option String) where
      unfoldable pub run_queue : List Queued → State W → Outcome W
      unfolding unmet_prerequisite_ids execute_task_with_retry
      run_queue [] s = record { trace = []; result = ok false; after = s }
      run_queue (q ∷ qs) s =
          let skip = run_queue qs s in
          if_ready (unmet_prerequisite_ids q (latest s))
            (settle q s (λ t. run_queue qs t) (execute_task_with_retry q s)) skip

      unfoldable pub run_all : List Queued → State W → Result ℕ × Outcome W
      run_all [] s = (ok 0, record { trace = []; result = ok false; after = s })
      run_all (q ∷ qs) s = let o = run_queue (q ∷ qs) s in (exit_code o, o)
