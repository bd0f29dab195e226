-- ===== src/Micro/Queue/Attempts.antt =====
-- The two attempts of `_execute_task_with_retry` in cli/micro/surface.py.
use deviatdd.Prelude.{
  String, Bool, true, false, none, some, List, ◌≡◌, refl, ◌∙◌, ap, ◌⊎◌, inl, inr,
}
use deviatdd.Ledger.Rows.{Row, Line, get, str}
use deviatdd.Ledger.Append.View.{latest_where}
use deviatdd.Ledger.Append.Latest.{same_task, append_task_transition-latest}
use deviatdd.Micro.Task.{append_task_row, append_task_row_lem, status_row, append_status_transition}
use deviatdd.Micro.Phases.{Phases}
use deviatdd.Micro.Action.{
  Result, pure, continue, State, Failure, typer_exit, env_not_ready, hitl_escalation,
  train_exhausted, phase_failed, other_error, ok, raise, Action,
}
use deviatdd.Micro.Queue.{Queued, conclude, attempts}

-- A failure after which the task is tried again.
abbrev pub is_retried : Failure → Bool
is_retried phase_failed = true
is_retried other_error = true
is_retried _ = false

module _ {W : Type 0} (phases : Phases W) (prepare : Queued → Action W String)
    (dispatch : Queued → String → Action W (Unit {0})) (q : Queued) where
  abbrev failed_row : Row
  failed_row = status_row q.task "FAILED" ""

  again :
      (k : Action W Bool) (e : Failure) (t : State W)
      → is_retried e ≡ true
      → conclude phases prepare dispatch q (some k) (raise e, t) ≡ k t
  again k phase_failed t h = refl
  again k other_error t h = refl
  again k typer_exit t h = cc
  again k env_not_ready t h = cc
  again k hitl_escalation t h = cc
  again k train_exhausted t h = cc

  given_up :
      (e : Failure) (u : State W) (b : Bool) (after : List Line)
      → is_retried e ≡ true
      → append_task_row q.task failed_row u.ledger ≡ some (b, after)
      → conclude phases prepare dispatch q none (raise e, u)
        ≡ (ok false, record u { ledger = after })
  unfolding append_status_transition
  given_up phase_failed u b after h k = rw k refl
  given_up other_error u b after h k = rw k refl
  given_up typer_exit u b after h k = cc
  given_up env_not_ready u b after h k = cc
  given_up hitl_escalation u b after h k = cc
  given_up train_exhausted u b after h k = cc

  -- Two attempts that fail in a way that is retried leave FAILED as the latest status of the task, if
  -- the row is a valid task record, with an id of the form TSK-ddd-dd, and the append itself works; the
  -- second attempt starts from the state that the first one left.
  pub attempts-failed :
      (start_phase : String) (s t u : State W) (e f : Failure) (b : Bool) (after : List Line)
      → is_retried e ≡ true
      → is_retried f ≡ true
      → dispatch q start_phase s ≡ (raise e, t)
      → dispatch q start_phase t ≡ (raise f, u)
      → append_task_row q.task failed_row u.ledger ≡ some (b, after)
      → (attempts phases prepare dispatch q start_phase s ≡ (ok false, record u { ledger = after }))
        × ((r : Row) × (latest_where (same_task failed_row) after ≡ some r)
            × (get "status" r ≡ str "FAILED"))
  unfolding attempts
  attempts-failed start_phase s t u e f b after he hf first second append =
      let ((r, found, status), _) =
        append_task_transition-latest failed_row u.ledger after b
          (append_task_row_lem q.task failed_row u.ledger after b append) in
      (
        rw first (
            again (λ x. conclude phases prepare dispatch q none (dispatch q start_phase x)) e t he
            ∙ rw second (given_up f u b after hf append)),
        (r, found, unfold status_row get in status),
      )

  -- What lets a task count as done: a dispatch that returned, the first one, or the second one from
  -- the state in which the first one failed in a way that is retried.
  abbrev pub Done : String → State W → State W → Type 0
  Done start_phase s t =
      (dispatch q start_phase s ≡ (ok tt, t))
      ⊎ ((e : Failure) × (u : State W) × (is_retried e ≡ true)
          × (dispatch q start_phase s ≡ (raise e, u))
          × (dispatch q start_phase u ≡ (ok tt, t)))

  never_true :
      {B : Type 0}
      → (r : Result (Unit {0}) × State W) (t : State W)
      → continue r (λ _. pure false) ≡ (ok true, t)
      → B
  never_true (ok a, s) t h = cc
  never_true (raise e, s) t h = cc

  last_done :
      (r : Result (Unit {0}) × State W) (t : State W)
      → conclude phases prepare dispatch q none r ≡ (ok true, t)
      → r ≡ (ok tt, t)
  last_done (ok a, s) t h = ap (λ x. (ok tt, x.1)) h
  last_done (raise typer_exit, s) t h = cc
  last_done (raise env_not_ready, s) t h = cc
  last_done (raise hitl_escalation, s) t h = never_true _ t h
  last_done (raise train_exhausted, s) t h = cc
  last_done (raise phase_failed, s) t h = never_true _ t h
  last_done (raise other_error, s) t h = never_true _ t h

  -- A task counts as done only after a dispatch of it that returned, the first or a second one.
  pub attempts-Done :
      (start_phase : String) (s t : State W)
      → attempts phases prepare dispatch q start_phase s ≡ (ok true, t)
      → Done start_phase s t
  unfolding attempts
  attempts-Done start_phase s t h = first_done (dispatch q start_phase s) refl h
    where
      first_done :
          (r : Result (Unit {0}) × State W)
          → dispatch q start_phase s ≡ r
          → conclude phases prepare dispatch q
              (some λ x. conclude phases prepare dispatch q none (dispatch q start_phase x))
              r
            ≡ (ok true, t)
          → Done start_phase s t
      first_done (ok a, u) e k = inl (e ∙ ap (λ x. (ok tt, x.1)) k)
      first_done (raise typer_exit, u) e k = cc
      first_done (raise env_not_ready, u) e k = cc
      first_done (raise hitl_escalation, u) e k = never_true _ t k
      first_done (raise train_exhausted, u) e k = cc
      first_done (raise phase_failed, u) e k =
          inr (phase_failed, u, refl, e, last_done (dispatch q start_phase u) t k)
      first_done (raise other_error, u) e k =
          inr (other_error, u, refl, e, last_done (dispatch q start_phase u) t k)
