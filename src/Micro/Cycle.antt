-- ===== src/Micro/Cycle.antt =====
-- `_run_tdd_cycle_impl` of cli/micro/surface.py: the loop that trains GREEN and escalates to a new RED.
pub mod Budget
pub mod Termination
pub mod Exhausted
mod Examples
use deviatdd.Prelude.{
  ℕ, zero, suc, ◌+◌, ◌-◌, String, Bool, true, false, not, ◌&&◌, ◌||◌, Option, none, some, List, [],
  ◌∷◌, ◌++◌, str_eq, if◌then◌else◌, leb, ltb, ◌≡◌,
}
use Prim.Native.String
use deviatdd.Prelude.Text.{Text, codes, strip, is_empty}
use deviatdd.Ledger.Rows.{Row, Line, Json, str}
use deviatdd.Micro.Task.{append_task_row, Task, status_row, written}
use deviatdd.Micro.Phases.{Phases}
use deviatdd.Micro.Green.{run_green}
use deviatdd.Micro.Session.{
  Session, Phase, red, green, judge, refactor, FailureKind, is_forward_route, is_phase_red,
  is_green_test_failure, train_feedback_is_advisory, reset_tdd_retry_budget,
  has_red_commit_boundary, bind_judge_forward_route, Decision, escalate, complete,
  tdd_pre_green_decision, clear_judge_retry_gate, consume_retry_gate_after_red,
  inject_escalate_note,
}
use deviatdd.Micro.Action.{
  State, Failure, train_exhausted, Result, ok, raise, Action, pure, throw, session_of, update,
  push_event, continue, ◌>>=◌, ◌>>◌,
}

abbrev pub max_green_attempts : ℕ
max_green_attempts = 3

abbrev pub max_red_attempts : ℕ
max_red_attempts = 3

-- How a round of the `while` loop ends: `continue` or `break`, each with `green_test_failure`.
pub data Step : Type 0 where
  again leave : Bool → Step

abbrev pub exhausted_message : Task → String
exhausted_message task =
    String.◌++◌ "TRAIN_EXHAUSTED: " (String.◌++◌ task.id " reached 3 RED escalates")

abbrev pub count_escalate : Session → Session
count_escalate s = record s { green_attempts = 0; red_attempts = s.red_attempts + 1 }

abbrev pub drop_red_sha : Session → Session
drop_red_sha s = record s { red_commit_sha = [] }

abbrev pub persist_revert : Text → Session → Session
persist_revert feedback s = record s {
  pending_judge_action = "revert_red";
  train_feedback = feedback;
}

abbrev pub default_feedback : Text
default_feedback =
    codes
      "GREEN implementation tests failed. The implementation must be corrected to pass the test suite."

abbrev pub or_text : Text → Text → Text
or_text [] other = other
or_text (c ∷ s) other = c ∷ s

-- The session before GREEN trains again, with feedback if it has none.
abbrev pub retrain : Text → Session → Session
retrain feedback s = record s {
  train_feedback = or_text s.train_feedback feedback;
  current_phase = Phase.green;
  judge_rejected = false;
}

abbrev pub drop_forward_route : Session → Session
drop_forward_route s =
    if is_forward_route s.pending_judge_action then record s { pending_judge_action = "" } else s

abbrev pub keep_dump : Text → Session → Session
keep_dump dump s =
    if is_empty s.train_feedback
      && (not (str_eq s.pending_judge_action "revert_green") && not s.judge_rejected)
    then record s { train_feedback = dump }
    else s

abbrev pub restore_forward_route : String → Bool → Session → Session
restore_forward_route task_id no_refactor s =
    if is_forward_route s.pending_judge_action
    then s
    else bind_judge_forward_route task_id (record s {
      pending_judge_action = if no_refactor then "skip_refactor" else "continue_refactor";
    })

abbrev pub dump_of : Session → Text
dump_of s = if is_green_test_failure s then s.train_feedback else []

-- What follows a round: `continue`, or the end of the loop with its answer or exception.
abbrev pub end_round :
    {W X : Type 0} → (Bool → State W → X) → (Result Bool × State W → X) → Result Step × State W → X
end_round next stop (raise e, s) = stop (raise e, s)
end_round next stop (ok (again failing), s) = next failing s
end_round next stop (ok (leave failing), s) = stop (ok failing, s)

module _ {W : Type 0} (phases : Phases W) (task : Task) where
  open phases use {
    is_red_sha, recover_boundary, rollback_pre_red, commit_feedback, reset_env, run_red, run_judge,
  }

  -- `_append_status_transition(task, "FAILED", ...)` inside its `try`: an exception is caught, and
  -- the error that is raised then has the same flag.
  unfoldable pub append_failed : Action W (Unit {0})
  unfolding status_row append_task_row
  append_failed s = (
    ok tt,
    record s {
      ledger =
          written s.ledger
            (append_task_row task (status_row task "FAILED" (exhausted_message task)) s.ledger);
    },
  )

  unfoldable pub raise_train_exhausted : Action W (Unit {0})
  unfolding append_failed reset_tdd_retry_budget clear_judge_retry_gate
  raise_train_exhausted = do
    update reset_tdd_retry_budget
    update clear_judge_retry_gate
    append_failed
    throw train_exhausted

  unfoldable pub account_red_escalate : Action W (Unit {0})
  account_red_escalate = do
    update count_escalate
    s ← session_of
    if leb max_red_attempts s.red_attempts then raise_train_exhausted else pure tt

  abbrev pub recommit_feedback : Text → Action W (Unit {0})
  recommit_feedback feedback =
      if is_empty feedback
      then pure tt
      else (do update drop_red_sha; commit_feedback feedback; update (persist_revert feedback))

  abbrev pub after_rollback : Bool → Action W (Unit {0})
  after_rollback false = pure tt
  after_rollback true = do s ← session_of; recommit_feedback (strip s.train_feedback); reset_env

  -- `_escalate_to_new_red`
  unfoldable pub escalate_to_new_red : Text → Action W (Unit {0})
  escalate_to_new_red reason = do
    account_red_escalate
    update (inject_escalate_note reason)
    rolled_back ← rollback_pre_red
    after_rollback rolled_back
    push_event red
    run_red
    update consume_retry_gate_after_red

  -- `_train_green_or_escalate`
  unfoldable pub train_green_or_escalate : Action W Bool
  train_green_or_escalate = do
    s ← session_of
    if ltb s.green_attempts max_green_attempts
        then pure false
        else (do escalate_to_new_red (codes "green budget exhausted"); pure true)

  abbrev pub train_again : Text → Bool → Action W Step
  train_again feedback failing = do
    escalated ← train_green_or_escalate
    if escalated then pure (again failing) else (do update (retrain feedback); pure (again failing))

  -- JUDGE has run after a GREEN whose suite is still red.
  abbrev pub suite_red : Text → Action W Step
  suite_red dump = do
    update drop_forward_route
    update (keep_dump dump)
    train_again (or_text dump default_feedback) true

  -- JUDGE has run after a GREEN that passed.
  abbrev pub suite_green : Bool → Session → Action W Step
  suite_green no_refactor s =
      if is_forward_route s.pending_judge_action
      then pure (leave false)
      else if not s.judge_rejected && train_feedback_is_advisory s.train_feedback
      then (do update (restore_forward_route task.id no_refactor); pure (leave false))
      else if s.judge_rejected || not (is_empty s.train_feedback)
      then train_again default_feedback false
      else pure (leave false)

  unfoldable pub after_judge : Bool → Bool → Text → Action W Step
  unfolding bind_judge_forward_route
  after_judge no_refactor failing dump = do
    s ← session_of
    if str_eq s.pending_judge_action "revert_red"
        then (do escalate_to_new_red (codes "test defect"); pure (again failing))
        else if failing
        then suite_red dump
        else suite_green no_refactor s

  unfoldable pub judge_step : Bool → Bool → Text → Action W Step
  judge_step no_refactor failing dump = do
    push_event judge
    run_judge no_refactor
    after_judge no_refactor failing dump

  unfoldable pub after_green : Bool → Bool → Action W Step
  after_green no_judge no_refactor = do
    s ← session_of
    if not (is_empty s.train_feedback) && is_phase_red s.current_phase
        then (do train_green_or_escalate; pure (again (is_green_test_failure s)))
        else if no_judge
        then pure (leave (is_green_test_failure s))
        else judge_step no_refactor (is_green_test_failure s) (dump_of s)

  unfoldable pub green_step : Bool → Bool → Bool → Action W Step
  green_step no_judge no_refactor failing = do
    s ← session_of
    if leb max_green_attempts s.green_attempts
        then (do escalate_to_new_red (codes "green budget exhausted"); pure (again failing))
        else (do push_event green; run_green phases task; after_green no_judge no_refactor)

  abbrev pub dispatch : Bool → Bool → Bool → Decision → Action W Step
  dispatch no_judge no_refactor failing escalate = do
    escalate_to_new_red (codes "no failing test adjudicated")
    pure (again failing)
  dispatch no_judge no_refactor failing complete = pure (leave failing)
  dispatch no_judge no_refactor failing Decision.green = green_step no_judge no_refactor failing

  abbrev pub ensure_boundary : Action W Bool
  ensure_boundary s = if is_red_sha s then (ok true, s) else recover_boundary s

  abbrev pub decide : Action W Decision
  decide s =
      let (d, session) = tdd_pre_green_decision task.id s.session in
      (ok d, record s { session = session })

  -- The start of a round: the RED boundary and the decision.
  unfoldable pub enter_round : Action W Decision
  enter_round = do ensure_boundary; decide

  -- One round of `while not judge_passed`; `failing` is `green_test_failure` of the round before.
  unfoldable pub cycle_round : Bool → Bool → Bool → Action W Step
  cycle_round no_judge no_refactor failing = do
    d ← enter_round
    dispatch no_judge no_refactor failing d

  -- `none` means that the fuel ran out before the loop did.
  unfoldable pub cycle_loop : ℕ → Bool → Bool → Bool → State W → Option (Result Bool × State W)
  cycle_loop zero no_judge no_refactor failing s = none
  cycle_loop (suc fuel) no_judge no_refactor failing s =
      end_round (λ failing' s'. cycle_loop fuel no_judge no_refactor failing' s') some
        (cycle_round no_judge no_refactor failing s)
