-- ===== src/Micro/Run.antt =====
-- `_finish_tdd_cycle` and `_run_tdd_cycle_impl` of cli/micro/surface.py: the TDD cycle of one task.
pub mod Finish
pub mod Ends
mod Examples
use deviatdd.Prelude.{
  ℕ, String, Bool, true, false, not, ◌&&◌, ◌||◌, Option, none, some, List, [], ◌∷◌, ◌++◌, str_eq,
  if◌then◌else◌,
}
use deviatdd.Prelude.Text.{Text, is_empty}
use deviatdd.Micro.Task.{Task, task_phase_done, append_status_transition}
use deviatdd.Micro.Phases.{Phases}
use deviatdd.Micro.Session.{
  Session, Phase, red, judge, refactor, is_forward_route, is_green_test_failure,
  reset_tdd_retry_budget, has_red_commit_boundary, invalidate_stale_forward_route,
  consume_retry_gate_after_red, idle_after_tdd, judge_cycle_trains,
}
use deviatdd.Micro.Action.{
  State, Failure, other_error, Result, ok, raise, Action, pure, throw, session_of, update,
  push_event, continue, ◌>>=◌, ◌>>◌,
}
use deviatdd.Micro.Cycle.{cycle_loop, dump_of}

-- `except PhaseFailedError: raise` and then `except Exception`, which prints a warning.
abbrev pub tolerate : {W : Type 0} → Result (Unit {0}) × State W → Result (Unit {0}) × State W
tolerate (raise other_error, s) = (ok tt, s)
tolerate (r, s) = (r, s)

abbrev pub clear_pending : String → Session → Session
clear_pending pending s = if str_eq pending "" then s else record s { pending_judge_action = "" }

abbrev pub refuses : Bool → Session → Bool
refuses failing s =
    (failing || is_green_test_failure s)
    || (str_eq s.pending_judge_action "revert_green" || str_eq s.pending_judge_action "revert_red")

-- The session after JUDGE on a re-entry, when the suite was red before it.
abbrev pub remap_red : Text → Session → Session
remap_red dump s =
    let cleared =
      if is_forward_route s.pending_judge_action
      then record s { pending_judge_action = "" }
      else s in
    if is_empty s.train_feedback && not (str_eq s.pending_judge_action "revert_green")
    then record cleared { train_feedback = dump }
    else cleared

-- What the start of the cycle leaves to do: nothing, or the loop.
pub data Start : Type 0 where
  finished looping : Start

module _ {W : Type 0} (phases : Phases W) (task : Task) where
  open phases use {
    run_red, run_judge, run_refactor, commit_completed, completed_evidence, recover_boundary,
    bind_boundary, verify_branch,
  }

  unfoldable pub append_completed : Action W (Unit {0})
  unfolding append_status_transition
  append_completed s = tolerate (append_status_transition completed_evidence task "COMPLETED" "" s)

  abbrev pub complete_unless_done : Action W (Unit {0})
  complete_unless_done s =
      if task_phase_done task "COMPLETED" s.ledger then (ok tt, s) else append_completed s

  abbrev pub go_idle : Action W (Unit {0})
  go_idle = do commit_completed; update idle_after_tdd

  abbrev pub polish : String → Action W (Unit {0})
  polish pending = do
    push_event refactor
    run_refactor
    update (clear_pending pending)
    update reset_tdd_retry_budget

  unfoldable pub finish_tdd_cycle : Bool → Bool → Action W (Unit {0})
  unfolding append_completed is_green_test_failure idle_after_tdd reset_tdd_retry_budget
  finish_tdd_cycle no_refactor failing s =
      let pending = s.session.pending_judge_action in
      if refuses failing s.session
      then (ok tt, s)
      else if str_eq pending "skip_refactor"
      then (complete_unless_done >> go_idle) s
      else if (str_eq pending "continue_refactor" || str_eq pending "proceed_to_refactor_no_diff")
          || not no_refactor
      then polish pending s
      else (append_completed >> go_idle) s

  -- JUDGE on a re-entry: its answer is `finished`, or the loop goes on with GREEN.
  abbrev after_entry_judge : Bool → Bool → Text → Action W Start
  after_entry_judge no_refactor suite_red dump s =
      if judge_cycle_trains suite_red s.session.pending_judge_action
      then (if suite_red then (update (remap_red dump) >> pure looping) s else (ok looping, s))
      else (finish_tdd_cycle no_refactor false >> pure finished) s

  unfoldable pub enter_at_judge : Bool → Action W Start
  unfolding judge_cycle_trains is_green_test_failure
  enter_at_judge no_refactor = do
    s ← session_of
    if str_eq s.pending_judge_action "revert_green" && not (is_empty s.train_feedback)
        then pure looping
        else (do
          push_event judge
          run_judge no_refactor
          after_entry_judge no_refactor (is_green_test_failure s) (dump_of s))

  abbrev red_phase : Action W Start
  red_phase = do push_event red; run_red; update consume_retry_gate_after_red; pure looping

  -- Without a RED boundary that is known or recovered, the cycle starts at GREEN.
  unfoldable pub enter_at_red : Action W Start
  unfolding has_red_commit_boundary consume_retry_gate_after_red
  enter_at_red = do
    s ← session_of
    known ← (if has_red_commit_boundary s then pure true else recover_boundary)
    if known then red_phase else pure looping

  abbrev enter_at_refactor : Action W Start
  enter_at_refactor = do push_event refactor; run_refactor; pure finished

  -- The empty text stands for `start_phase=None`.
  unfoldable pub enter_cycle : Bool → String → Action W Start
  enter_cycle no_refactor start_phase =
      if str_eq start_phase "REFACTOR"
      then enter_at_refactor
      else if str_eq start_phase "YELLOW" || str_eq start_phase "GREEN"
      then pure looping
      else if str_eq start_phase "JUDGE"
      then enter_at_judge no_refactor
      else enter_at_red

  abbrev drop_stale : Session → Session
  drop_stale s = (invalidate_stale_forward_route task.id s).1

  unfoldable pub start_cycle : Bool → String → Action W Start
  unfolding invalidate_stale_forward_route reset_tdd_retry_budget
  start_cycle no_refactor start_phase = do
    verify_branch
    update drop_stale
    update reset_tdd_retry_budget
    bind_boundary
    enter_cycle no_refactor start_phase

  abbrev pub after_loop :
      Bool → Option (Result Bool × State W) → Option (Result (Unit {0}) × State W)
  after_loop no_refactor none = none
  after_loop no_refactor (some (raise e, s)) = some (raise e, s)
  after_loop no_refactor (some (ok failing, s)) = some (finish_tdd_cycle no_refactor failing s)

  abbrev pub after_start :
      ℕ → Bool → Bool → Result Start × State W → Option (Result (Unit {0}) × State W)
  after_start fuel no_judge no_refactor (raise e, s) = some (raise e, s)
  after_start fuel no_judge no_refactor (ok finished, s) = some (ok tt, s)
  after_start fuel no_judge no_refactor (ok looping, s) =
      after_loop no_refactor (cycle_loop phases task fuel no_judge no_refactor false s)

  unfoldable pub run_tdd_cycle :
      ℕ → Bool → Bool → String → State W → Option (Result (Unit {0}) × State W)
  run_tdd_cycle fuel no_judge no_refactor start_phase s =
      if task_phase_done task "COMPLETED" s.ledger
      then some (ok tt, s)
      else after_start fuel no_judge no_refactor (start_cycle no_refactor start_phase s)
