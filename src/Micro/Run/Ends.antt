-- ===== src/Micro/Run/Ends.antt =====
-- The cycle of a task ends: `_run_tdd_cycle_impl` of cli/micro/surface.py.
use deviatdd.Prelude.{
  String, Bool, true, false, Option, none, some, ◌≡◌, ◌≢◌, refl, arith, if◌then◌else◌,
}
use deviatdd.Micro.Task.{Task, task_phase_done}
use deviatdd.Micro.Phases.{Phases}
use deviatdd.Micro.Budget.{KeepBudget}
use deviatdd.Micro.Action.{State, Result, ok, raise}
use deviatdd.Micro.Cycle.Termination.{skips_green, cycle_loop-ends}
use deviatdd.Micro.Run.{
  Start, finished, looping, start_cycle, run_tdd_cycle, after_start, after_loop,
}

if-some :
    {A : Type 0} → (b : Bool) (a : A) (x : Option A) → x ≢ none → (if b then some a else x) ≢ none
if-some true a x h = λ p. cc
if-some false a x h = h

module _ {W : Type 0} (phases : Phases W) (keep : KeepBudget phases) (task : Task) where
  after_loop-some :
      (no_refactor : Bool) (r : Option (Result Bool × State W))
      → r ≢ none
      → after_loop phases task no_refactor r ≢ none
  after_loop-some no_refactor none h = λ p. h refl
  after_loop-some no_refactor (some (raise e, s)) h = λ p. cc
  after_loop-some no_refactor (some (ok failing, s)) h = λ p. cc

  after_start-some :
      (no_judge no_refactor : Bool) (r : Result Start × State W)
      → skips_green phases task 16 no_judge no_refactor false r.1 ≡ false
      → after_start phases task 16 no_judge no_refactor r ≢ none
  after_start-some no_judge no_refactor (raise e, s) h = λ p. cc
  after_start-some no_judge no_refactor (ok finished, s) h = λ p. cc
  after_start-some no_judge no_refactor (ok looping, s) h =
      after_loop-some no_refactor _
        (cycle_loop-ends phases task keep 16 no_judge no_refactor false s (omega arith) h)

  -- Sixteen rounds are enough: `run_tdd_cycle` ends, with or without an exception, from any state and
  -- for any start phase, if no round of the loop skips a GREEN that the ledger records as done, and the
  -- phases, agents, Git steps and the suite that the cycle calls leave the two retry counters alone.
  pub run_tdd_cycle-ends :
      (no_judge no_refactor : Bool) (start_phase : String) (s : State W)
      → skips_green phases task 16 no_judge no_refactor false
          (start_cycle phases task no_refactor start_phase s).1
        ≡ false
      → run_tdd_cycle phases task 16 no_judge no_refactor start_phase s ≢ none
  unfolding run_tdd_cycle
  run_tdd_cycle-ends no_judge no_refactor start_phase s h =
      if-some (task_phase_done task "COMPLETED" s.ledger) (ok tt, s) _
        (after_start-some no_judge no_refactor (start_cycle phases task no_refactor start_phase s)
          h)
