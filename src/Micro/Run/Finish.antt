-- ===== src/Micro/Run/Finish.antt =====
-- What `_finish_tdd_cycle` of cli/micro/surface.py leaves behind.
use deviatdd.Prelude.{
  String, Bool, true, false, not, ◌||◌, ◌⊎◌, inl, inr, ◌≡◌, refl, str_eq, if◌then◌else◌, Bool-cases,
}
use deviatdd.Micro.Task.{Task}
use deviatdd.Micro.Phases.{Phases}
use deviatdd.Micro.Session.{Session, reset_tdd_retry_budget, idle_after_tdd}
use deviatdd.Micro.Action.{State, Result, ok, raise, Action, update, ◌>>◌}
use deviatdd.Micro.Logic.{Ends, Ends-weaken, Ends-ok, Ends-if, Ends-continue}
use deviatdd.Micro.Run.{
  refuses, clear_pending, finish_tdd_cycle, append_completed, complete_unless_done, go_idle, polish,
}

-- The counters are zero, and the action that was pending is consumed.
abbrev pub Consumed : {W : Type 0} → String → State W → Type 0
Consumed pending t =
    (t.session.green_attempts ≡ 0)
    × (t.session.red_attempts ≡ 0)
    × ((str_eq pending "" || str_eq t.session.pending_judge_action "") ≡ true)

anything : {W A : Type 0} → (r : Result A × State W) → Ends (λ _ _. Unit {0}) r
unfolding Ends
anything (ok a, s) = tt
anything (raise e, s) = tt

or_true : (b : Bool) → b || true ≡ true
or_true true = refl
or_true false = refl

cleared :
    (b : Bool) (s : Session)
    → b || str_eq (if b then s else record s { pending_judge_action = "" }).pending_judge_action ""
      ≡ true
cleared true s = refl
cleared false s = refl

module _ {W : Type 0} (phases : Phases W) (task : Task) where
  idle-Consumed :
      (pending : String) (m : Action W (Unit {0})) (s : State W)
      → Ends (λ _. Consumed pending) ((m >> go_idle phases task) s)
  unfolding idle_after_tdd reset_tdd_retry_budget
  idle-Consumed pending m s =
      Ends-continue (λ _ _. Unit {0}) _ (m s) _ (anything (m s))
        λ _ t _.
          Ends-continue (λ _ _. Unit {0}) (λ _. Consumed pending) (phases.commit_completed t)
            (λ _. update idle_after_tdd) (anything _)
            λ _ u _.
              unfold Ends idle_after_tdd reset_tdd_retry_budget in
              (refl, refl, or_true (str_eq pending ""))

  polish-Consumed :
      (pending : String) (s : State W) → Ends (λ _. Consumed pending) (polish phases task pending s)
  unfolding reset_tdd_retry_budget
  polish-Consumed pending s =
      Ends-continue (λ _ _. Unit {0}) (λ _. Consumed pending) (phases.run_refactor _)
        (λ _. update (clear_pending pending) >> update reset_tdd_retry_budget) (anything _)
        λ _ u _.
          unfold Ends reset_tdd_retry_budget in (refl, refl, cleared (str_eq pending "") u.session)

  abbrev pub Finished : Bool → State W → State W → Type 0
  Finished failing s t =
      ((refuses failing s.session ≡ true) × (t ≡ s))
      ⊎ ((refuses failing s.session ≡ false) × Consumed s.session.pending_judge_action t)

  Consumed-Finished :
      (failing : Bool) (s : State W) (r : Result (Unit {0}) × State W)
      → refuses failing s.session ≡ false
      → Ends (λ _. Consumed s.session.pending_judge_action) r
      → Ends (λ _. Finished failing s) r
  Consumed-Finished failing s r h e = Ends-weaken _ _ r e λ _ t c. inr (h, c)

  module _ (no_refactor failing : Bool) (s : State W) where
    finish-Finished :
        Ends (λ _. Finished failing s) (finish_tdd_cycle phases task no_refactor failing s)
    unfolding finish_tdd_cycle
    finish-Finished =
        let pending = s.session.pending_judge_action in
        elim (Bool-cases (refuses failing s.session)) [
          | inl h ↦ rw h (unfold Ends in inl (h, refl))
          | inr h ↦ rw h (
              Consumed-Finished failing s _ h (
                Ends-if _ (str_eq pending "skip_refactor") _ _
                  (idle-Consumed pending (complete_unless_done phases task) s)
                  (Ends-if _
                    ((str_eq pending "continue_refactor"
                        || str_eq pending "proceed_to_refactor_no_diff")
                      || not no_refactor)
                    _ _ (polish-Consumed pending s)
                    (idle-Consumed pending (append_completed phases task) s))))
        ]

  -- When the end of a cycle returns, either the suite is red or a revert is pending, and nothing has
  -- changed: no phase ran, no row was written. Or neither is the case, and then both counters are
  -- zero and no action is pending any more, if one was.
  pub finish_tdd_cycle_lem :
      (no_refactor failing : Bool) (s t : State W)
      → finish_tdd_cycle phases task no_refactor failing s ≡ (ok tt, t)
      → ((refuses failing s.session ≡ true) × (t ≡ s))
        ⊎ ((refuses failing s.session ≡ false) × Consumed s.session.pending_judge_action t)
  finish_tdd_cycle_lem no_refactor failing s t h =
      Ends-ok (λ _. Finished failing s) _ tt t h (finish-Finished no_refactor failing s)
