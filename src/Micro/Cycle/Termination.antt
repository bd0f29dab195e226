-- ===== src/Micro/Cycle/Termination.antt =====
-- The loop of `_run_tdd_cycle_impl` ends: three RED escalations, and three GREEN attempts for each.
use deviatdd.Prelude.{
  ℕ, zero, suc, ◌+◌, ◌-◌, ◌*◌, ◌<◌, inl, inr, Bool, true, false, none, some, ◌≡◌, ◌≢◌, refl, ap,
  subst, ◌∙◌, arith, ◌||◌,
}
use deviatdd.Micro.Task.{Task}
use deviatdd.Micro.Phases.{Phases}
use deviatdd.Micro.Session.{
  Decision, escalate, complete, tdd_pre_green_decision, invalidate_stale_forward_route,
  clear_stale_forward_route,
}
use deviatdd.Micro.Action.{State, Result, ok, raise, continue}
use deviatdd.Micro.Green.{green_is_skipped}
use deviatdd.Micro.Budget.{KeepBudget}
use deviatdd.Micro.Logic.{
  Ends, Ends-weaken, Ends-if, Ends-ok, KeepsCounts, Counted, SameCounts, KeepsSession,
  bind-KeepsCounts,
}
use deviatdd.Micro.Cycle.{
  Step, again, leave, ensure_boundary, enter_round, dispatch, end_round, cycle_round, cycle_loop,
}
use deviatdd.Micro.Cycle.Budget.{Moved, escalate_again-Moved, green_step-Moved}

-- The GREEN attempts and RED escalations that are left.
abbrev pub rank : ℕ → ℕ → ℕ
rank g r = 4 * (3 - r) + (3 - g)

abbrev pub rank_of : {W : Type 0} → State W → ℕ
rank_of s = rank s.session.green_attempts s.session.red_attempts

rank-Moved : (g r g' r' : ℕ) → Moved g r g' r' → rank g' r' < rank g r
rank-Moved g r g' r' (inl (zeroed, more, few)) = ground arith
rank-Moved g r g' r' (inr (more, same, few)) = ground arith

module _ {W : Type 0} (phases : Phases W) (task : Task) where
  -- The round would run GREEN, and `_run_green_phase` returns without running it.
  abbrev skips_at : Result Decision × State W → Bool
  skips_at (ok Decision.green, t) = green_is_skipped phases task t
  skips_at _ = false

  unfoldable pub round_skips_green : State W → Bool
  round_skips_green s = skips_at (enter_round phases task s)

  -- Some round of the first `fuel` rounds skips GREEN.
  unfoldable pub skips_green : ℕ → Bool → Bool → Bool → State W → Bool
  skips_green zero no_judge no_refactor failing s = false
  skips_green (suc fuel) no_judge no_refactor failing s =
      round_skips_green s
      || end_round (λ failing' s'. skips_green fuel no_judge no_refactor failing' s') (λ _. false)
          (cycle_round phases task no_judge no_refactor failing s)

  abbrev Lower : State W → Step → State W → Type 0
  Lower s (again failing) t =
      Moved s.session.green_attempts s.session.red_attempts t.session.green_attempts
        t.session.red_attempts
  Lower s (leave failing) t = Unit {0}

  Moved-Lower :
      (s u t : State W) (step : Step)
      → SameCounts s u
      → Moved u.session.green_attempts u.session.red_attempts t.session.green_attempts
          t.session.red_attempts
      → Lower s step t
  Moved-Lower s u t (leave failing) same moved = tt
  Moved-Lower s u t (again failing) same (inl (zeroed, more, few)) =
      inl (zeroed, more ∙ ap (λ x. x + 1) same.1, few)
  Moved-Lower s u t (again failing) same (inr (more, kept, few)) =
      inr (more ∙ ap (λ x. x + 1) same.0, kept ∙ same.1, subst (λ x. x < 3) same.0 few)

  Counted-Lower :
      (s u : State W) (r : Result Step × State W)
      → SameCounts s u
      → Counted (Moved u.session.green_attempts u.session.red_attempts) r
      → Ends (Lower s) r
  unfolding Counted
  Counted-Lower s u r same moved = Ends-weaken _ _ r moved λ step t m. Moved-Lower s u t step same m

  module _ (keep : KeepBudget phases) where
    dispatch-Lower :
        (no_judge no_refactor failing : Bool) (s : State W) (r : Result Decision × State W)
        → Ends (λ _ t. SameCounts s t) r
        → skips_at r ≡ false
        → Ends (Lower s) (continue r (dispatch phases task no_judge no_refactor failing))
    unfolding Ends
    dispatch-Lower no_judge no_refactor failing s (raise e, t) same h = tt
    dispatch-Lower no_judge no_refactor failing s (ok complete, t) same h = tt
    dispatch-Lower no_judge no_refactor failing s (ok escalate, t) same h =
        Counted-Lower s t _ same (escalate_again-Moved phases keep task _ failing t)
    dispatch-Lower no_judge no_refactor failing s (ok Decision.green, t) same h =
        Counted-Lower s t _ same
          (green_step-Moved phases keep task no_judge no_refactor failing t h)

    decision-KeepsSession : KeepsSession (λ s. (tdd_pre_green_decision task.id s).1)
    unfolding tdd_pre_green_decision invalidate_stale_forward_route clear_stale_forward_route
    decision-KeepsSession s = ground arith

    ensure-KeepsCounts : KeepsCounts (ensure_boundary phases task)
    unfolding KeepsCounts
    ensure-KeepsCounts s =
        Ends-if (λ _ t. SameCounts s t) (phases.is_red_sha s) (ok true, s)
          (phases.recover_boundary s) (unfold Ends in (refl, refl))
          (unfold KeepsCounts in keep.recover_keeps s)

    enter_round-KeepsCounts : KeepsCounts (enter_round phases task)
    unfolding enter_round
    enter_round-KeepsCounts =
        bind-KeepsCounts _ _ ensure-KeepsCounts
          λ _. unfold KeepsCounts Ends in λ s. decision-KeepsSession s.session

    cycle_round-Lower :
        (no_judge no_refactor failing : Bool) (s : State W)
        → round_skips_green s ≡ false
        → Ends (Lower s) (cycle_round phases task no_judge no_refactor failing s)
    unfolding cycle_round round_skips_green
    cycle_round-Lower no_judge no_refactor failing s h =
        dispatch-Lower no_judge no_refactor failing s (enter_round phases task s)
          (unfold KeepsCounts in enter_round-KeepsCounts s) h

    -- If the phases, agents, Git steps and the suite that the cycle calls leave the two retry counters
    -- alone, a round that returns and is followed by another one, and in which GREEN is not skipped, has
    -- started one GREEN attempt, the first, second or third under this RED, or else it has counted one
    -- RED escalation, the first or second, and given GREEN its attempts back.
    pub cycle_round-Moved :
        (no_judge no_refactor failing again_failing : Bool) (s t : State W)
        → round_skips_green s ≡ false
        → cycle_round phases task no_judge no_refactor failing s ≡ (ok (again again_failing), t)
        → Moved s.session.green_attempts s.session.red_attempts t.session.green_attempts
            t.session.red_attempts
    cycle_round-Moved no_judge no_refactor failing again_failing s t h returned =
        Ends-ok (Lower s) _ (again again_failing) t returned
          (cycle_round-Lower no_judge no_refactor failing s h)

    next_round :
        (fuel : ℕ) (no_judge no_refactor : Bool) (s : State W) (r : Result Step × State W)
        → ((failing : Bool) (t : State W)
            → rank_of t < fuel
            → skips_green fuel no_judge no_refactor failing t ≡ false
            → cycle_loop phases task fuel no_judge no_refactor failing t ≢ none)
        → rank_of s < suc fuel
        → Ends (Lower s) r
        → end_round (λ f t. skips_green fuel no_judge no_refactor f t) (λ _. false) r ≡ false
        → end_round (λ f t. cycle_loop phases task fuel no_judge no_refactor f t) some r ≢ none
    unfolding Ends
    next_round fuel no_judge no_refactor s (raise e, t) ih few lower h = λ p. cc
    next_round fuel no_judge no_refactor s (ok (leave failing), t) ih few lower h = λ p. cc
    next_round fuel no_judge no_refactor s (ok (again failing), t) ih few lower h =
        ih failing t (ground (arith, rank-Moved _ _ _ _ lower)) h

    -- The loop ends, with an answer or an exception, within any number of rounds above the rank of the
    -- counters, if no round of those skips a GREEN that the ledger records as done, and the phases,
    -- agents, Git steps and the suite that the cycle calls leave the two retry counters alone.
    pub cycle_loop-ends :
        (fuel : ℕ) (no_judge no_refactor failing : Bool) (s : State W)
        → rank_of s < fuel
        → skips_green fuel no_judge no_refactor failing s ≡ false
        → cycle_loop phases task fuel no_judge no_refactor failing s ≢ none
    unfolding cycle_loop skips_green
    cycle_loop-ends zero no_judge no_refactor failing s few h = ground arith
    cycle_loop-ends (suc fuel) no_judge no_refactor failing s few h =
        next_round fuel no_judge no_refactor s
          (cycle_round phases task no_judge no_refactor failing s)
          (λ f t lower skips. cycle_loop-ends fuel no_judge no_refactor f t lower skips) few
          (cycle_round-Lower no_judge no_refactor failing s (ground arith)) (ground arith)
