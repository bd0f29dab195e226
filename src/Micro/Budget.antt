-- ===== src/Micro/Budget.antt =====
-- The two retry counters of the TDD cycle: what one round of the loop does to them.
use deviatdd.Prelude.{◌+◌, Bool, true, false, Option, none, some, ◌≡◌, refl, ap}
use deviatdd.Prelude.Text.{Text}
use deviatdd.Micro.Task.{Task}
use deviatdd.Micro.Phases.{Phases, Reply, no_manifest, failed, succeeded}
use deviatdd.Micro.Action.{ok, State, phase_failed, ◌>>=◌}
use deviatdd.Micro.Green.{
  note_residue, after_suite, count_green, run_green, green_attempt, after_reply, after_commit,
  green_is_skipped,
}
use deviatdd.Micro.Logic.{
  Ends-ok, KeepsCounts, Counted, KeepsSession, update-KeepsCounts, push_event-KeepsCounts,
  session_of-KeepsCounts, pure-KeepsCounts, throw-KeepsCounts, if-KeepsCounts, Counted-keep,
  bind-KeepsCounts, Counted-then, Counted-bind, Counted-if,
}

-- The calls that leave the two counters alone, as every one does in the source: only the cycle and
-- the start of GREEN write them.
pub record KeepBudget {W : Type 0} (phases : Phases W) : Type 0 where
  pub recover_keeps : KeepsCounts phases.recover_boundary
  pub rollback_keeps : KeepsCounts phases.rollback_pre_red
  pub commit_keeps : (feedback : Text) → KeepsCounts (phases.commit_feedback feedback)
  pub reset_keeps : KeepsCounts phases.reset_env
  pub red_keeps : KeepsCounts phases.run_red
  pub judge_keeps : (no_refactor : Bool) → KeepsCounts (phases.run_judge no_refactor)
  pub entry_keeps : KeepsCounts phases.ensure_entry_sha
  pub invoke_keeps : KeepsCounts phases.invoke_green
  pub suite_keeps : KeepsCounts phases.run_suite
  pub kernel_keeps : KeepsCounts phases.post_kernel
  pub clean_keeps : KeepsCounts phases.clean_worktree
  pub bind_keeps : KeepsCounts phases.bind_boundary

module _ {W : Type 0} (phases : Phases W) (keep : KeepBudget phases) (task : Task) where
  open keep use {entry_keeps, invoke_keeps, suite_keeps, kernel_keeps, clean_keeps}

  note_residue-KeepsCounts : (error : Option Text) → KeepsCounts (note_residue phases task error)
  note_residue-KeepsCounts none = pure-KeepsCounts _ _ _
  note_residue-KeepsCounts (some error) = update-KeepsCounts _ _ λ s. (refl, refl)

  after_commit-KeepsCounts :
      (retry committed : Bool) → KeepsCounts (after_commit phases task retry committed)
  unfolding after_commit
  after_commit-KeepsCounts retry committed =
      if-KeepsCounts _ _ _ (throw-KeepsCounts _ _ _)
        (bind-KeepsCounts _ _ clean_keeps note_residue-KeepsCounts)

  after_suite-KeepsCounts :
      (retry : Bool) (output : Option Text) → KeepsCounts (after_suite phases task retry output)
  after_suite-KeepsCounts retry none =
      bind-KeepsCounts _ _ kernel_keeps (after_commit-KeepsCounts retry)
  after_suite-KeepsCounts retry (some text) = update-KeepsCounts _ _ λ s. (refl, refl)

  after_reply-KeepsCounts :
      (retry : Bool) (reply : Reply) → KeepsCounts (after_reply phases task retry reply)
  unfolding after_reply
  after_reply-KeepsCounts retry (no_manifest none) = throw-KeepsCounts _ _ _
  after_reply-KeepsCounts retry (no_manifest (some summary)) =
      bind-KeepsCounts _ _ (update-KeepsCounts _ _ λ s. (refl, refl))
        λ _. throw-KeepsCounts _ _ phase_failed
  after_reply-KeepsCounts retry (failed true rationale kind) =
      unfold KeepsCounts deviatdd.Micro.Logic.Ends in λ s. tt
  after_reply-KeepsCounts retry (failed false rationale kind) =
      if-KeepsCounts _ _ _ (throw-KeepsCounts _ _ _) (update-KeepsCounts _ _ λ s. (refl, refl))
  after_reply-KeepsCounts retry succeeded =
      bind-KeepsCounts _ _ (update-KeepsCounts _ _ λ s. (refl, refl))
        λ _. bind-KeepsCounts _ _ suite_keeps (after_suite-KeepsCounts retry)

  -- GREEN counts itself once when it runs, and otherwise only if it is skipped.
  pub run_green-Counted :
      (s : State W)
      → green_is_skipped phases task s ≡ false
      → Counted
          (λ g r. (g ≡ s.session.green_attempts + 1) × (r ≡ s.session.red_attempts))
          (run_green phases task s)
  unfolding run_green green_attempt
  run_green-Counted s h = rw h (
      Counted-bind (λ g r. (g ≡ s.session.green_attempts) × (r ≡ s.session.red_attempts)) _
        (phases.ensure_entry_sha s) _
        (Counted-keep (λ g r. (g ≡ s.session.green_attempts) × (r ≡ s.session.red_attempts)) _ s
          entry_keeps (refl, refl))
        λ _ t e.
          Counted-keep _ (phases.invoke_green >>= after_reply phases task _)
            (record t { session = count_green phases task t.session })
            (bind-KeepsCounts _ _ invoke_keeps (after_reply-KeepsCounts _))
            (ap (λ x. x + 1) e.0, e.1))

  -- If the phases, agents, Git steps and the suite that the cycle calls leave the two retry counters
  -- alone, a GREEN phase that is not skipped and returns has counted one attempt and no RED escalation,
  -- whatever the agent and the suite answered.
  pub run_green_lem :
      (s t : State W)
      → green_is_skipped phases task s ≡ false
      → run_green phases task s ≡ (ok tt, t)
      → (t.session.green_attempts ≡ s.session.green_attempts + 1)
        × (t.session.red_attempts ≡ s.session.red_attempts)
  unfolding Counted
  run_green_lem s t h returned =
      Ends-ok
        (λ _ u.
          (u.session.green_attempts ≡ s.session.green_attempts + 1)
          × (u.session.red_attempts ≡ s.session.red_attempts))
        _ tt t returned (run_green-Counted s h)
