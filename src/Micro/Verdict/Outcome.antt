-- ===== src/Micro/Verdict/Outcome.antt =====
-- `_apply_judge_verdict` of cli/micro/surface.py as a whole, and the round of the cycle after it.
use deviatdd.Prelude.{
  Bool, true, false, not, Option, none, some, List, ◌⊎◌, ◌≡◌, refl, ap, subst, ◌∙◌, arith,
  if◌then◌else◌, inl, inr,
}
use deviatdd.Prelude.Text.{Text}
use deviatdd.Micro.Task.{Task}
use deviatdd.Micro.Session.{
  Session, is_forward_route, is_green_test_failure, tdd_pre_green_decision, complete,
}
use deviatdd.Micro.Action.{
  State, Failure, phase_failed, hitl_escalation, Result, ok, raise, throw, continue, update,
}
use deviatdd.Micro.Logic.{Ends, Ends-ok, Ends-weaken}
use deviatdd.Ledger.Rows.{Line}
use deviatdd.Micro.Verdict.Rules.{Handover, Judging, judge_manifest_schema_errors, is_nil}
use deviatdd.Micro.Verdict.Settled.{Settled}
use deviatdd.Micro.Verdict.{
  decide, apply_judge_verdict, route, dump_when, escalate, after_repairs, repair, commit_first,
}
use deviatdd.Micro.Verdict.Decided.{refreshed, refreshed-Settled}
use deviatdd.Micro.Verdict.Honoured.{honoured}

module _ {W : Type 0} (judging : Judging W) (task : Task) where
  raised_after :
      {A : Type 0} (Q : A → State W → Type 0) (r : Result (Unit {0}) × State W) (e : Failure)
      → Ends Q (continue r (λ _. throw e))
  unfolding Ends
  raised_after Q (ok _, t) e = tt
  raised_after Q (raise f, t) e = tt

  -- The session once the repairs are committed: as it was, or, if there was something to commit and the
  -- suite was run again, with its output as feedback if it failed, and without an old failure of the
  -- suite if it passed.
  unfoldable pub IsRepaired : Session → Session → Type 0
  IsRepaired s u =
      (u ≡ s) ⊎ ((output : Option (Text × Text)) × (u ≡ after_repairs judging task output s))

  after_repairs-pending :
      (output : Option (Text × Text)) (s : Session)
      → (after_repairs judging task output s).pending_judge_action ≡ s.pending_judge_action
  after_repairs-pending (some output) s = refl
  after_repairs-pending none s = ground arith

  IsRepaired-pending :
      (s u : Session) → IsRepaired s u → u.pending_judge_action ≡ s.pending_judge_action
  unfolding IsRepaired
  IsRepaired-pending s u (inl same) = ap (λ x. x.pending_judge_action) same
  IsRepaired-pending s u (inr (output, e)) =
      ap (λ x. x.pending_judge_action) e ∙ after_repairs-pending output s

  -- `repairs_before` is given or not: what the action in front leaves of the session.
  abbrev FromRepairs : State W → {A : Type 0} → A → State W → Type 0
  FromRepairs s _ u = IsRepaired s.session u.session

  rerun_lem :
      (s : State W) (r : Result (Option (Text × Text)) × (List Line × W))
      → Ends (FromRepairs s) (
          continue
            (r.0, record s { ledger = r.1.0; world = r.1.1 })
            (λ output. update (after_repairs judging task output)))
  unfolding Ends IsRepaired
  rerun_lem s (ok output, (ledger, w)) = inr (output, refl)
  rerun_lem s (raise e, (ledger, w)) = tt

  repair_lem :
      (s : State W) (r : Result (Option Bool) × (List Line × W))
      → Ends
          (FromRepairs s)
          (continue (r.0, record s { ledger = r.1.0; world = r.1.1 }) (repair judging task))
  unfolding Ends IsRepaired
  repair_lem s (ok none, (ledger, w)) = tt
  repair_lem s (ok (some false), (ledger, w)) = inl refl
  repair_lem s (ok (some true), (ledger, w)) =
      rerun_lem (record s { ledger = ledger; world = w }) (judging.run_suite ledger w)
  repair_lem s (raise e, (ledger, w)) = tt

  commit_first-IsRepaired :
      (repairs : Bool) (s : State W) → Ends (FromRepairs s) (commit_first judging task repairs s)
  commit_first-IsRepaired false s = unfold Ends IsRepaired in inl refl
  commit_first-IsRepaired true s = repair_lem s (judging.commit_repairs s.ledger s.world)

  -- The session `t` after a verdict, by that of `u`, the state once the repairs are committed.
  unfoldable pub SettledFrom : Bool → State W → State W → Type 0
  unfolding IsRepaired is_green_test_failure
  SettledFrom repairs s t =
      (u : State W) × (commit_first judging task repairs s ≡ (ok tt, u))
      × IsRepaired s.session u.session
      × Settled task.id s.session.pending_judge_action (is_green_test_failure u.session)
          (dump_when (is_green_test_failure u.session) u.session) t.session

  abbrev From : Bool → State W → {A : Type 0} → A → State W → Type 0
  From repairs s _ t = SettledFrom repairs s t

  escalate-From :
      (m : Handover) (repairs : Bool) (s : State W)
      → Ends (From repairs s) (escalate judging task m s)
  escalate-From m repairs s = raised_after _ _ hitl_escalation

  decided :
      (m : Handover) (no_refactor repairs : Bool) (s : State W) (r : Result (Unit {0}) × State W)
      → commit_first judging task repairs s ≡ r
      → Ends (FromRepairs s) r
      → Ends
          (From repairs s)
          (continue r (λ _ u. decide judging task m no_refactor (refreshed judging task u)))
  unfolding Ends
  decided m no_refactor repairs s (raise e, u) first repaired = tt
  decided m no_refactor repairs s (ok _, u) first repaired =
      Ends-weaken _ (From repairs s) (decide judging task m no_refactor (refreshed judging task u))
        (refreshed-Settled judging task m no_refactor u)
        (λ _ t settled.
          unfold SettledFrom in
          (
            u,
            first,
            repaired,
            subst
                (λ b.
                  Settled task.id b (is_green_test_failure u.session)
                    (dump_when (is_green_test_failure u.session) u.session) t.session)
                (IsRepaired-pending s.session u.session repaired) settled,
          ))

  apply-Settled :
      (m : Handover) (no_refactor repairs : Bool) (s : State W)
      → Ends (From repairs s) (apply_judge_verdict judging task m no_refactor repairs s)
  unfolding apply_judge_verdict
  apply-Settled m no_refactor repairs s =
      by_case m.is_hitl (not (is_nil (judge_manifest_schema_errors m)))
    where
      by_case :
          (hitl invalid : Bool)
          → Ends (From repairs s) (
              (if hitl
                  then escalate judging task m
                  else if invalid
                  then throw phase_failed
                  else (λ s.
                      continue
                        (commit_first judging task repairs s)
                        (λ _ u. decide judging task m no_refactor (refreshed judging task u))))
                s)
      by_case true invalid = escalate-From m repairs s
      by_case false true = unfold Ends in tt
      by_case false false =
          decided m no_refactor repairs s (commit_first judging task repairs s) refl
            (commit_first-IsRepaired repairs s)

  -- A verdict whose application returns has first committed the repairs of JUDGE, if it was given what
  -- they were before: this leaves the session as it was, or, if there were any and the suite was run
  -- again, with its output as feedback if it failed, and without an old failure of the suite if it
  -- passed. From there the session is left in one of five ways: sent back to RED without a RED commit,
  -- or sent back to GREEN, each marked as rejected; training GREEN on the output of the suite, if that
  -- is red; or, only if the suite is not red, on a forward route that is bound to this task and this RED
  -- commit, or passed with the pending action of before. In the last three the session is not rejected.
  pub apply_judge_verdict-Settled :
      (m : Handover) (no_refactor repairs : Bool) (s t : State W)
      → apply_judge_verdict judging task m no_refactor repairs s ≡ (ok tt, t)
      → SettledFrom repairs s t
  apply_judge_verdict-Settled m no_refactor repairs s t returned =
      Ends-ok _ _ tt t returned (apply-Settled m no_refactor repairs s)

  -- If no forward route was pending and the application of a verdict that returns has set one, then
  -- the suite was not red once the repairs of JUDGE were committed, if it was given what they were
  -- before, and the next round of the cycle completes instead of dropping the route as stale.
  pub apply_judge_verdict-completes :
      (m : Handover) (no_refactor repairs : Bool) (s t : State W)
      → apply_judge_verdict judging task m no_refactor repairs s ≡ (ok tt, t)
      → is_forward_route s.session.pending_judge_action ≡ false
      → is_forward_route t.session.pending_judge_action ≡ true
      → (u : State W) × (commit_first judging task repairs s ≡ (ok tt, u))
        × (is_green_test_failure u.session ≡ false)
        × ((tdd_pre_green_decision task.id t.session).0 ≡ complete)
  unfolding SettledFrom
  apply_judge_verdict-completes m no_refactor repairs s t returned unset route =
      let (u, first, repaired, settled) =
        apply_judge_verdict-Settled m no_refactor repairs s t returned in
      let found = honoured task _ _ _ t.session unset route settled in (u, first, found.0, found.1)
