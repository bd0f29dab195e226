-- ===== src/Micro/Verdict/Honoured.antt =====
-- The round of the cycle after a verdict: a forward route that it has set is not stale.
use deviatdd.Prelude.{
  String, Bool, true, false, not, ◌&&◌, [], ◌∷◌, str_eq, ◌≡◌, refl, sym, ap, subst, ◌∙◌, arith,
  if◌then◌else◌, true_or_false, str_eq_refl, str_eq→eq, Bool-cases, inl, inr,
}
use deviatdd.Prelude.Text.{Text, strip, lstrip, rstrip, is_empty, text_eq, text_eq_refl}
use deviatdd.Micro.Task.{Task}
use deviatdd.Micro.Session.{
  Session, is_forward_route, tdd_pre_green_decision, complete, invalidate_stale_forward_route,
  forward_route_is_stale, has_red_commit_boundary, clear_stale_forward_route, route_decision,
  boundary_decision, Decision,
}
use deviatdd.Micro.Verdict.Settled.{Settled, to_red, to_green, trained, forwarded, passed}
use deviatdd.Micro.Verdict.{route}

module _ (task : Task) where
  strip-empty : strip [] ≡ []
  unfolding strip lstrip rstrip
  strip-empty = refl

  is_empty→eq : (s : Text) → is_empty s ≡ true → s ≡ []
  is_empty→eq [] e = refl
  is_empty→eq (c ∷ s) e = cc

  never_stale :
      (route id own sha_known same no_id no_sha bound : Bool)
      → route ≡ true
      → own ≡ true
      → same ≡ true
      → (no_sha ≡ true → bound ≡ false)
      → (if not route
          then false
          else if not id && not own
          then true
          else if not sha_known && not same
          then true
          else if no_id && no_sha
          then bound
          else false)
        ≡ false
  never_stale true id true sha_known true no_id true bound p q r h = ground (arith, h refl)
  never_stale true id true sha_known true no_id false bound p q r h = ground arith
  never_stale true id true sha_known false no_id no_sha bound p q r h = cc
  never_stale true id false sha_known same no_id no_sha bound p q r h = cc
  never_stale false id own sha_known same no_id no_sha bound p q r h = cc

  fresh_own :
      (s : Session)
      → is_forward_route s.pending_judge_action ≡ true
      → str_eq s.judge_task_id s.judge_task_id ≡ true
      → text_eq s.judge_red_commit_sha s.red_commit_sha ≡ true
      → (is_empty s.judge_red_commit_sha ≡ true → is_empty (strip s.red_commit_sha) ≡ true)
      → forward_route_is_stale s.judge_task_id s ≡ false
  unfolding forward_route_is_stale has_red_commit_boundary
  fresh_own s route own sha blank =
      never_stale _ _ _ _ _ _ _ _ route own sha (λ e. ap not (blank e))

  fresh :
      (task_id : String) (s : Session)
      → is_forward_route s.pending_judge_action ≡ true
      → s.judge_task_id ≡ task_id
      → s.judge_red_commit_sha ≡ s.red_commit_sha
      → forward_route_is_stale task_id s ≡ false
  fresh task_id s route own sha =
      subst (λ id. forward_route_is_stale id s ≡ false) own
        (fresh_own s route (str_eq_refl s.judge_task_id)
          (subst (λ red. text_eq s.judge_red_commit_sha red ≡ true) sha
            (text_eq_refl s.judge_red_commit_sha))
          (λ e.
            ap is_empty (ap strip (sym sha ∙ is_empty→eq s.judge_red_commit_sha e) ∙ strip-empty)))

  revert_apart : (a : String) → is_forward_route a ≡ true → str_eq a "revert_red" ≡ false
  revert_apart a route = elim (Bool-cases (str_eq a "revert_red")) [
    | inl same ↦ true_or_false route (ap is_forward_route (str_eq→eq a "revert_red" same))
    | inr apart ↦ apart
  ]

  not_escalated :
      (s : Session) (a b c : Bool)
      → a ≡ false
      → b ≡ true
      → c ≡ false
      → (if a
          then (Decision.escalate, s)
          else if b
          then route_decision (if c then (true, clear_stale_forward_route s) else (false, s))
          else boundary_decision s).0
        ≡ complete
  not_escalated s true b c p q r = cc
  not_escalated s false false c p q r = cc
  not_escalated s false true true p q r = cc
  not_escalated s false true false p q r = refl

  completes :
      (task_id : String) (s : Session)
      → is_forward_route s.pending_judge_action ≡ true
      → forward_route_is_stale task_id s ≡ false
      → (tdd_pre_green_decision task_id s).0 ≡ complete
  unfolding tdd_pre_green_decision invalidate_stale_forward_route
  completes task_id s route fresh =
      not_escalated s (str_eq s.pending_judge_action "revert_red")
        (is_forward_route s.pending_judge_action) (forward_route_is_stale task_id s)
        (revert_apart s.pending_judge_action route) route fresh

  pub honoured :
      (before : String) (red : Bool) (dump : Text) (s : Session)
      → is_forward_route before ≡ false
      → is_forward_route s.pending_judge_action ≡ true
      → Settled task.id before red dump s
      → (red ≡ false) × ((tdd_pre_green_decision task.id s).0 ≡ complete)
  honoured before red dump s unset route (to_red _ pending _ _ _) =
      true_or_false route (ap is_forward_route pending)
  honoured before red dump s unset route (to_green _ pending _ _) =
      true_or_false route (ap is_forward_route pending)
  honoured before red dump s unset route (trained _ _ pending _ _ _) =
      true_or_false route (ap is_forward_route pending)
  honoured before red dump s unset route (passed _ _ pending _ _) =
      true_or_false route (ap is_forward_route pending ∙ unset)
  honoured before red dump s unset route (forwarded _ green _ _ own sha) =
      (green, completes task.id s route (fresh task.id s route own sha))
