-- ===== src/Micro/Session/Routes.antt =====
-- Which route the runner takes before GREEN, and when a JUDGE route of another task is dropped.
use deviatdd.Prelude.{
  String, true, false, not, ◌&&◌, ◌||◌, ◌≡◌, refl, arith, str_eq, inl, inr, Bool-cases, if-cases,
  [], ◌∷◌,
}
use deviatdd.Prelude.Text.{Text, is_empty, strip, text_eq_refl}
use deviatdd.Micro.Session.{
  Session, Decision, escalate, complete, green, is_forward_route, has_red_commit_boundary,
  forward_route_is_stale, clear_stale_forward_route, invalidate_stale_forward_route,
  tdd_pre_green_decision, bind_judge_forward_route, boundary_decision, route_decision,
}

-- What each answer of `_tdd_pre_green_decision` rests on; `s'` is the session that it leaves.
unfoldable pub Justified : String → Session → Decision × Session → Type 0
Justified task_id s (complete, s') =
    (is_forward_route s.pending_judge_action ≡ true)
    × (forward_route_is_stale task_id s ≡ false)
    × (s' ≡ s)
Justified task_id s (green, s') =
    (has_red_commit_boundary s' ≡ true)
    × (is_forward_route s'.pending_judge_action ≡ false)
    × (str_eq s'.pending_judge_action "revert_red" ≡ false)
Justified task_id s (escalate, s') =
    (str_eq s'.pending_judge_action "revert_red" || not (has_red_commit_boundary s')) ≡ true

no_boundary : (sha : Text) → is_empty sha ≡ true → is_empty (strip sha) ≡ true
unfolding strip
no_boundary [] h = refl
no_boundary (c ∷ sha) h = cc

module _ (task_id : String) (s : Session) where
  boundary-Justified :
      (t : Session)
      → is_forward_route t.pending_judge_action ≡ false
      → str_eq t.pending_judge_action "revert_red" ≡ false
      → Justified task_id s (boundary_decision t)
  unfolding Justified
  boundary-Justified t h k = elim (Bool-cases (has_red_commit_boundary t)) [
    | inl b ↦ rw b (b, h, k)
    | inr b ↦ rw b (ground arith)
  ]

  route-Justified :
      is_forward_route s.pending_judge_action ≡ true
      → Justified task_id s (route_decision (invalidate_stale_forward_route task_id s))
  unfolding Justified invalidate_stale_forward_route clear_stale_forward_route
  route-Justified h = elim (Bool-cases (forward_route_is_stale task_id s)) [
    | inl b ↦ rw b (boundary-Justified (clear_stale_forward_route s) refl refl)
    | inr b ↦ rw b (h, b, refl)
  ]

  -- `complete` is the answer only for a forward route that is not stale, and nothing is changed then;
  -- GREEN is entered only with a RED commit, and with no forward route and no `revert_red` pending;
  -- a new RED only if `revert_red` is pending or there is no RED commit.
  pub tdd_pre_green_decision-Justified : Justified task_id s (tdd_pre_green_decision task_id s)
  unfolding Justified tdd_pre_green_decision
  tdd_pre_green_decision-Justified =
      if-cases (Justified task_id s) (str_eq s.pending_judge_action "revert_red") (escalate, s) _
        (λ r. ground arith)
        λ r.
          if-cases (Justified task_id s) (is_forward_route s.pending_judge_action) _ _
            (λ f. route-Justified f) λ f. boundary-Justified s f r

  -- A JUDGE route that was bound for one task and is read for another is stale exactly if it is a
  -- forward route, the first id is not empty and the ids differ; for its own task, under the RED
  -- commit that it was bound with, it never is.
  pub forward_route_is_stale-bind_judge_forward_route :
      (other : String)
      → forward_route_is_stale other (bind_judge_forward_route task_id s) ≡ (
          is_forward_route s.pending_judge_action
          && (not (str_eq task_id "") && not (str_eq task_id other)))
  unfolding forward_route_is_stale bind_judge_forward_route has_red_commit_boundary
  forward_route_is_stale-bind_judge_forward_route other =
      ground (arith, text_eq_refl s.red_commit_sha, no_boundary s.red_commit_sha)
