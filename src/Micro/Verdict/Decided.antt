-- ===== src/Micro/Verdict/Decided.antt =====
-- The ruling of `_apply_judge_verdict` after the commits are remapped: where it leaves the session.
use deviatdd.Prelude.{
  String, Bool, true, false, Option, none, some, [], ◌≡◌, refl, ap, subst, ◌∙◌, arith,
  if◌then◌else◌,
}
use deviatdd.Prelude.Text.{Text}
use deviatdd.Judge.Policy.{is_revert_action}
use deviatdd.Micro.Task.{Task}
use deviatdd.Micro.Session.{Session, is_green_test_failure}
use deviatdd.Micro.Action.{State, Result}
use deviatdd.Micro.Logic.{Ends}
use deviatdd.Micro.Boundary.Git.{Git}
use deviatdd.Micro.Boundary.Anchor.{refresh_red, refresh_judge, refresh_session_commit_anchors}
use deviatdd.Micro.Verdict.Rules.{Handover, Judging, rule}
use deviatdd.Micro.Verdict.Settled.{Settled, trained, reject-Settled}
use deviatdd.Micro.Verdict.Applied.{pass-Settled}
use deviatdd.Judge.Advisory.{extract_refactor_note}
use deviatdd.Micro.Verdict.{default_route, reject, accept, decide, route, record_ruling, dump_when}

-- The remapping of the commits leaves what the verdict reads.
abbrev SameReads : Session → Session → Type 0
SameReads s t =
    (t.pending_judge_action ≡ s.pending_judge_action)
    × (t.train_feedback ≡ s.train_feedback)
    × (t.failure_kind ≡ s.failure_kind)

module _ (git : Git) where
  refresh_red-reads : (s : Session) → SameReads s (refresh_red git s).1
  unfolding refresh_red
  refresh_red-reads s = ground arith

  refresh_judge-reads : (r : Bool × Session) → SameReads r.1 (refresh_judge git r).1
  unfolding refresh_judge
  refresh_judge-reads (changed, s) = ground arith

  refresh-reads : (s : Session) → SameReads s (refresh_session_commit_anchors git s).1
  unfolding refresh_session_commit_anchors
  refresh-reads s =
      let r = refresh_red git s in
      let p = refresh_red-reads s in
      let q = refresh_judge-reads r in (q.0 ∙ p.0, q.1 ∙ p.1, q.2 ∙ p.2)

module _ {W : Type 0} (judging : Judging W) (task : Task) where
  abbrev pub Good : String → Bool → Text → {A : Type 0} → A → State W → Type 0
  Good before red dump _ t = Settled task.id before red dump t.session

  accept-Settled :
      (m : Handover) (no_refactor red : Bool) (dump : Text) (action : Option String) (s : State W)
      → Ends
          (Good s.session.pending_judge_action red dump)
          (accept judging task m no_refactor red dump action s)
  unfolding accept
  accept-Settled m no_refactor true dump action s =
      unfold Ends in trained _ refl refl refl refl refl
  accept-Settled m no_refactor false dump action s =
      pass-Settled judging task s.session.pending_judge_action false dump
        (extract_refactor_note m.policy.train_feedback)
        (default_route judging task m no_refactor false action) s refl refl

  route-Settled :
      (m : Handover) (no_refactor red : Bool) (dump : Text) (action : Option String)
      (feedback : Text) (s : State W)
      → Ends
          (Good s.session.pending_judge_action red dump)
          (route judging task m no_refactor red dump action feedback s)
  route-Settled m no_refactor red dump none feedback s =
      accept-Settled m no_refactor red dump none s
  route-Settled m no_refactor red dump (some a) feedback s = by_kind (is_revert_action a)
    where
      by_kind :
          (reverts : Bool)
          → Ends (Good s.session.pending_judge_action red dump) (
              (if reverts
                  then reject judging task a feedback
                  else accept judging task m no_refactor red dump (some a))
                s)
      by_kind true =
          reject-Settled judging task s.session.pending_judge_action red dump a feedback s
      by_kind false = accept-Settled m no_refactor red dump (some a) s

  decide-Settled :
      (m : Handover) (no_refactor : Bool) (s : State W)
      → Ends
          (Good s.session.pending_judge_action
            (is_green_test_failure s.session)
            (dump_when (is_green_test_failure s.session) s.session))
          (decide judging task m no_refactor s)
  unfolding decide
  decide-Settled m no_refactor s =
      let ruling = rule judging task m s in
      route-Settled m no_refactor _ _ ruling.action ruling.feedback
        (record s { session = record_ruling judging task m ruling s.session })

  abbrev pub refreshed : State W → State W
  refreshed s = record s {
    session = (refresh_session_commit_anchors (judging.git_of s.world) s.session).1;
  }

  reads_suite : (s t : Session) → SameReads s t → is_green_test_failure t ≡ is_green_test_failure s
  unfolding is_green_test_failure
  reads_suite s t (pending, feedback, kind) = rw (feedback, kind) refl

  transfer :
      (r : Result (Unit {0}) × State W) (b c : String) (red blue : Bool) (dump text : Text)
      → b ≡ c
      → red ≡ blue
      → dump ≡ text
      → Ends (Good b red dump) r
      → Ends (Good c blue text) r
  transfer r b c red blue dump text p q e settled =
      subst (λ x. Ends (Good x blue text) r) p
        (subst (λ x. Ends (Good b x text) r) q (subst (λ x. Ends (Good b red x) r) e settled))

  pub refreshed-Settled :
      (m : Handover) (no_refactor : Bool) (s : State W)
      → Ends
          (Good s.session.pending_judge_action
            (is_green_test_failure s.session)
            (dump_when (is_green_test_failure s.session) s.session))
          (decide judging task m no_refactor (refreshed s))
  refreshed-Settled m no_refactor s =
      let u = refreshed s in
      let same = refresh-reads (judging.git_of s.world) s.session in
      let suite = reads_suite s.session u.session same in
      transfer _ _ _ _ _ _ _ same.0 suite
        (ap (λ b. dump_when b u.session) suite
          ∙ ap (λ (t : Text). if is_green_test_failure s.session then t else []) same.1)
        (decide-Settled m no_refactor u)
