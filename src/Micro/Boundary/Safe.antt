-- ===== src/Micro/Boundary/Safe.antt =====
-- A rollback of cli/micro/surface.py resets only to commits of the branch, and not to another task's.
use deviatdd.Prelude.{
  &&-true, ℕ, zero, suc, Bool, true, false, not, ◌&&◌, ◌||◌, Option, none, some, List, [], ◌∷◌, All,
  String, ◌≡◌, refl, sym, ap, subst, ◌∙◌, arith, inl, inr, Bool-cases, if-cases, if◌then◌else◌,
  some_inj,
}
use deviatdd.Prelude.Text.{Text, strip, is_empty, strip-strip, text_eq, text_eq→eq}
use deviatdd.Ledger.Rows.{Row}
use deviatdd.Micro.Session.{Session}
use deviatdd.Micro.Boundary.Git.{
  Git, head, git_parent_sha, git_full_sha, is_ancestor, is_red_subject, base_walk,
  resolve_judge_diff_base, walk_fuel, or_start,
}
use deviatdd.Micro.Boundary.Anchor.{
  Anchor, current, rewritten, already_reverted, missing, or_else, first_commit,
  resolve_rewritten_sha, red_anchor_kind, refresh_red, refresh_judge,
  refresh_session_commit_anchors, resolve_pre_red_sha,
}
use deviatdd.Micro.Boundary.Bind.{bind_session_red_boundary}
use deviatdd.Micro.Boundary.Revert.{
  Answer, Refusal, reset_to, refuse, revert_red_to, resolve_revert_red_boundary, green_anchor,
  revert_green_to, require_revert_green_boundary,
}

-- What Git documents: a name and the object that it names are the same commit, HEAD is on its own branch
-- with the commits of its log, and so is the parent of a commit of the branch.
pub record GitLaws (git : Git) : Type 0 where
  pub same_commit :
      (sha : Text)
      → is_empty (git_full_sha git sha) ≡ false
      → is_ancestor git (git_full_sha git sha) head ≡ is_ancestor git sha head
  pub head_on_branch :
      is_empty (git_full_sha git head) ≡ false → is_ancestor git (git_full_sha git head) head ≡ true
  pub train_on_branch : All (λ row. is_ancestor git row.0 head ≡ true) git.train
  pub parent_on_branch :
      (sha : Text)
      → is_ancestor git sha head ≡ true
      → is_empty (git_parent_sha git sha) ≡ false
      → is_ancestor git (git_parent_sha git sha) head ≡ true

module _ (git : Git) where
  abbrev OnBranch : Text → Type 0
  OnBranch sha = is_ancestor git sha head ≡ true

  -- A commit to reset to, if there is one, is on the branch.
  abbrev SafeTo : Text → Type 0
  SafeTo sha = is_empty sha ≡ false → OnBranch sha

  is_ancestor-strip : (sha : Text) → is_ancestor git (strip sha) head ≡ is_ancestor git sha head
  unfolding is_ancestor
  is_ancestor-strip sha = rw (strip-strip sha) refl

  or_else-OnBranch : (a b : Text) → SafeTo a → OnBranch b → OnBranch (or_else a b)
  or_else-OnBranch [] b ha hb = hb
  or_else-OnBranch (c ∷ a) b ha hb = ha refl

  first_commit-SafeTo :
      (p : Text → Bool) (rows : List (Text × Text))
      → All (λ row. is_ancestor git row.0 head ≡ true) rows
      → SafeTo (first_commit p rows)
  unfolding first_commit
  first_commit-SafeTo p [] on = λ h. cc
  first_commit-SafeTo p ((sha, subject) ∷ rows) (here, on) =
      if-cases SafeTo (p subject) sha (first_commit p rows) (λ _ _. here)
        (λ _. first_commit-SafeTo p rows on)

  module _ (laws : GitLaws git) where
    full-SafeTo : (sha : Text) → OnBranch sha → SafeTo (git_full_sha git sha)
    full-SafeTo sha on h = laws.same_commit sha h ∙ on

    resolve_rewritten_sha-SafeTo : (sha : Text) → SafeTo (resolve_rewritten_sha git sha)
    unfolding resolve_rewritten_sha
    resolve_rewritten_sha-SafeTo sha =
        if-cases SafeTo (is_empty (strip sha)) [] _ (λ _ h. cc)
          λ _.
            if-cases SafeTo (is_ancestor git full head) (or_else (git_full_sha git full) full) _
              (λ on _. or_else-OnBranch (git_full_sha git full) full (full-SafeTo full on) on)
              λ _.
                if-cases SafeTo _ (first_commit _ git.train) (first_commit is_red_subject git.train)
                  (λ _. first_commit-SafeTo _ git.train laws.train_on_branch)
                  (λ _. first_commit-SafeTo _ git.train laws.train_on_branch)
      where
        full : Text
        full = or_else (git_full_sha git (strip sha)) (strip sha)

    base_walk-OnBranch :
        (fuel : ℕ) (seen : List Text) (start sha found : Text)
        → OnBranch start
        → OnBranch sha
        → base_walk git fuel seen start sha ≡ some found
        → OnBranch found
    unfolding base_walk
    base_walk-OnBranch zero seen start sha found from on h = cc
    base_walk-OnBranch (suc fuel) seen start sha found from on h = ground (
      arith,
      laws.parent_on_branch sha on,
      base_walk-OnBranch fuel (sha ∷ seen) start (git_parent_sha git sha) found,
    )

    or_start-OnBranch :
        (start : Text) (o : Option Text)
        → OnBranch start
        → ((found : Text) → o ≡ some found → OnBranch found)
        → OnBranch (or_start git start o)
    or_start-OnBranch start none from on = from
    or_start-OnBranch start (some sha) from on = on sha refl

    diff_base-OnBranch : (sha : Text) → OnBranch sha → OnBranch (resolve_judge_diff_base git sha)
    unfolding resolve_judge_diff_base
    diff_base-OnBranch sha on =
        let from = is_ancestor-strip sha ∙ on in
        or_start-OnBranch (strip sha) _ from
          (λ found. base_walk-OnBranch (walk_fuel git) [] (strip sha) (strip sha) found from from)

    resolve_pre_red_sha-SafeTo : (sha : Text) → OnBranch sha → SafeTo (resolve_pre_red_sha git sha)
    unfolding resolve_pre_red_sha
    resolve_pre_red_sha-SafeTo sha on =
        if-cases SafeTo (is_empty (strip sha)) [] _ (λ _ h. cc)
          λ _. laws.parent_on_branch _ (diff_base-OnBranch (strip sha) (is_ancestor-strip sha ∙ on))

    OnBranch-nonempty : (sha : Text) → OnBranch sha → is_empty sha ≡ false
    unfolding is_ancestor
    OnBranch-nonempty [] on =
        unfold strip deviatdd.Prelude.Text.lstrip deviatdd.Prelude.Text.rstrip in cc
    OnBranch-nonempty (c ∷ sha) on = refl

    rewritten-nonempty :
        (sha : Text) → OnBranch (resolve_rewritten_sha git sha) → is_empty (strip sha) ≡ false
    unfolding resolve_rewritten_sha
    rewritten-nonempty sha on = ground (arith, OnBranch-nonempty [])

    unmoved-OnBranch :
        (old resolved : Text)
        → OnBranch resolved
        → is_empty old ≡ false
        → not (is_empty old) && (not (is_empty resolved) && not (text_eq resolved old)) ≡ false
        → OnBranch old
    unmoved-OnBranch old resolved on e h =
        subst OnBranch (text_eq→eq resolved old (ground (arith, OnBranch-nonempty resolved on))) on

    abbrev RedOnBranch : Bool × Session → Type 0
    RedOnBranch r = OnBranch (strip r.1.red_commit_sha)

    refresh_judge-RedOnBranch :
        (r : Bool × Session) → RedOnBranch r → RedOnBranch (refresh_judge git r)
    unfolding refresh_judge
    refresh_judge-RedOnBranch (changed, s) on =
        if-cases RedOnBranch _ (true, record s { judge_red_commit_sha = _ }) (changed, s) (λ _. on)
          (λ _. on)

    -- The session's commit after a remapping to a commit of the branch.
    refresh_red-RedOnBranch :
        (s : Session)
        → OnBranch (resolve_rewritten_sha git (strip s.red_commit_sha))
        → RedOnBranch (refresh_red git s)
    unfolding refresh_red
    refresh_red-RedOnBranch s on =
        if-cases RedOnBranch _ (true, _) (false, s)
          (λ _. is_ancestor-strip (resolve_rewritten_sha git (strip s.red_commit_sha)) ∙ on)
          λ h.
            unmoved-OnBranch (strip s.red_commit_sha) _ on
              (sym (ap is_empty (strip-strip s.red_commit_sha))
                ∙ rewritten-nonempty (strip s.red_commit_sha) on)
              h

    red_anchor_kind-current :
        (sha : Text) → red_anchor_kind git sha ≡ current → OnBranch (strip sha)
    unfolding red_anchor_kind
    red_anchor_kind-current sha h = ground (arith, laws.same_commit (strip sha))

    red_anchor_kind-rewritten :
        (sha : Text)
        → red_anchor_kind git sha ≡ rewritten
        → OnBranch (resolve_rewritten_sha git (strip sha))
    unfolding red_anchor_kind
    red_anchor_kind-rewritten sha h = ground arith

    refresh-OnBranch :
        (s : Session)
        → red_anchor_kind git (strip s.red_commit_sha) ≡ rewritten
        → OnBranch (strip (refresh_session_commit_anchors git s).1.red_commit_sha)
    unfolding refresh_session_commit_anchors
    refresh-OnBranch s h = refresh_judge-RedOnBranch (refresh_red git s) (
        refresh_red-RedOnBranch s (
          subst (λ sha. OnBranch (resolve_rewritten_sha git sha)) (strip-strip s.red_commit_sha)
            (red_anchor_kind-rewritten (strip s.red_commit_sha) h)))

    module _ (ledgers : List Row) where
      revert_red_to-SafeTo :
          (kind : Anchor) (s : Session)
          → red_anchor_kind git (strip s.red_commit_sha) ≡ kind
          → SafeTo (revert_red_to git ledgers kind s).0
      unfolding revert_red_to
      revert_red_to-SafeTo rewritten s h = resolve_pre_red_sha-SafeTo _ (refresh-OnBranch s h)
      revert_red_to-SafeTo already_reverted s h = laws.head_on_branch
      revert_red_to-SafeTo current s h =
          resolve_pre_red_sha-SafeTo _
            (sym (is_ancestor-strip (strip s.red_commit_sha)) ∙ red_anchor_kind-current _ h)
      revert_red_to-SafeTo missing s h =
          if-cases (λ (r : Text × Session). SafeTo r.0) (is_empty (strip s.red_commit_sha)) ([], s)
            (_, s) (λ _ e. cc)
            λ _.
              if-cases SafeTo _ (resolve_pre_red_sha git (strip s.red_commit_sha))
                (git_full_sha git head) (λ on _. (&&-true _ _ on).1) (λ _. laws.head_on_branch)

      -- `_resolve_revert_red_boundary` gives no commit, or a commit of the current branch.
      pub resolve_revert_red_boundary-OnBranch :
          (task_id : String) (s : Session)
          → is_empty (resolve_revert_red_boundary git ledgers task_id s).0 ≡ false
          → is_ancestor git (resolve_revert_red_boundary git ledgers task_id s).0 head ≡ true
      unfolding resolve_revert_red_boundary
      resolve_revert_red_boundary-OnBranch task_id s = revert_red_to-SafeTo _ _ refl

      or_full-OnBranch : (sha : Text) → OnBranch sha → OnBranch (or_else (git_full_sha git sha) sha)
      or_full-OnBranch sha on = or_else-OnBranch (git_full_sha git sha) sha (full-SafeTo sha on) on

      green_anchor-OnBranch :
          (kind : Anchor) (sha found : Text)
          → green_anchor git ledgers kind sha ≡ reset_to found
          → OnBranch found
      unfolding green_anchor
      green_anchor-OnBranch kind sha found h =
          ground (arith, or_full-OnBranch sha, laws.head_on_branch)

      revert_green_to-OnBranch :
          (kind : Anchor) (s : Session) (found : Text)
          → (revert_green_to git ledgers kind s).0 ≡ reset_to found
          → OnBranch found
      unfolding revert_green_to
      revert_green_to-OnBranch rewritten s found h = green_anchor-OnBranch _ _ found h
      revert_green_to-OnBranch current s found h =
          green_anchor-OnBranch current (strip s.red_commit_sha) found h
      revert_green_to-OnBranch already_reverted s found h =
          green_anchor-OnBranch already_reverted (strip s.red_commit_sha) found h
      revert_green_to-OnBranch missing s found h =
          green_anchor-OnBranch missing (strip s.red_commit_sha) found h

      after_refusal :
          (why : Refusal) (b : Bool) (u after : Session) (r : Answer × Session) (found : Text)
          → (if b then (refuse why, u) else r) ≡ (reset_to found, after)
          → r.0 ≡ reset_to found
      after_refusal why true u after r found h = cc
      after_refusal why false u after r found h = ap (λ (a : Answer × Session). a.0) h

      -- A commit that `_require_revert_green_boundary` returns is on the current branch; in all other
      -- cases it raises.
      pub require_revert_green_boundary-OnBranch :
          (task_id : String) (sha : Text) (s after : Session)
          → require_revert_green_boundary git ledgers task_id s ≡ (reset_to sha, after)
          → is_ancestor git sha head ≡ true
      unfolding require_revert_green_boundary
      require_revert_green_boundary-OnBranch task_id sha s after h =
          let bound = (bind_session_red_boundary git ledgers task_id s).1 in
          let kind = red_anchor_kind git (strip bound.red_commit_sha) in
          revert_green_to-OnBranch kind bound sha
            (after_refusal _ _ bound after (revert_green_to git ledgers kind bound) sha h)
