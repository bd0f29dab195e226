-- ===== src/Micro/Boundary/Own.antt =====
-- The binding of the RED boundary to a task in cli/micro/surface.py, and what else it may change.
use deviatdd.Prelude.{
  Bool, true, false, not, ◌&&◌, ◌||◌, List, [], ◌∷◌, String, ◌≡◌, refl, sym, ap, ◌∙◌, arith,
  if-cases, if◌then◌else◌, select,
}
use deviatdd.Prelude.Text.{Text, codes, strip, is_empty, strip-strip, contains}
use deviatdd.Ledger.Rows.{Row}
use deviatdd.Micro.Session.{Session, invalidate_stale_forward_route, clear_stale_forward_route}
use deviatdd.Micro.Logic.{KeepsSession}
use deviatdd.Micro.Boundary.Git.{Git, head, is_ancestor}
use deviatdd.Micro.Boundary.Anchor.{
  or_else, resolve_rewritten_sha, refresh_red, refresh_judge, refresh_session_commit_anchors,
}
use deviatdd.Micro.Boundary.Bind.{
  Recovery, recovered, no_red_state, ambiguous, no_red_commit, red_boundary_belongs_to_task,
  is_foreign_on_branch_boundary, adopt, adopt_candidate, recover_from_ledger, adopt_only,
  is_red_like, recover_red_commit_boundary, keep_own, bind_session_red_boundary,
}
use deviatdd.Micro.Boundary.Revert.{ensure_green_entry_red_sha}

module _ (git : Git) where
  belongs-strip :
      (sha : Text) (task_id : String)
      → red_boundary_belongs_to_task git (strip sha) task_id
        ≡ red_boundary_belongs_to_task git sha task_id
  unfolding red_boundary_belongs_to_task
  belongs-strip sha task_id = rw (strip-strip sha) refl

  -- What the session holds and what is returned, after the boundary has been bound.
  abbrev IsOwn : String → Text × Session → Type 0
  IsOwn task_id r =
      (r.0 ≡ strip r.1.red_commit_sha)
      × (is_foreign_on_branch_boundary git r.1.red_commit_sha task_id ≡ false)

  foreign_of_empty :
      (sha : Text) (task_id : String)
      → is_empty (strip sha) ≡ true
      → is_foreign_on_branch_boundary git sha task_id ≡ false
  unfolding is_foreign_on_branch_boundary
  foreign_of_empty sha task_id e = rw e refl

  foreign_of_own :
      (sha : Text) (task_id : String)
      → red_boundary_belongs_to_task git (strip sha) task_id ≡ true
      → is_foreign_on_branch_boundary git sha task_id ≡ false
  unfolding is_foreign_on_branch_boundary
  foreign_of_own sha task_id own = ground arith

  strip-empty : strip [] ≡ []
  unfolding strip deviatdd.Prelude.Text.lstrip deviatdd.Prelude.Text.rstrip
  strip-empty = refl

  cleared-IsOwn :
      (task_id : String) (s : Session) → IsOwn task_id ([], record s { red_commit_sha = [] })
  cleared-IsOwn task_id s = (sym strip-empty, foreign_of_empty [] task_id (ap is_empty strip-empty))

  failed-IsOwn :
      (task_id : String) (s : Session)
      → IsOwn task_id (
          if not (is_empty (strip s.red_commit_sha))
            && red_boundary_belongs_to_task git (strip s.red_commit_sha) task_id
          then (strip s.red_commit_sha, s)
          else ([], record s { red_commit_sha = [] }))
  failed-IsOwn task_id s =
      if-cases (IsOwn task_id) _ (strip s.red_commit_sha, s) ([], _)
        (λ own. (refl, foreign_of_own s.red_commit_sha task_id (ground arith)))
        (λ _. cleared-IsOwn task_id s)

  kept_not_foreign :
      (sha : Text) (task_id : String)
      → not (is_empty (strip sha)) && not (red_boundary_belongs_to_task git sha task_id) ≡ false
      → is_foreign_on_branch_boundary git sha task_id ≡ false
  unfolding is_foreign_on_branch_boundary
  kept_not_foreign sha task_id h = ground (arith, belongs-strip sha task_id)

  keep_own-IsOwn :
      (task_id : String) (r : Recovery × Session) → IsOwn task_id (keep_own git task_id r)
  keep_own-IsOwn task_id (recovered, s) =
      if-cases (IsOwn task_id) _ ([], _) (strip s.red_commit_sha, s) (λ _. cleared-IsOwn task_id s)
        (λ h. (refl, kept_not_foreign s.red_commit_sha task_id h))
  keep_own-IsOwn task_id (no_red_state, s) = failed-IsOwn task_id s
  keep_own-IsOwn task_id (ambiguous, s) = failed-IsOwn task_id s
  keep_own-IsOwn task_id (no_red_commit, s) = failed-IsOwn task_id s

  stored_not_foreign :
      (sha : Text) (task_id : String)
      → not (is_empty (strip sha)) && is_foreign_on_branch_boundary git (strip sha) task_id ≡ false
      → not (is_empty (strip sha)) && not (red_boundary_belongs_to_task git (strip sha) task_id)
        ≡ true
      → is_foreign_on_branch_boundary git sha task_id ≡ false
  unfolding is_foreign_on_branch_boundary
  stored_not_foreign sha task_id h k = ground (arith, strip-strip sha)

  -- After `_bind_session_red_boundary` the session holds the commit that it returns, and that is no
  -- commit of the current branch whose subject names another task and not this one.
  pub bind_session_red_boundary-IsOwn :
      (ledgers : List Row) (task_id : String) (s : Session)
      → let (sha, after) = bind_session_red_boundary git ledgers task_id s in
        (sha ≡ strip after.red_commit_sha)
        × (is_foreign_on_branch_boundary git after.red_commit_sha task_id ≡ false)
  unfolding bind_session_red_boundary
  bind_session_red_boundary-IsOwn ledgers task_id s =
      if-cases (IsOwn task_id) _ (keep_own git task_id _) _ (λ _. keep_own-IsOwn task_id _)
        λ h.
          if-cases (IsOwn task_id) _ (strip s.red_commit_sha, s) (keep_own git task_id _)
            (λ k. (refl, stored_not_foreign s.red_commit_sha task_id h k))
            (λ _. keep_own-IsOwn task_id _)

  -- No search for the boundary touches the two retry counters.
  invalidate-KeepsSession :
      (task_id : String) → KeepsSession (λ s. (invalidate_stale_forward_route task_id s).1)
  unfolding invalidate_stale_forward_route clear_stale_forward_route
  invalidate-KeepsSession task_id s = ground arith

  abbrev Counts : Session → Session → Type 0
  Counts s t = (t.green_attempts ≡ s.green_attempts) × (t.red_attempts ≡ s.red_attempts)

  unfoldable SameIn {ℓ} : {A : Type ℓ} → Session → A × Session → Type 0
  SameIn s r = Counts s r.1

  in_same {ℓ} : {A : Type ℓ} (a : A) (s t : Session) → Counts s t → SameIn s (a, t)
  unfolding SameIn
  in_same a s t same = same

  same_in {ℓ} : {A : Type ℓ} (s : Session) (r : A × Session) → SameIn s r → Counts s r.1
  unfolding SameIn
  same_in s r same = same

  then_same : (s t u : Session) → Counts s t → Counts t u → Counts s u
  then_same s t u h k = (k.0 ∙ h.0, k.1 ∙ h.1)

  here {ℓ} : {A : Type ℓ} (a : A) (s : Session) → SameIn s (a, s)
  here a s = in_same a s s (refl, refl)

  refresh_red-same : (s : Session) → SameIn s (refresh_red git s)
  unfolding refresh_red
  refresh_red-same s =
      if-cases (SameIn s) _ (true, _) (false, s) (λ _. in_same true s _ (refl, refl))
        (λ _. here false s)

  refresh_judge-same : (r : Bool × Session) → SameIn r.1 (refresh_judge git r)
  unfolding refresh_judge
  refresh_judge-same (changed, s) =
      if-cases (SameIn s) _ (true, record s { judge_red_commit_sha = _ }) (changed, s)
        (λ _. in_same true s _ (refl, refl)) (λ _. here changed s)

  refresh-KeepsSession : KeepsSession (λ s. (refresh_session_commit_anchors git s).1)
  unfolding refresh_session_commit_anchors
  refresh-KeepsSession s =
      let r = refresh_red git s in
      then_same s r.1 (refresh_judge git r).1 (same_in s r (refresh_red-same s))
        (same_in r.1 (refresh_judge git r) (refresh_judge-same r))

  adopt-same : (task_id : String) (sha : Text) (s : Session) → SameIn s (adopt git task_id sha s)
  unfolding adopt
  adopt-same task_id sha s =
      if-cases (SameIn s) _ (recovered, (refresh_session_commit_anchors git bound).1)
        (no_red_commit, s)
        (λ _. in_same recovered s (refresh_session_commit_anchors git bound).1 (
          then_same s bound (refresh_session_commit_anchors git bound).1
            (invalidate-KeepsSession task_id taken) (refresh-KeepsSession bound)))
        (λ _. here no_red_commit s)
    where
      taken : Session
      taken = record s { red_commit_sha = or_else (resolve_rewritten_sha git sha) sha }

      bound : Session
      bound = (invalidate_stale_forward_route task_id taken).1

  adopt_only-same :
      (task_id : String) (rows : List (Text × Text)) (s : Session)
      → SameIn s (adopt_only git task_id rows s)
  adopt_only-same task_id [] s = here ambiguous s
  adopt_only-same task_id ((sha, subject) ∷ []) s = adopt-same task_id sha s
  adopt_only-same task_id (a ∷ b ∷ rows) s = here ambiguous s

  adopt_candidate-same :
      (task_id : String) (rows : List (Text × Text)) (s : Session)
      → SameIn s (adopt_candidate git task_id rows s)
  adopt_candidate-same task_id [] s = here no_red_commit s
  adopt_candidate-same task_id ((sha, subject) ∷ []) s = adopt-same task_id sha s
  adopt_candidate-same task_id (a ∷ b ∷ rows) s =
      adopt_only-same task_id (select (is_red_like git) (a ∷ b ∷ rows)) s

  recover_from_ledger-same :
      (ledgers : List Row) (task_id : String) (s : Session)
      → SameIn s (recover_from_ledger git ledgers task_id s)
  unfolding recover_from_ledger
  recover_from_ledger-same ledgers task_id s =
      if-cases (SameIn s) _ (no_red_state, s) (adopt_candidate git task_id _ s)
        (λ _. here no_red_state s) (λ _. adopt_candidate-same task_id _ s)

  from_cleared :
      (ledgers : List Row) (task_id : String) (s : Session)
      → SameIn s (recover_from_ledger git ledgers task_id (record s { red_commit_sha = [] }))
  unfolding SameIn
  from_cleared ledgers task_id s =
      recover_from_ledger-same ledgers task_id (record s { red_commit_sha = [] })

  recover-SameIn :
      (ledgers : List Row) (task_id : String) (s : Session)
      → SameIn s (recover_red_commit_boundary git ledgers task_id s)
  unfolding recover_red_commit_boundary
  recover-SameIn ledgers task_id s =
      if-cases (SameIn s) _ _ (recover_from_ledger git ledgers task_id s)
        (λ _.
          valid-SameIn (red_boundary_belongs_to_task git s.red_commit_sha task_id)
            (not (is_ancestor git s.red_commit_sha head)))
        (λ _. recover_from_ledger-same ledgers task_id s)
    where
      valid-SameIn :
          (own off : Bool)
          → SameIn s (
              if own
              then (recovered, (refresh_session_commit_anchors git s).1)
              else if off
              then (recovered, s)
              else recover_from_ledger git ledgers task_id (record s { red_commit_sha = [] }))
      valid-SameIn true off = in_same recovered s _ (refresh-KeepsSession s)
      valid-SameIn false true = here recovered s
      valid-SameIn false false = from_cleared ledgers task_id s

  pub recover-same :
      (ledgers : List Row) (task_id : String)
      → KeepsSession (λ s. (recover_red_commit_boundary git ledgers task_id s).1)
  recover-same ledgers task_id s = same_in s _ (recover-SameIn ledgers task_id s)

  keep_own-same :
      (task_id : String) (r : Recovery × Session) → Counts r.1 (keep_own git task_id r).1
  keep_own-same task_id (recovered, s) = ground arith
  keep_own-same task_id (no_red_state, s) = ground arith
  keep_own-same task_id (ambiguous, s) = ground arith
  keep_own-same task_id (no_red_commit, s) = ground arith

  keep_recovered-same :
      (ledgers : List Row) (task_id : String) (s t : Session)
      → Counts s t
      → SameIn s (keep_own git task_id (recover_red_commit_boundary git ledgers task_id t))
  unfolding SameIn
  keep_recovered-same ledgers task_id s t same =
      let r = recover_red_commit_boundary git ledgers task_id t in
      then_same s r.1 (keep_own git task_id r).1
        (then_same s t r.1 same (recover-same ledgers task_id t)) (keep_own-same task_id r)

  bind-SameIn :
      (ledgers : List Row) (task_id : String) (s : Session)
      → SameIn s (bind_session_red_boundary git ledgers task_id s)
  unfolding bind_session_red_boundary
  bind-SameIn ledgers task_id s =
      branches
        (not (is_empty (strip s.red_commit_sha))
          && is_foreign_on_branch_boundary git (strip s.red_commit_sha) task_id)
        (not (is_empty (strip s.red_commit_sha))
          && not (red_boundary_belongs_to_task git (strip s.red_commit_sha) task_id))
    where
      cleared : Session
      cleared = record s { red_commit_sha = [] }

      branches :
          (foreign off : Bool)
          → SameIn s (
              if foreign
              then keep_own git task_id (recover_red_commit_boundary git ledgers task_id cleared)
              else if off
              then (strip s.red_commit_sha, s)
              else keep_own git task_id (recover_red_commit_boundary git ledgers task_id s))
      branches true off = keep_recovered-same ledgers task_id s cleared (refl, refl)
      branches false true = here (strip s.red_commit_sha) s
      branches false false = keep_recovered-same ledgers task_id s s (refl, refl)

  pub bind-same :
      (ledgers : List Row) (task_id : String)
      → KeepsSession (λ s. (bind_session_red_boundary git ledgers task_id s).1)
  bind-same ledgers task_id s = same_in s _ (bind-SameIn ledgers task_id s)

  pub ensure-same :
      (ledgers : List Row) (task_id : String)
      → KeepsSession (λ s. (ensure_green_entry_red_sha git ledgers task_id s).1)
  unfolding ensure_green_entry_red_sha
  ensure-same ledgers task_id s =
      if-cases (Counts s) _ s (recover_red_commit_boundary git ledgers task_id s).1
        (λ _. (refl, refl)) (λ _. recover-same ledgers task_id s)
