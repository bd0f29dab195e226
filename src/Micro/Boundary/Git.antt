-- ===== src/Micro/Boundary/Git.antt =====
-- What cli/micro/surface.py asks Git, and its walks along first parents.
use deviatdd.Prelude.{
  ℕ, zero, suc, Bool, true, false, not, ◌&&◌, ◌||◌, Option, none, some, List, [], ◌∷◌, length,
  if◌then◌else◌, ◌==◌,
}
use deviatdd.Prelude.Text.{Text, codes, strip, is_empty, is_space}
use deviatdd.Prelude.Regex.{
  Regex, char, then_, alt, at_end, matches, exactly, optional, some_of, not_newline, chain,
}
use deviatdd.Judge.Evidence.{member}

-- The output of the commands, `none` where the exit code is not 0. `store` holds the commits of the
-- repository; only the fuel of the walks depends on it.
pub record Git : Type 0 where
  -- `git rev-parse --verify rev`
  pub rev_parse : Text → Option Text
  -- `git rev-parse sha^`
  pub first_parent : Text → Option Text
  -- `git log -1 --format=%s sha`
  pub log_subject : Text → Option Text
  -- `git merge-base --is-ancestor` exits with 0.
  pub merge_base : Text → Text → Bool
  -- The rows of `git log --format=%H%x00%s HEAD`, each commit once.
  pub train : List (Text × Text)
  -- The newest commit that created a tasks.md.
  pub tasks_commit : Option Text
  pub store : List Text

-- `_git_capture`
abbrev pub git_capture : Option Text → Text
git_capture none = []
git_capture (some out) = strip out

abbrev pub head : Text
head = codes "HEAD"

module _ (git : Git) where
  unfoldable pub git_commit_subject : Text → Text
  git_commit_subject sha = git_capture (git.log_subject sha)

  unfoldable pub git_parent_sha : Text → Text
  git_parent_sha sha = git_capture (git.first_parent sha)

  unfoldable pub git_full_sha : Text → Text
  git_full_sha rev = git_capture (git.rev_parse rev)

  unfoldable pub is_ancestor : Text → Text → Bool
  is_ancestor maybe_ancestor descendant =
      let sha = strip maybe_ancestor in
      if is_empty sha then false else git.merge_base sha descendant

-- `\([^)]+\)`
abbrev scope : Regex
scope =
    chain
      (char (λ c. c == b'(') ∷ some_of (char (λ c. not (c == b')'))) ∷ char (λ c. c == b')') ∷ [])

-- `^(?:.+ )?`
abbrev prefix : Regex
prefix = optional (then_ (some_of not_newline) (char (λ c. c == 32)))

-- `(?:\s|$)`
abbrev space_or_end : Regex
space_or_end = alt (char is_space) at_end

-- _PRE_RED_SHA_PARENT_RE
unfoldable pub is_red_subject : Text → Bool
is_red_subject = matches (
    chain
      (prefix ∷ exactly (codes "test") ∷ scope ∷ exactly (codes ": RED phase") ∷ space_or_end ∷ []))

-- _GREEN_PHASE_SUBJECT_RE
unfoldable pub is_green_subject : Text → Bool
is_green_subject =
    matches
      (chain (prefix ∷ some_of not_newline ∷ exactly (codes ": GREEN phase") ∷ space_or_end ∷ []))

-- _JUDGE_FEEDBACK_SUBJECT_RE
unfoldable pub is_feedback_subject : Text → Bool
is_feedback_subject = matches (
    chain (
      prefix
      ∷ exactly (codes "docs")
      ∷ scope
      ∷ exactly (codes ": add judge feedback for retry")
      ∷ at_end
      ∷ []))

-- _WALKABLE_DOCS_SUBJECT_RE
unfoldable pub is_walkable_docs_subject : Text → Bool
is_walkable_docs_subject =
    matches (chain (prefix ∷ exactly (codes "docs") ∷ scope ∷ exactly (codes ": ") ∷ []))

module _ (git : Git) where
  -- The loop of `_sha_chain_hits_green_before_red`; `none` means that the fuel ran out.
  unfoldable pub green_walk : ℕ → List Text → Text → Option Bool
  unfolding git_commit_subject git_parent_sha
  green_walk zero seen current = none
  green_walk (suc fuel) seen current =
      let rest = green_walk fuel (current ∷ seen) (git_parent_sha git current) in
      if is_empty current || member current seen
      then some false
      else if is_red_subject (git_commit_subject git current)
      then some false
      else if is_green_subject (git_commit_subject git current)
      then some true
      else rest

  -- The loop of `_feedback_sha_rests_on_red_phase`
  unfoldable pub red_walk : ℕ → List Text → Text → Option Bool
  unfolding git_commit_subject git_parent_sha
  red_walk zero seen current = none
  red_walk (suc fuel) seen current =
      let rest = red_walk fuel (current ∷ seen) (git_parent_sha git current) in
      if is_empty current || member current seen
      then some false
      else if is_red_subject (git_commit_subject git current)
      then some true
      else if is_green_subject (git_commit_subject git current)
      then some false
      else rest

  -- The loop of `_resolve_judge_diff_base`, whose answer where it breaks off is `start`.
  unfoldable pub base_walk : ℕ → List Text → Text → Text → Option Text
  unfolding git_commit_subject git_parent_sha
  base_walk zero seen start current = none
  base_walk (suc fuel) seen start current =
      let rest = base_walk fuel (current ∷ seen) start (git_parent_sha git current) in
      if is_empty current || member current seen
      then some start
      else if is_empty (git_commit_subject git current)
      then some start
      else if is_red_subject (git_commit_subject git current)
      then some current
      else if not (is_walkable_docs_subject (git_commit_subject git current))
      then some current
      else if is_empty (git_parent_sha git current)
      then some start
      else rest

  abbrev pub walk_fuel : ℕ
  walk_fuel = suc (suc (length git.store))

  abbrev pub or_false : Option Bool → Bool
  or_false none = false
  or_false (some b) = b

  abbrev pub or_start : Text → Option Text → Text
  or_start start none = start
  or_start start (some sha) = sha

  unfoldable pub sha_chain_hits_green_before_red : Text → Bool
  unfolding green_walk
  sha_chain_hits_green_before_red sha = or_false (green_walk walk_fuel [] (strip sha))

  unfoldable pub feedback_sha_rests_on_red_phase : Text → Bool
  unfolding red_walk
  feedback_sha_rests_on_red_phase sha = or_false (red_walk walk_fuel [] (strip sha))

  unfoldable pub resolve_judge_diff_base : Text → Text
  unfolding base_walk
  resolve_judge_diff_base sha =
      or_start (strip sha) (base_walk walk_fuel [] (strip sha) (strip sha))

  unfoldable pub is_red_phase_failing_test_sha : Text → Bool
  unfolding git_commit_subject feedback_sha_rests_on_red_phase
  is_red_phase_failing_test_sha sha =
      if is_empty (strip sha)
      then false
      else if is_empty (git_commit_subject git (strip sha))
      then true
      else if is_feedback_subject (git_commit_subject git (strip sha))
      then feedback_sha_rests_on_red_phase (strip sha)
      else true

  -- `_maybe_advance_red_sha_past_feedback`: the boundary after it.
  unfoldable pub advance_red_sha_past_feedback : Text → Text → Text → Text
  unfolding is_red_phase_failing_test_sha sha_chain_hits_green_before_red
  advance_red_sha_past_feedback red_commit_sha prior_red_sha feedback_head =
      if not (is_empty feedback_head)
        && (is_red_phase_failing_test_sha prior_red_sha
            && not (sha_chain_hits_green_before_red feedback_head))
      then feedback_head
      else red_commit_sha
