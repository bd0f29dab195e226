-- ===== src/Micro/Boundary/Walks.antt =====
-- The walks of cli/micro/surface.py along first parents end, and find the first phase commit.
use deviatdd.Prelude.{
  ℕ, zero, suc, ◌+◌, ◌<◌, Bool, true, false, not, ◌&&◌, ◌||◌, Option, none, some, List, [], ◌∷◌,
  ◌≡◌, ◌≢◌, refl, arith, if◌then◌else◌,
}
use deviatdd.Prelude.Text.{Text, is_empty}
use deviatdd.Judge.Evidence.{member}
use deviatdd.Micro.Boundary.Git.{
  Git, git_commit_subject, git_parent_sha, is_red_subject, is_green_subject,
}

pub data Mark : Type 0 where
  red_phase green_phase no_mark : Mark

-- The phase that a subject names; RED is tested first.
unfoldable pub mark_of : Text → Mark
mark_of subject =
    if is_red_subject subject
    then red_phase
    else if is_green_subject subject
    then green_phase
    else no_mark

abbrev decides : Mark → Mark → Bool
decides red_phase red_phase = true
decides green_phase green_phase = true
decides _ _ = false

abbrev is_mark : Mark → Bool
is_mark no_mark = false
is_mark _ = true

abbrev count_unseen : List Text → List Text → ℕ
count_unseen seen [] = 0
count_unseen seen (c ∷ cs) =
    if member c seen then count_unseen seen cs else suc (count_unseen seen cs)

module _ (git : Git) where
  abbrev subject_mark : Text → Mark
  subject_mark sha = mark_of (git_commit_subject git sha)

  abbrev next_walk : Mark → Mark → Option Bool → Option Bool
  next_walk m no_mark rest = rest
  next_walk m found rest = some (decides m found)

  -- Both walks at once.
  mark_walk : Mark → ℕ → List Text → Text → Option Bool
  mark_walk m zero seen current = none
  mark_walk m (suc fuel) seen current =
      let rest = mark_walk m fuel (current ∷ seen) (git_parent_sha git current) in
      if is_empty current || member current seen
      then some false
      else next_walk m (subject_mark current) rest

  -- After `n` first parents, none of which names a phase, comes a commit that names `m`.
  unfoldable pub FirstMark : Mark → ℕ → Text → Type 0
  FirstMark m zero sha = (is_empty sha ≡ false) × (mark_of (git_commit_subject git sha) ≡ m)
  FirstMark m (suc n) sha =
      (is_empty sha ≡ false)
      × (mark_of (git_commit_subject git sha) ≡ no_mark)
      × FirstMark m n (git_parent_sha git sha)

  -- Git answers with the id of a stored commit where it names a parent. A commit may have any number
  -- of names; only ids are answers.
  unfoldable pub IsStored : Type 0
  IsStored =
      (sha : Text)
      → is_empty (git_parent_sha git sha) ≡ false
      → member (git_parent_sha git sha) git.store ≡ true

  empty_ends :
      (m : Mark) (fuel : ℕ) (seen : List Text) (current : Text)
      → is_empty current ≡ true
      → 0 < fuel
      → mark_walk m fuel seen current ≢ none
  unfolding mark_walk
  empty_ends m zero seen current e h = elim h [ ]
  empty_ends m (suc fuel) seen current e h = λ p. ground arith

  decides_self : (m : Mark) → is_mark m ≡ true → decides m m ≡ true
  decides_self red_phase h = refl
  decides_self green_phase h = refl
  decides_self no_mark h = h

  abbrev Found : Mark → Text → Type 0
  Found m sha = (n : ℕ) × FirstMark m n sha

  abbrev Ahead : Mark → ℕ → Text → Type 0
  Ahead m n sha = (k : ℕ) × (n < k) × FirstMark m k sha
