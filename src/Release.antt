-- ===== src/Release.antt =====
-- scripts/next_version.py: the version of the next release from the commit messages since the last.
pub mod Order
mod Examples
use deviatdd.Prelude.{
  ℕ, zero, suc, ◌+◌, ◌*◌, Bool, true, false, not, ◌&&◌, ◌||◌, Option, none, some, List, [], ◌∷◌,
  leb, ◌==◌, if◌then◌else◌, ◌≡◌, refl, ◌>>=◌,
}
use deviatdd.Prelude.Text.{Text, codes, lower, strip, is_digit, is_space, starts_with}
use deviatdd.Prelude.Regex.{Regex, search, matches, ignoring_case, one_of, then_, char}

pub data Level : Type 0 where
  patch minor major : Level

pub record Version : Type 0 where
  pub major_number : ℕ
  pub minor_number : ℕ
  pub patch_number : ℕ

-- `bump_semver`, on a version that has been read.
unfoldable pub bump_semver : Version → Level → Version
bump_semver v major = record {
  major_number = v.major_number + 1;
  minor_number = 0;
  patch_number = 0;
}
bump_semver v minor = record {
  major_number = v.major_number;
  minor_number = v.minor_number + 1;
  patch_number = 0;
}
bump_semver v patch = record {
  major_number = v.major_number;
  minor_number = v.minor_number;
  patch_number = v.patch_number + 1;
}

-- _BREAKING_RE
abbrev breaking_re : Regex
breaking_re = then_ (ignoring_case (codes "BREAKING")) (
    then_ (one_of (ignoring_case (codes " ") ∷ ignoring_case (codes "-") ∷ []))
      (ignoring_case (codes "CHANGE")))

-- The alternatives of _TYPES, in their order, with the level of each.
abbrev types : List (Text × Level)
types =
    (codes "feat", minor)
    ∷ (codes "fix", patch)
    ∷ (codes "chore", patch)
    ∷ (codes "docs", patch)
    ∷ (codes "test", patch)
    ∷ (codes "ci", patch)
    ∷ (codes "style", patch)
    ∷ (codes "refactor", patch)
    ∷ []

-- `message.split("\n", 1)[0]`
unfoldable pub first_line : Text → Text
first_line [] = []
first_line (c ∷ s) = let rest = first_line s in if c == b'\n' then [] else c ∷ rest

-- What is left of a text behind a prefix, if it has it, without regard to case.
unfoldable pub after_word : Text → Text → Option Text
after_word [] s = some s
after_word (d ∷ word) [] = none
after_word (d ∷ word) (c ∷ s) =
    let rest = after_word word s in if matches (ignoring_case (d ∷ [])) (c ∷ []) then rest else none

-- Behind the `)` of a scope that has been opened.
unfoldable pub after_scope : Text → Option Text
after_scope [] = none
after_scope (c ∷ s) = let rest = after_scope s in if c == b')' then some s else rest

-- `(?P<scope>\([^)]*\))?`: without a closing parenthesis nothing matches after it.
abbrev skip_scope : Text → Option Text
skip_scope [] = some []
skip_scope (c ∷ s) = if c == b'(' then after_scope s else some (c ∷ s)

-- `:\s`
abbrev ends_type : Text → Bool
ends_type (c ∷ d ∷ s) = c == b':' && is_space d
ends_type _ = false

-- `(?P<breaking>!)?:\s`: whether it is there with the mark, without it, or not at all.
abbrev marked : Text → Option Bool
marked [] = none
marked (c ∷ s) =
    if c == b'!'
    then (if ends_type s then some true else none)
    else if ends_type (c ∷ s)
    then some false
    else none

abbrev level_of : Level → Bool → Level
level_of level true = major
level_of level false = level

abbrev marked_level : Level → Option Bool → Option Level
marked_level level none = none
marked_level level (some b) = some (level_of level b)

abbrev or_else : Option Level → Option Level → Option Level
or_else (some l) other = some l
or_else none other = other

-- _SUBJECT_RE.match(subject), and the level that its groups give.
unfoldable pub match_subject : List (Text × Level) → Text → Option Level
unfolding after_word after_scope
match_subject [] subject = none
match_subject ((word, level) ∷ more) subject =
    or_else
      (do rest ← after_word word subject; rest ← skip_scope rest; marked_level level (marked rest))
      (match_subject more subject)

unfoldable pub classify_commit : Text → Option Level
unfolding first_line match_subject
classify_commit message =
    if search breaking_re message
    then some major
    else match_subject types (strip (first_line message))

-- _RANK
unfoldable pub rank : Level → ℕ
rank major = 3
rank minor = 2
rank patch = 1

abbrev pub max : ℕ → ℕ → ℕ
max a b = if leb b a then a else b

abbrev pub rank_of : Option Level → ℕ
rank_of none = 0
rank_of (some level) = rank level

-- `rank` after the loop over the messages.
unfoldable pub highest_rank : ℕ → List Text → ℕ
unfolding rank classify_commit
highest_rank r [] = r
highest_rank r (message ∷ messages) =
    highest_rank (max r (rank_of (classify_commit message))) messages

-- `rank == 0`, and the search in `_RANK.items()`.
abbrev pub level_for : ℕ → Level
level_for r = if r == 3 then major else if r == 2 then minor else patch

unfoldable pub highest_bump : List Text → Level
unfolding highest_rank
highest_bump messages = level_for (highest_rank 0 messages)

test_feat : classify_commit (codes "feat(api): add") ≡ some minor
unfolding classify_commit search first_line match_subject strip matches
test_feat = refl

test_breaking : classify_commit (codes "Fix!: drop") ≡ some major
unfolding classify_commit search first_line match_subject strip matches
test_breaking = refl
