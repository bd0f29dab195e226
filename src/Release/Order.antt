-- ===== src/Release/Order.antt =====
-- scripts/next_version.py: the order of releases and of bump levels.
use deviatdd.Prelude.{
  ℕ, ◌≤◌, Bool, true, false, Option, none, some, List, [], ◌∷◌, ◌≡◌, refl, ◌∙◌, ap, ==-refl, ◌⊎◌,
  inl, inr, arith, any, All, ◌==◌, ◌||◌, ◌&&◌, ltb,
}
use deviatdd.Prelude.Text.{Text}
use deviatdd.Release.{
  Version, Level, patch, minor, major, bump_semver, rank, rank_of, max, level_for, highest_rank,
  highest_bump, classify_commit,
}

-- The order of version numbers.
abbrev pub precedes : Version → Version → Bool
precedes v w =
    ltb v.major_number w.major_number
    || (v.major_number == w.major_number
        && (ltb v.minor_number w.minor_number
            || (v.minor_number == w.minor_number && ltb v.patch_number w.patch_number)))

-- The versions that a release of a level can have: the numbers below the level are zero.
abbrev pub is_release : Level → Version → Bool
is_release patch v = true
is_release minor v = v.patch_number == 0
is_release major v = v.minor_number == 0 && v.patch_number == 0

-- A bump gives the least version of its level, one in which the numbers below the level are zero,
-- among those after the given version: it is one of them, and none of them precedes it.
pub bump_semver-least :
    (v : Version) (l : Level) (w : Version)
    → precedes v w ≡ true
    → is_release l w ≡ true
    → (precedes v (bump_semver v l) ≡ true)
      × (is_release l (bump_semver v l) ≡ true)
      × (precedes w (bump_semver v l) ≡ false)
unfolding bump_semver
bump_semver-least v patch w later released = (ground arith, refl, ground arith)
bump_semver-least v minor w later released = (ground arith, refl, ground arith)
bump_semver-least v major w later released = (ground arith, refl, ground arith)

rank-bounds : (l : Option Level) → rank_of l ≤ 3
unfolding rank
rank-bounds none = ground arith
rank-bounds (some patch) = ground arith
rank-bounds (some minor) = ground arith
rank-bounds (some major) = ground arith

or_true : (b : Bool) → b || true ≡ true
or_true true = refl
or_true false = refl

max-cases : (a b : ℕ) → (a ≤ max a b) × (b ≤ max a b) × ((max a b ≡ a) ⊎ (max a b ≡ b))
max-cases a b = ground arith

highest_rank-ge : (r : ℕ) (ms : List Text) → r ≤ highest_rank r ms
unfolding highest_rank
highest_rank-ge r [] = ground arith
highest_rank-ge r (m ∷ ms) =
    let b = rank_of (classify_commit m) in
    ground (arith, max-cases r b, highest_rank-ge (max r b) ms)

highest_rank-le : (r : ℕ) (ms : List Text) → r ≤ 3 → highest_rank r ms ≤ 3
unfolding highest_rank
highest_rank-le r [] h = h
highest_rank-le r (m ∷ ms) h =
    let b = rank_of (classify_commit m) in
    highest_rank-le (max r b) ms (ground (arith, rank-bounds (classify_commit m), max-cases r b))

abbrev BelowAll : ℕ → List Text → Type 0
BelowAll n ms = All (λ m. rank_of (classify_commit m) ≤ n) ms

highest_rank-All : (r : ℕ) (ms : List Text) → BelowAll (highest_rank r ms) ms
unfolding highest_rank
highest_rank-All r [] = tt
highest_rank-All r (m ∷ ms) =
    let b = rank_of (classify_commit m) in
    (ground (arith, max-cases r b, highest_rank-ge (max r b) ms), highest_rank-All (max r b) ms)

abbrev reaches : ℕ → List Text → Bool
reaches n ms = any (λ m. rank_of (classify_commit m) == n) ms

reached-step :
    (r b h : ℕ) (tail : Bool) → (h ≡ max r b) ⊎ (tail ≡ true) → (h ≡ r) ⊎ ((b == h || tail) ≡ true)
reached-step r b h tail (inr t) = inr (rw t (or_true (b == h)))
reached-step r b h tail (inl e) = elim (max-cases r b).2 [
  | inl a ↦ inl (e ∙ a)
  | inr a ↦ inr (rw (e ∙ a, ==-refl b) refl)
]

highest_rank-reached :
    (r : ℕ) (ms : List Text) → (highest_rank r ms ≡ r) ⊎ (reaches (highest_rank r ms) ms ≡ true)
unfolding highest_rank
highest_rank-reached r [] = inl refl
highest_rank-reached r (m ∷ ms) =
    reached-step r (rank_of (classify_commit m)) _ _
      (highest_rank-reached (max r (rank_of (classify_commit m))) ms)

rank-level_for : (n : ℕ) → n ≤ 3 → (rank (level_for n) ≡ n) ⊎ ((n ≡ 0) × (level_for n ≡ patch))
unfolding rank
rank-level_for n h = ground arith

all-weaken : (n k : ℕ) (ms : List Text) → n ≤ k → BelowAll n ms → BelowAll k ms
all-weaken n k [] h all = tt
all-weaken n k (m ∷ ms) h (le, all) = (ground arith, all-weaken n k ms h all)

-- The level of a release is at least that of each commit, and some commit has it, unless it is a patch.
pub highest_bump_lem :
    (messages : List Text)
    → All (λ m. rank_of (classify_commit m) ≤ rank (highest_bump messages)) messages
      × ((highest_bump messages ≡ patch)
          ⊎ (any (λ m. rank_of (classify_commit m) == rank (highest_bump messages)) messages
              ≡ true))
unfolding highest_bump
highest_bump_lem messages =
    elim (rank-level_for (highest_rank 0 messages) (highest_rank-le 0 messages (omega arith))) [
      | inl e ↦ rw e (
        highest_rank-All 0 messages,
        elim (highest_rank-reached 0 messages) [ inl z ↦ inl (ap level_for z) | inr r ↦ inr r ],
      )
      | inr (z, p) ↦ (
        all-weaken (highest_rank 0 messages) _ messages (ground arith)
            (highest_rank-All 0 messages),
        inl p,
      )
    ]
