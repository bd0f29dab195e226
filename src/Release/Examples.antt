-- ===== src/Release/Examples.antt =====
-- Releases of a few commits.
use deviatdd.Prelude.{◌≤◌, refl, true, false, List, [], ◌∷◌, ◌≡◌, ◌⊎◌, any, All, ◌==◌}
use deviatdd.Prelude.Text.{Text, codes}
use deviatdd.Release.{
  Version, patch, minor, bump_semver, rank, rank_of, classify_commit, highest_bump,
}
use deviatdd.Release.Order.{precedes, is_release, bump_semver-least, highest_bump_lem}

abbrev current : Version
current = record { major_number = 1; minor_number = 9; patch_number = 3 }

abbrev following : Version
following = record { major_number = 2; minor_number = 1; patch_number = 0 }

bump_semver-least_example :
    (precedes current (bump_semver current minor) ≡ true)
    × (is_release minor (bump_semver current minor) ≡ true)
    × (precedes following (bump_semver current minor) ≡ false)
bump_semver-least_example = bump_semver-least current minor following refl refl

abbrev commits : List Text
commits = codes "fix: a" ∷ codes "feat(api): b" ∷ codes "merge" ∷ []

highest_bump_lem_example :
    All (λ m. rank_of (classify_commit m) ≤ rank (highest_bump commits)) commits
    × ((highest_bump commits ≡ patch)
        ⊎ (any (λ m. rank_of (classify_commit m) == rank (highest_bump commits)) commits ≡ true))
highest_bump_lem_example = highest_bump_lem commits
