-- ===== src/Judge/Evidence/Diff.antt =====
-- core/judge_evidence.py: the files of a diff, and the lines that a citation may quote.
use deviatdd.Prelude.{
  ℕ, Bool, true, false, not, leb, ◌≡◌, refl, ◌||◌, ◌&&◌, Option, none, some, List, [], ◌∷◌, ◌++◌,
  map, select, ◌==◌, if◌then◌else◌,
}
use deviatdd.Prelude.Text.{Text, codes, strip, starts_with, text_eq, is_empty}

-- A dict from paths to texts; the newest entry of a path comes first.
abbrev pub Sources : Type 0
Sources = List (Text × Text)

unfoldable pub find_source : Text → Sources → Option Text
find_source path [] = none
find_source path ((p, source) ∷ sources) =
    if text_eq p path then some source else find_source path sources

abbrev push : ℕ → List Text → List Text
push c [] = (c ∷ []) ∷ []
push c (l ∷ ls) = (c ∷ l) ∷ ls

-- What ends a line for str.splitlines().
abbrev ends_line : ℕ → Bool
ends_line c =
    (leb 10 c && leb c 13) || ((leb 28 c && leb c 30) || (c == 133 || (c == 8232 || c == 8233)))

-- str.splitlines(), where the test says that a carriage return stood before.
unfoldable pub split_from : Bool → Text → List Text
split_from cr [] = []
split_from cr (c ∷ s) =
    let rest = split_from (c == 13) s in
    if cr && c == 10 then rest else if ends_line c then [] ∷ rest else push c rest

unfoldable pub split_lines : Text → List Text
unfolding split_from
split_lines = split_from false

test_split_lines : split_lines (codes "a\r\nb\n\nc") ≡ codes "a" ∷ codes "b" ∷ [] ∷ codes "c" ∷ []
unfolding split_lines
test_split_lines = refl

-- _DIFF_CHUNK.split: before each line that starts with `diff --git `.
unfoldable pub split_chunks : Bool → Text → List Text
split_chunks at_start [] = [] ∷ []
split_chunks at_start (c ∷ s) =
    let rest = push c (split_chunks (c == 10) s) in
    if at_start && starts_with (c ∷ s) (codes "diff --git ") then [] ∷ rest else rest

unfoldable pub iter_diff_chunks : Text → List Text
unfolding split_chunks
iter_diff_chunks diff = select (λ chunk. not (is_empty (strip chunk))) (split_chunks true diff)

-- What follows a prefix.
unfoldable pub after_prefix : Text → Text → Option Text
after_prefix [] s = some s
after_prefix (d ∷ p) [] = none
after_prefix (d ∷ p) (c ∷ s) = let rest = after_prefix p s in if c == d then rest else none

abbrev nonempty : Option Text → Option Text
nonempty none = none
nonempty (some []) = none
nonempty (some (c ∷ s)) = some (c ∷ s)

abbrev with_first : ℕ → Option (Text × Text) → Option (Text × Text)
with_first c none = none
with_first c (some (a, b)) = some (c ∷ a, b)

abbrev or_pair : ℕ → Option Text → Option (Text × Text) → Option (Text × Text)
or_pair c (some b) later = some (c ∷ [], b)
or_pair c none later = with_first c later

-- `(.+?) b/(.+)$`
unfoldable pub split_header : Text → Option (Text × Text)
unfolding after_prefix
split_header [] = none
split_header (c ∷ s) =
    let later = split_header s in or_pair c (nonempty (after_prefix (codes " b/") s)) later

abbrev header_of : Option Text → Option (Text × Text)
header_of none = none
header_of (some s) = split_header s

abbrev plus_path : Option Text → List Text
plus_path none = []
plus_path (some path) = path ∷ []

unfoldable pub plus_paths : List Text → List Text
unfolding after_prefix
plus_paths [] = []
plus_paths (line ∷ lines) =
    plus_path (nonempty (after_prefix (codes "+++ b/") line)) ++ plus_paths lines

abbrev paths_after : Option (Text × Text) → List Text → List Text
paths_after none lines = []
paths_after (some (a, b)) lines = a ∷ b ∷ plus_paths lines

abbrev line_paths : List Text → List Text
line_paths [] = []
line_paths (first ∷ rest) =
    paths_after (header_of (after_prefix (codes "diff --git a/") first)) (first ∷ rest)

unfoldable pub chunk_paths : Text → List Text
unfolding split_lines split_header plus_paths after_prefix
chunk_paths chunk = line_paths (split_lines chunk)

unfoldable pub add_paths : Text → List Text → Sources → Sources
add_paths chunk [] sources = sources
add_paths chunk (path ∷ paths) sources = add_paths chunk paths ((path, chunk) ∷ sources)

unfoldable pub add_chunks : List Text → Sources → Sources
unfolding add_paths chunk_paths
add_chunks [] sources = sources
add_chunks (chunk ∷ chunks) sources =
    add_chunks chunks (add_paths chunk (chunk_paths chunk) sources)

unfoldable pub map_diff_hunks : Text → Sources
unfolding add_chunks iter_diff_chunks
map_diff_hunks diff = add_chunks (iter_diff_chunks diff) []

abbrev added_body : Text → List Text
added_body [] = []
added_body (c ∷ s) =
    if c == b'+' && not (starts_with (c ∷ s) (codes "+++")) then strip s ∷ [] else []

unfoldable pub added_bodies : List Text → List Text
added_bodies [] = []
added_bodies (line ∷ lines) = added_body line ++ added_bodies lines

unfoldable pub added_line_bodies : Text → List Text
unfolding split_lines added_bodies
added_line_bodies source = added_bodies (split_lines source)

unfoldable pub stripped_source_lines : Text → List Text
unfolding split_lines
stripped_source_lines source = select (λ l. not (is_empty l)) (map strip (split_lines source))
