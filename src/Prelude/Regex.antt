-- ===== src/Prelude/Regex.antt =====
-- Python's `re` as far as the program uses it: whether a pattern matches. Repetition is bounded by
-- fuel above the length of the text, which no match can pass; groups and laziness do not change
-- whether there is a match.
use deviatdd.Prelude.Tests.{◌==◌, if◌then◌else◌}
use deviatdd.Prelude.Text.{Text, codes, is_space, is_digit, is_lower, is_upper, to_lower}
use Prim.Native.Nat.{ℕ, zero, suc, ◌+◌, ◌*◌}
use mathlib.Core.Path.{◌≡◌, refl}
use mathlib.Core.Bool.{Bool, true, false, not, ◌||◌}
use mathlib.Core.Option.{Option, none, some}
use mathlib.Core.List.{List, [], ◌∷◌}

pub data Regex : Type 0 where
  empty word_boundary at_start at_end : Regex
  char : (ℕ → Bool) → Regex
  then_ alt : Regex → Regex → Regex
  star : Regex → Regex

-- \w for ASCII
abbrev pub is_word : ℕ → Bool
is_word c = is_lower c || (is_upper c || (is_digit c || c == b'_'))

abbrev word_before : Option ℕ → Bool
word_before none = false
word_before (some c) = is_word c

abbrev word_after : Text → Bool
word_after [] = false
word_after (c ∷ s) = is_word c

-- `^`: the start of the text.
abbrev is_first : Option ℕ → Bool
is_first none = true
is_first (some _) = false

-- `$`: the end, or the line feed before it.
abbrev ends_here : Text → Bool
ends_here [] = true
ends_here (c ∷ []) = c == 10
ends_here (c ∷ d ∷ s) = false

-- Whether `r` matches a prefix of the text after `before`, and the rest of the pattern, `k`, what
-- follows it.
unfoldable pub run : ℕ → Regex → Option ℕ → Text → (Option ℕ → Text → Bool) → Bool
run f empty before s k = k before s
run f word_boundary before s k =
    let here = k before s in
    if word_before before
    then (if word_after s then false else here)
    else if word_after s
    then here
    else false
run f at_start before s k = let here = k before s in if is_first before then here else false
run f at_end before s k = let here = k before s in if ends_here s then here else false
run f (char c) before [] k = false
run f (char c) before (x ∷ s) k = let rest = k (some x) s in if c x then rest else false
run f (then_ a b) before s k = run f a before s (λ p t. run f b p t k)
run f (alt a b) before s k =
    let other = run f b before s k in if run f a before s k then true else other
run zero (star a) before s k = k before s
run (suc f) (star a) before s k =
    let stop = k before s in if run f a before s (λ p t. run f (star a) p t k) then true else stop

abbrev accept : Option ℕ → Text → Bool
accept before s = true

abbrev length : Text → ℕ
length [] = 0
length (c ∷ s) = suc (length s)

abbrev fuel_for : Text → ℕ
fuel_for s = 3 * length s + 8

-- re.match: at the start of the text.
unfoldable pub matches : Regex → Text → Bool
unfolding run
matches r s = run (fuel_for s) r none s accept

unfoldable pub search_from : ℕ → Regex → Option ℕ → Text → Bool
unfolding run
search_from f r before [] = run f r before [] accept
search_from f r before (c ∷ s) =
    let later = search_from f r (some c) s in if run f r before (c ∷ s) accept then true else later

-- re.search: anywhere in the text.
unfoldable pub search : Regex → Text → Bool
unfolding search_from
search r s = search_from (fuel_for s) r none s

-- The characters of a literal under re.IGNORECASE.
abbrev pub ignoring_case : Text → Regex
ignoring_case [] = empty
ignoring_case (c ∷ s) = then_ (char (λ x. to_lower x == to_lower c)) (ignoring_case s)

abbrev pub exactly : Text → Regex
exactly [] = empty
exactly (c ∷ s) = then_ (char (λ x. x == c)) (exactly s)

abbrev pub spaces : Regex
spaces = star (char is_space)

abbrev pub digit : Regex
digit = char is_digit

-- a pattern that need not be there: `(?:r)?`
abbrev pub optional : Regex → Regex
optional r = alt r empty

-- `r+`
abbrev pub some_of : Regex → Regex
some_of r = then_ r (star r)

abbrev pub not_newline : Regex
not_newline = char (λ c. not (c == 10))

abbrev pub one_of : List Regex → Regex
one_of [] = char (λ c. false)
one_of (r ∷ []) = r
one_of (r ∷ s ∷ rs) = alt r (one_of (s ∷ rs))

-- Patterns in a row.
abbrev pub chain : List Regex → Regex
chain [] = empty
chain (r ∷ rs) = then_ r (chain rs)

test_search : search (then_ word_boundary (exactly (codes "b c"))) (codes "a b c") ≡ true
unfolding search
test_search = refl

test_star :
    matches (then_ spaces (then_ (exactly (codes "x")) word_boundary)) (codes "  xy") ≡ false
unfolding matches
test_star = refl
