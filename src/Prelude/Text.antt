-- ===== src/Prelude/Text.antt =====
-- Python's `str` as a list of code points, for the code that looks into its text. Case, white
-- space and digits are those of ASCII.
use Prim.Native.Nat.{ℕ, ◌+◌, ◌-◌}
use Prim.Native.Char.{code}
use Prim.Native.String.{String}
use mathlib.Core.Path.{◌≡◌, refl, ap, ap₂, ◌∙◌}
use mathlib.Core.Logic.{inl, inr}
use native.Mathlib.Omega.{arith}
use mathlib.Core.Bool.{Bool, true, false, ◌&&◌, ◌||◌}
use mathlib.Core.List.{List, [], ◌∷◌, map}
use deviatdd.Prelude.Tests.{
  leb, ◌==◌, ==-refl, ==_iff, &&-intro, &&-true, Bool-cases, if◌then◌else◌,
}

abbrev pub Text : Type 0
Text = List ℕ

abbrev pub codes : String → Text
codes String.[] = []
codes (String.◌∷◌ c s) = code c ∷ codes s

abbrev pub is_space : ℕ → Bool
is_space c = c == 32 || (leb 9 c && leb c 13) || (leb 28 c && leb c 31)

abbrev pub is_digit : ℕ → Bool
is_digit c = leb b'0' c && leb c b'9'

abbrev pub is_lower : ℕ → Bool
is_lower c = leb b'a' c && leb c b'z'

abbrev pub is_upper : ℕ → Bool
is_upper c = leb b'A' c && leb c b'Z'

abbrev pub to_upper : ℕ → ℕ
to_upper c = if is_lower c then c - 32 else c

abbrev pub to_lower : ℕ → ℕ
to_lower c = if is_upper c then c + 32 else c

-- str.upper, str.lower
unfoldable pub upper : Text → Text
upper = map to_upper

unfoldable pub lower : Text → Text
lower = map to_lower

unfoldable pub text_eq : Text → Text → Bool
text_eq [] [] = true
text_eq (c ∷ s) (d ∷ t) = c == d && text_eq s t
text_eq _ _ = false

-- s.startswith(p), with the text first
unfoldable pub starts_with : Text → Text → Bool
starts_with s [] = true
starts_with [] (d ∷ p) = false
starts_with (c ∷ s) (d ∷ p) = c == d && starts_with s p

-- p in s
unfoldable pub contains : Text → Text → Bool
unfolding starts_with
contains [] p = starts_with [] p
contains (c ∷ s) p = starts_with (c ∷ s) p || contains s p

-- s.lstrip()
unfoldable pub lstrip : Text → Text
lstrip [] = []
lstrip (c ∷ s) = let rest = lstrip s in if is_space c then rest else c ∷ s

abbrev pub keep_before : ℕ → Text → Text
keep_before c [] = if is_space c then [] else c ∷ []
keep_before c (d ∷ t) = c ∷ d ∷ t

-- s.rstrip()
unfoldable pub rstrip : Text → Text
rstrip [] = []
rstrip (c ∷ s) = keep_before c (rstrip s)

-- s.strip()
unfoldable pub strip : Text → Text
unfolding lstrip rstrip
strip s = rstrip (lstrip s)

abbrev pub is_empty : Text → Bool
is_empty [] = true
is_empty (_ ∷ _) = false

test_strip : strip (codes "  a b ") ≡ codes "a b"
unfolding strip
test_strip = refl

test_contains : contains (codes "x COMPLIANCE_FAIL y") (codes "COMPLIANCE_FAIL") ≡ true
unfolding contains
test_contains = refl

pub text_eq_refl : (s : Text) → text_eq s s ≡ true
unfolding text_eq
text_eq_refl [] = refl
text_eq_refl (c ∷ s) = &&-intro (==-refl c) (text_eq_refl s)

pub text_eq→eq : (s t : Text) → text_eq s t ≡ true → s ≡ t
unfolding text_eq
text_eq→eq [] [] h = refl
text_eq→eq [] (d ∷ t) h = cc
text_eq→eq (c ∷ s) [] h = cc
text_eq→eq (c ∷ s) (d ∷ t) h =
    let parts = &&-true (c == d) (text_eq s t) h in
    ap₂ ◌∷◌ ((==_iff c d).0 parts.0) (text_eq→eq s t parts.1)

rstrip-rstrip : (s : Text) → rstrip (rstrip s) ≡ rstrip s
unfolding rstrip
rstrip-rstrip [] = refl
rstrip-rstrip (c ∷ s) = kept c (rstrip s) (rstrip-rstrip s)
  where
    kept : (c : ℕ) (t : Text) → rstrip t ≡ t → rstrip (keep_before c t) ≡ keep_before c t
    kept c [] h = ground arith
    kept c (d ∷ t) h = rw h refl

lstrip-rstrip : (c : ℕ) (s : Text) → is_space c ≡ false → lstrip (rstrip (c ∷ s)) ≡ rstrip (c ∷ s)
unfolding lstrip rstrip
lstrip-rstrip c s h = kept (rstrip s)
  where
    kept : (t : Text) → lstrip (keep_before c t) ≡ keep_before c t
    kept [] = rw h (rw h refl)
    kept (d ∷ t) = rw h refl

trim : (s : Text) → rstrip (lstrip (rstrip (lstrip s))) ≡ rstrip (lstrip s)
unfolding lstrip
trim [] = unfold rstrip in refl
trim (c ∷ s) = elim (Bool-cases (is_space c)) [
  | inl p ↦ rw p (trim s)
  | inr p ↦ rw p (ap rstrip (lstrip-rstrip c s p) ∙ rstrip-rstrip (c ∷ s))
]

pub strip-strip : (s : Text) → strip (strip s) ≡ strip s
unfolding strip
strip-strip s = trim s
