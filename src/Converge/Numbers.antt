-- ===== src/Converge/Numbers.antt =====
-- A task id that passes validation carries the number it was made from.
use deviatdd.Prelude.{
  ℕ, zero, suc, Bool, true, false, ◌&&◌, none, some, [], ◌∷◌, ◌++◌, all, drop, select, ltb,
  if◌then◌else◌, ◌+◌, ◌-◌, ◌*◌, ◌/◌, ◌%◌, ◌≡◌, refl, sym, ap, ◌∙◌, arith, Bool-cases, if-cases, inl,
  inr, &&-intro, &&-true,
}
use deviatdd.Prelude.Text.{Text, codes, strip, is_digit}
use deviatdd.Converge.Ids.{trailing_digits, or_whole, zfill, decimal, format_task_id}
use deviatdd.Ledger.TaskId.{number_at, number_here, is_task_id, ends_line, is_some}

abbrev Digits : Text → Type 0
Digits s = all is_digit s ≡ true

select-Digits : (s : Text) → Digits (select is_digit s)
select-Digits [] = refl
select-Digits (c ∷ s) =
    if-cases Digits (is_digit c) (c ∷ select is_digit s) (select is_digit s)
      (λ h. &&-intro h (select-Digits s)) (λ h. select-Digits s)

append-Digits : (s t : Text) → Digits s → Digits t → Digits (s ++ t)
append-Digits [] t h k = k
append-Digits (c ∷ s) t h k =
    let parts = &&-true (is_digit c) (all is_digit s) h in
    &&-intro parts.0 (append-Digits s t parts.1 k)

last_digit : (n : ℕ) → is_digit (b'0' + n % 10) ≡ true
last_digit n = ground arith

decimal-Digits : (f n : ℕ) → Digits (decimal f n)
unfolding decimal
decimal-Digits zero n = refl
decimal-Digits (suc f) n =
    append-Digits (if ltb n 10 then [] else decimal f (n / 10)) ((b'0' + n % 10) ∷ [])
      (if-cases Digits (ltb n 10) [] (decimal f (n / 10)) (λ h. refl)
        (λ h. decimal-Digits f (n / 10)))
      (&&-intro (last_digit n) refl)

number_here-id : (s : Text) → number_here (codes "TSK-" ++ s) ≡ number_at s
unfolding number_here
number_here-id s = refl

-- A digit where the dash should be.
number_at-digit :
    (a b c d : ℕ) (s : Text) → is_digit d ≡ true → number_at (a ∷ b ∷ c ∷ d ∷ s) ≡ none
number_at-digit a b c d [] h = refl
number_at-digit a b c d (e ∷ []) h = refl
number_at-digit a b c d (e ∷ f ∷ s) h = ground arith

ends_line-digit : (p : Text) (v : ℕ) → is_digit v ≡ true → ends_line (p ++ v ∷ []) ≡ false
ends_line-digit [] v h = ground arith
ends_line-digit (c ∷ []) v h = refl
ends_line-digit (c ∷ d ∷ p) v h = refl

not_both : (x : Bool) → x && false ≡ true → true ≡ false
not_both true h = sym h
not_both false h = sym h

taken :
    (b : Bool) (n : ℕ)
    → is_some (if b then some n else none) && true ≡ true
    → (if b then some n else none) ≡ some n
taken true n h = refl
taken false n h = cc

abbrev tail_of : ℕ → ℕ → ℕ → Text → Text → ℕ → ℕ → Text
tail_of a b c r p u v = a ∷ b ∷ c ∷ (r ++ b'-' ∷ (p ++ u ∷ v ∷ []))

abbrev ok_tail : Text → Bool
ok_tail s = is_some (number_at s) && ends_line (drop 6 s)

abbrev Reads : Text → Text → ℕ → ℕ → Type 0
Reads s p u v = (number_at s ≡ some (10 * (u - b'0') + (v - b'0'))) × (p ≡ [])

tail_lem :
    (a b c : ℕ) (r p : Text) (u v : ℕ)
    → Digits r
    → is_digit v ≡ true
    → ok_tail (tail_of a b c r p u v) ≡ true
    → Reads (tail_of a b c r p u v) p u v
tail_lem a b c (d ∷ r) p u v h k ok =
    let e = number_at-digit a b c d (r ++ b'-' ∷ (p ++ u ∷ v ∷ [])) (&&-true (is_digit d) _ h).0 in
    let no : true ≡ false =
      sym ok ∙ ap (λ x. is_some x && ends_line (drop 6 (tail_of a b c (d ∷ r) p u v))) e in
    cc
tail_lem a b c [] [] u v h k ok = (taken _ _ ok, refl)
tail_lem a b c [] (q ∷ []) u v h k ok =
    let no : true ≡ false = not_both _ (
      sym (
        ap (λ x. is_some (number_at (tail_of a b c [] (q ∷ []) u v)) && x) (ends_line-digit [] v k))
      ∙ ok) in
    cc
tail_lem a b c [] (q ∷ q2 ∷ []) u v h k ok = let no = not_both _ ok in cc
tail_lem a b c [] (q ∷ q2 ∷ x ∷ []) u v h k ok = let no = not_both _ ok in cc
tail_lem a b c [] (q ∷ q2 ∷ x ∷ y ∷ p) u v h k ok = let no = not_both _ ok in cc

decimal-nonempty : (f n : ℕ) → decimal (suc f) n ≡ [] → true ≡ false
unfolding decimal
decimal-nonempty f n h = snoc_nonempty (if ltb n 10 then [] else decimal f (n / 10)) _ h
  where
    snoc_nonempty : (s : Text) (x : ℕ) → s ++ x ∷ [] ≡ [] → true ≡ false
    snoc_nonempty [] x h = cc
    snoc_nonempty (c ∷ s) x h = cc

abbrev prefix_of : ℕ → Text
prefix_of n = if ltb n 100 then [] else decimal n (n / 100)

small : (n : ℕ) → prefix_of n ≡ [] → ltb n 100 ≡ true
small n h = elim (Bool-cases (ltb n 100)) [ inl p ↦ p | inr p ↦ large n p (sym (rw p refl) ∙ h) ]
  where
    large : (n : ℕ) → ltb n 100 ≡ false → decimal n (n / 100) ≡ [] → ltb n 100 ≡ true
    large zero p h = refl
    large (suc n) p h = let q = decimal-nonempty n (suc n / 100) h in cc

two_values :
    (n : ℕ) → ltb n 100 ≡ true → 10 * ((b'0' + (n / 10) % 10) - b'0') + ((b'0' + n % 10) - b'0') ≡ n
two_values n h = ground arith

zfill-Digits : (s : Text) → Digits s → Digits (zfill s)
zfill-Digits [] h = refl
zfill-Digits (a ∷ []) h = h
zfill-Digits (a ∷ b ∷ []) h = h
zfill-Digits (a ∷ b ∷ c ∷ s) h = h

abbrev index_text : ℕ → Text
index_text n = prefix_of n ++ (b'0' + (n / 10) % 10) ∷ (b'0' + n % 10) ∷ []

after_ordinal :
    (a b c : ℕ) (r : Text) (n : ℕ)
    → Digits r
    → ok_tail (a ∷ b ∷ c ∷ (r ++ b'-' ∷ index_text n)) ≡ true
    → number_at (a ∷ b ∷ c ∷ (r ++ b'-' ∷ index_text n)) ≡ some n
after_ordinal a b c r n h ok =
    let reads = tail_lem a b c r (prefix_of n) _ _ h (last_digit n) ok in
    reads.0 ∙ ap some (two_values n (small n reads.1))

with_ordinal :
    (s : Text) (n : ℕ)
    → Digits s
    → ok_tail (zfill s ++ b'-' ∷ index_text n) ≡ true
    → number_at (zfill s ++ b'-' ∷ index_text n) ≡ some n
with_ordinal [] n h ok = after_ordinal b'0' b'0' b'0' [] n refl ok
with_ordinal (a ∷ []) n h ok = after_ordinal b'0' b'0' a [] n refl ok
with_ordinal (a ∷ b ∷ []) n h ok = after_ordinal b'0' a b [] n refl ok
with_ordinal (a ∷ b ∷ c ∷ s) n h ok =
    after_ordinal a b c s n
      (&&-true (is_digit c) _ (&&-true (is_digit b) _ (&&-true (is_digit a) _ h).1).1).1 ok

pub number_here-format_task_id :
    (issue_id : Text) (n : ℕ)
    → is_task_id (format_task_id issue_id n) ≡ true
    → number_here (format_task_id issue_id n) ≡ some n
unfolding is_task_id format_task_id number_here
number_here-format_task_id issue_id n ok =
    with_ordinal (select is_digit (or_whole (trailing_digits (strip issue_id)) (strip issue_id))) n
      (select-Digits (or_whole (trailing_digits (strip issue_id)) (strip issue_id))) ok
