-- ===== src/Review/Members.antt =====
-- Membership in lists of texts.
use deviatdd.Prelude.{
  Bool, true, false, not, ◌&&◌, ◌||◌, List, [], ◌∷◌, ◌++◌, all, select, &&-intro, &&-true,
  if◌then◌else◌, ◌≡◌, refl, sym, ap, ◌∙◌, arith, Bool-cases, inl, inr,
}
use deviatdd.Prelude.Text.{Text, text_eq, text_eq→eq, text_eq_refl}
use deviatdd.Judge.Evidence.{member, unique}
use deviatdd.Judge.Tokens.{find_ac_tokens, unique_ac_tokens}

pub member-append :
    (t : Text) (xs ys : List Text) → member t (xs ++ ys) ≡ member t xs || member t ys
member-append t [] ys = refl
member-append t (x ∷ xs) ys = ground (arith, member-append t xs ys)

at_equal : (t x : Text) (f : Text → Bool) → text_eq t x ≡ true → f x ≡ f t
at_equal t x f e = ap f (sym (text_eq→eq t x e))

pub member-select :
    (t : Text) (f : Text → Bool) (xs : List Text) → member t (select f xs) ≡ member t xs && f t
member-select t f [] = refl
member-select t f (x ∷ xs) =
    head_lem (f x)
    ∙ rw (member-select t f xs) (split (f x) (f t) (text_eq t x) (member t xs) (at_equal t x f))
  where
    head_lem :
        (b : Bool)
        → member t (if b then x ∷ select f xs else select f xs)
          ≡ (b && text_eq t x) || member t (select f xs)
    head_lem true = refl
    head_lem false = refl

    split : (a b e m : Bool) → (e ≡ true → a ≡ b) → (a && e) || (m && b) ≡ (e || m) && b
    split true b true m h = rw (sym (h refl)) refl
    split false b true m h = rw (sym (h refl)) (ground arith)
    split true b false m h = refl
    split false b false m h = refl

member-unique :
    (t : Text) (seen xs : List Text)
    → member t (unique seen xs) ≡ member t xs && not (member t seen)
unfolding unique
member-unique t seen [] = refl
member-unique t seen (x ∷ xs) =
    head_lem (member x seen)
    ∙ rw (member-unique t seen xs, member-unique t (x ∷ seen) xs)
        (split (member x seen) (member t seen) (text_eq t x) (member t xs)
          (at_equal t x (λ y. member y seen)))
  where
    head_lem :
        (b : Bool)
        → member t (if b then unique seen xs else x ∷ unique (x ∷ seen) xs) ≡ (
            if b then member t (unique seen xs) else text_eq t x || member t (unique (x ∷ seen) xs))
    head_lem true = refl
    head_lem false = refl

    split :
        (s n e m : Bool)
        → (e ≡ true → s ≡ n)
        → (if s then m && not n else e || (m && not (e || n))) ≡ (e || m) && not n
    split true n true m h = rw (sym (h refl)) (ground arith)
    split false n true m h = rw (sym (h refl)) refl
    split true n false m h = refl
    split false n false m h = refl

pub member-unique_ac_tokens :
    (t plan : Text) → member t (unique_ac_tokens plan) ≡ member t (find_ac_tokens plan)
unfolding unique_ac_tokens
member-unique_ac_tokens t plan = member-unique t [] (find_ac_tokens plan) ∙ and_true _
  where
    and_true : (b : Bool) → b && true ≡ b
    and_true true = refl
    and_true false = refl

pub all-member :
    (f : Text → Bool) (xs : List Text) (t : Text)
    → all f xs ≡ true
    → member t xs ≡ true
    → f t ≡ true
all-member f [] t h k = cc
all-member f (x ∷ xs) t h k =
    let parts = &&-true (f x) (all f xs) h in
    elim (Bool-cases (text_eq t x)) [
      | inl e ↦ ap f (text_eq→eq t x e) ∙ parts.0
      | inr e ↦ all-member f xs t parts.1 (ap (λ b. b || member t xs) (sym e) ∙ k)
    ]

pub member-all :
    (f : Text → Bool) (xs : List Text)
    → ((t : Text) → member t xs ≡ true → f t ≡ true)
    → all f xs ≡ true
member-all f [] h = refl
member-all f (x ∷ xs) h =
    &&-intro (h x (ap (λ b. b || member x xs) (text_eq_refl x)))
      (member-all f xs (λ t k. h t (ap (λ b. text_eq t x || b) k ∙ or_true (text_eq t x))))
  where
    or_true : (b : Bool) → b || true ≡ true
    or_true true = refl
    or_true false = refl

pub bool_ext : (a b : Bool) → (a ≡ true → b ≡ true) → (b ≡ true → a ≡ true) → a ≡ b
bool_ext true b h k = sym (h refl)
bool_ext false true h k = k refl
bool_ext false false h k = refl
