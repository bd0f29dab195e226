-- ===== src/Micro/Statuses/Latest.antt =====
-- The records that `_collect_latest_task_records` keeps are the last ones of their keys.
use deviatdd.Prelude.{
  Bool, true, false, Option, none, some, List, [], ◌∷◌, if◌then◌else◌, ◌≡◌, refl, sym, ap, ◌∙◌,
  arith, str_eq→eq, str_eq_refl, Bool-cases, if-cases, subst, inl, inr,
}
use deviatdd.Ledger.Rows.{Row, json_eq→eq, json_eq_refl}
use deviatdd.Ledger.Append.View.{or_later, or_later_assoc}
use deviatdd.Micro.Statuses.{Key, same_key, key_of, put_latest, put_record, collect_from}

unfoldable pub find_latest : Key → List (Key × Row) → Option Row
find_latest k [] = none
find_latest k ((j, rec) ∷ latest) =
    let rest = find_latest k latest in if same_key j k then some rec else rest

same_key_refl : (k : Key) → same_key k k ≡ true
same_key_refl k = ground (arith, json_eq_refl k.0, str_eq_refl k.1)

pub same_key→eq : (k j : Key) → same_key k j ≡ true → k ≡ j
same_key→eq (a, b) (c, d) h =
    let p = json_eq→eq a c (ground arith) in let q = str_eq→eq b d (ground arith) in λ i. (p i, q i)

found :
    {A : Type 0}
    → (b : Bool) {c : Bool} → (x y z : A) → c ≡ b
    → (if b then x else z) ≡ (if b then x else (if c then y else z))
found true x y z h = refl
found false x y z h = sym (rw h refl)

conflict :
    (i j k : Key) → same_key i k ≡ false → same_key i j ≡ true → same_key k j ≡ true → true ≡ false
conflict i j k h p q = sym (ap (λ x. same_key i x) (same_key→eq k j q) ∙ p) ∙ h

kept :
    {A : Type 0}
    → (b c : Bool) (x y z rest : A) → (b ≡ true → c ≡ true → true ≡ false)
    → rest ≡ (if c then y else z)
    → (if b then x else rest) ≡ (if c then y else (if b then x else z))
kept false c x y z rest h e = e
kept true false x y z rest h e = refl
kept true true x y z rest h e = let p = h refl refl in cc

find-put_latest :
    (k j : Key) (rec : Row) (latest : List (Key × Row))
    → find_latest j (put_latest k rec latest)
      ≡ (if same_key k j then some rec else find_latest j latest)
unfolding find_latest put_latest
find-put_latest k j rec [] = refl
find-put_latest k j rec ((i, old) ∷ latest) = elim (Bool-cases (same_key i k)) [
  | inl h ↦ rw h (found (same_key k j) _ _ _ (ap (λ x. same_key x j) (same_key→eq i k h)))
  | inr h ↦ rw h (
      kept (same_key i j) (same_key k j) _ _ _ _ (conflict i j k h)
        (find-put_latest k j rec latest))
]

-- The last record with a key.
abbrev pub at_key : Key → Option Key → Row → Option Row
at_key k none rec = none
at_key k (some j) rec = if same_key j k then some rec else none

abbrev pub last_with : Key → List Row → Option Row
last_with k [] = none
last_with k (rec ∷ recs) = or_later (at_key k (key_of rec) rec) (last_with k recs)

find-put_record :
    (k : Key) (j : Option Key) (rec : Row) (latest : List (Key × Row))
    → find_latest k (put_record j rec latest) ≡ or_later (find_latest k latest) (at_key k j rec)
find-put_record k none rec latest = refl
find-put_record k (some j) rec latest =
    find-put_latest j k rec latest ∙ later_if (same_key j k) rec (find_latest k latest)
  where
    later_if :
        (b : Bool) (r : Row) (o : Option Row)
        → (if b then some r else o) ≡ or_later o (if b then some r else none)
    later_if true r o = refl
    later_if false r o = refl

-- The record that is kept for a key is the last one.
pub find-collect_from :
    (k : Key) (latest : List (Key × Row)) (recs : List Row)
    → find_latest k (collect_from latest recs) ≡ or_later (find_latest k latest) (last_with k recs)
unfolding collect_from
find-collect_from k latest [] = refl
find-collect_from k latest (rec ∷ recs) =
    find-collect_from k (put_record (key_of rec) rec latest) recs
    ∙ ap (λ (o : Option Row). or_later o (last_with k recs))
        (find-put_record k (key_of rec) rec latest)
    ∙ or_later_assoc (find_latest k latest) (at_key k (key_of rec) rec) (last_with k recs)

-- No key has two records, and every record stands under its own key.
abbrev IsOwn : Key → Row → Type 0
IsOwn k rec = key_of rec ≡ some k

abbrev pub IsMap : List (Key × Row) → Type 0
IsMap [] = Unit {0}
IsMap ((k, rec) ∷ latest) = IsOwn k rec × (find_latest k latest ≡ none) × IsMap latest

put_latest-IsMap :
    (k : Key) (rec : Row) (latest : List (Key × Row))
    → IsOwn k rec
    → IsMap latest
    → IsMap (put_latest k rec latest)
unfolding put_latest
put_latest-IsMap k rec [] own m = (own, unfold find_latest in refl, tt)
put_latest-IsMap k rec ((i, old) ∷ latest) own (mine, fresh, m) =
    if-cases IsMap (same_key i k) ((k, rec) ∷ latest) ((i, old) ∷ put_latest k rec latest)
      (λ h. (own, subst (λ x. find_latest x latest ≡ none) (same_key→eq i k h) fresh, m))
      (λ h. (
        mine,
        find-put_latest k i rec latest ∙ rw (apart k i h) fresh,
        put_latest-IsMap k rec latest own m,
      ))
  where
    apart : (k i : Key) → same_key i k ≡ false → same_key k i ≡ false
    apart k i h = elim (Bool-cases (same_key k i)) [
      | inl p ↦
          let q = sym (same_key_refl i) ∙ ap (λ x. same_key i x) (sym (same_key→eq k i p)) ∙ h in cc
      | inr p ↦ p
    ]

put_record-IsMap :
    (j : Option Key) (rec : Row) (latest : List (Key × Row))
    → key_of rec ≡ j
    → IsMap latest
    → IsMap (put_record j rec latest)
put_record-IsMap none rec latest own m = m
put_record-IsMap (some k) rec latest own m = put_latest-IsMap k rec latest own m

pub collect_from-IsMap :
    (latest : List (Key × Row)) (recs : List Row) → IsMap latest → IsMap (collect_from latest recs)
unfolding collect_from
collect_from-IsMap latest [] m = m
collect_from-IsMap latest (rec ∷ recs) m =
    collect_from-IsMap (put_record (key_of rec) rec latest) recs
      (put_record-IsMap (key_of rec) rec latest refl m)
