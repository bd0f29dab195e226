-- ===== src/Ledger/Append/View.antt =====
-- What a reader of a ledger sees: the latest row of a kind, and whether there is one.
use deviatdd.Prelude.{
  String, ◌≡◌, refl, sym, Bool, true, false, Option, none, some, List, [], ◌∷◌, ◌++◌, ◌||◌, ◌&&◌,
  not, arith, if◌then◌else◌, &&-intro,
}
use deviatdd.Ledger.Rows.{Row, get, json_eq_refl, Line, scalar, row}
use deviatdd.Ledger.Append.{agrees}

abbrev pub or_later : Option Row → Option Row → Option Row
or_later r none = r
or_later r (some s) = some s

abbrev matching : (Row → Bool) → Line → Option Row
matching p (row r) = if p r then some r else none
matching p _ = none

-- The last row that satisfies `p`.
unfoldable pub latest_where : (Row → Bool) → List Line → Option Row
latest_where p [] = none
latest_where p (l ∷ ls) = or_later (matching p l) (latest_where p ls)

pub none-or_later : (a : Option Row) → or_later none a ≡ a
none-or_later none = refl
none-or_later (some a) = refl

pub or_later_assoc : (a b c : Option Row) → or_later (or_later a b) c ≡ or_later a (or_later b c)
or_later_assoc a b none = refl
or_later_assoc a b (some c) = refl

pub latest_where-append :
    (p : Row → Bool) (ls ms : List Line)
    → latest_where p (ls ++ ms) ≡ or_later (latest_where p ls) (latest_where p ms)
unfolding latest_where
latest_where-append p [] ms = sym (none-or_later (latest_where p ms))
latest_where-append p (l ∷ ls) ms =
    rw (latest_where-append p ls ms)
      (sym (or_later_assoc (matching p l) (latest_where p ls) (latest_where p ms)))

pub latest_where-append_row :
    (p : Row → Bool) (ls : List Line) (r : Row)
    → p r ≡ true
    → latest_where p (ls ++ row r ∷ []) ≡ some r
latest_where-append_row p ls r h =
    rw (latest_where-append p ls (row r ∷ [])) (unfold latest_where in rw h)

pub agrees_refl : (keys : List String) (r : Row) → agrees keys r r ≡ true
unfolding agrees
agrees_refl [] r = refl
agrees_refl (k ∷ ks) r = &&-intro (json_eq_refl (get k r)) (agrees_refl ks r)

abbrev holds : (Row → Bool) → Line → Bool
holds p (row r) = p r
holds p _ = false

-- Whether some row satisfies `p`.
unfoldable pub has_row : (Row → Bool) → List Line → Bool
has_row p [] = false
has_row p (l ∷ ls) = holds p l || has_row p ls

pub has_row-append :
    (p : Row → Bool) (ls ms : List Line) → has_row p (ls ++ ms) ≡ has_row p ls || has_row p ms
unfolding has_row
has_row-append p [] ms = refl
has_row-append p (l ∷ ls) ms = ground (arith, has_row-append p ls ms)

abbrev is_scalar : Line → Bool
is_scalar scalar = true
is_scalar _ = false

-- No line is JSON without being an object.
unfoldable pub readable : List Line → Bool
readable [] = true
readable (l ∷ ls) = not (is_scalar l) && readable ls

pub readable-append_row : (ls : List Line) (r : Row) → readable (ls ++ row r ∷ []) ≡ readable ls
unfolding readable
readable-append_row [] r = refl
readable-append_row (l ∷ ls) r = ground (arith, readable-append_row ls r)
