-- ===== src/Review/Coverage.antt =====
-- The rows that count for coverage: the last row of each task.
use deviatdd.Prelude.{
  String, Bool, true, false, not, ◌&&◌, ◌||◌, Option, none, some, List, [], ◌∷◌, any, str_eq,
  if◌then◌else◌, ◌≡◌, refl, ap, ◌∙◌, arith, eq_iff, Bool-cases, if-cases, inl, inr, str_eq→eq,
  subst,
}
use deviatdd.Ledger.Rows.{Row}
use deviatdd.Ledger.Unblocked.{put, find}
use deviatdd.Ledger.Unblocked.Statuses.{find-put}
use deviatdd.Review.{task_id_of, put_row, rows_from, latest_rows}

abbrev has_id : String → Option String → Bool
has_id task_id none = false
has_id task_id (some k) = str_eq task_id k

-- Whether a row of the task follows.
unfoldable pub recorded : String → List Row → Bool
recorded task_id [] = false
recorded task_id (rec ∷ recs) = has_id task_id (task_id_of rec) || recorded task_id recs

abbrev counts : (String → Row → Bool) → Option String → Row → List Row → Bool
counts p none rec recs = false
counts p (some task_id) rec recs = p task_id rec && not (recorded task_id recs)

-- Whether `p` holds for a row that no row of the same task follows.
unfoldable pub some_latest : (String → Row → Bool) → List Row → Bool
unfolding recorded
some_latest p [] = false
some_latest p (rec ∷ recs) = counts p (task_id_of rec) rec recs || some_latest p recs

Rows : Type 0
Rows = List (String × Row)

unfoldable IsMap : List (String × Row) → Type 0
IsMap [] = Unit {0}
IsMap ((k, rec) ∷ m) = (find k m ≡ none) × IsMap m

abbrev alive : (String → Row → Bool) → List Row → String × Row → Bool
alive p recs e = p e.0 e.1 && not (recorded e.0 recs)

abbrev apart : String → (String × Row → Bool) → String × Row → Bool
apart k f e = f e && not (str_eq e.0 k)

any_lem :
    (f g : String × Row → Bool) (m : List (String × Row))
    → ((e : String × Row) → f e ≡ g e)
    → any f m ≡ any g m
any_lem f g [] h = refl
any_lem f g (e ∷ m) h = rw (h e, any_lem f g m h) refl

off_head :
    (b : Bool) (k : Row) (r : Option Row)
    → (if b then some k else r) ≡ none
    → (b ≡ false) × (r ≡ none)
off_head true k r h = cc
off_head false k r h = (refl, h)

any-apart :
    (k : String) (f : String × Row → Bool) (m : List (String × Row))
    → find k m ≡ none
    → any f m ≡ any (apart k f) m
unfolding find
any-apart k f [] h = refl
any-apart k f ((j, rec) ∷ m) h =
    let parts = off_head (str_eq j k) rec (find k m) h in
    rw (parts.0, any-apart k f m parts.1) (drop_true (f (j, rec)) _)
  where
    drop_true : (b c : Bool) → b || c ≡ (b && true) || c
    drop_true false c = refl
    drop_true true c = refl

-- What a `put` does to a test of all entries.
any-put :
    (k : String) (rec : Row) (f : String × Row → Bool) (m : List (String × Row))
    → IsMap m
    → any f (put k rec m) ≡ f (k, rec) || any (apart k f) m
unfolding put IsMap
any-put k rec f [] h = refl
any-put k rec f ((i, old) ∷ m) (fresh, h) = elim (Bool-cases (str_eq i k)) [
  | inl e ↦ rw e (
      ap (λ b. f (k, rec) || b)
        (any-apart k f m (subst (λ x. find x m ≡ none) (str_eq→eq i k e) fresh)
          ∙ drop_false (f (i, old)) (any (apart k f) m)))
  | inr e ↦ rw (e, any-put k rec f m h) (swap (f (i, old)) (f (k, rec)) _)
]
  where
    drop_false : (b c : Bool) → c ≡ (b && false) || c
    drop_false false c = refl
    drop_false true c = refl

    swap : (a b c : Bool) → a || (b || c) ≡ b || ((a && true) || c)
    swap false b c = refl
    swap true false c = refl
    swap true true c = refl

put-IsMap : (k : String) (rec : Row) (m : List (String × Row)) → IsMap m → IsMap (put k rec m)
unfolding put IsMap find
put-IsMap k rec [] h = (refl, tt)
put-IsMap k rec ((i, old) ∷ m) (fresh, h) =
    if-cases IsMap (str_eq i k) ((k, rec) ∷ m) ((i, old) ∷ put k rec m)
      (λ e. (subst (λ x. find x m ≡ none) (str_eq→eq i k e) fresh, h))
      (λ e. (find-put k i rec m ∙ rw (differ k i e) fresh, put-IsMap k rec m h))
  where
    differ : (k i : String) → str_eq i k ≡ false → str_eq k i ≡ false
    differ k i e = ground (arith, eq_iff k i, eq_iff i k)

put_row-IsMap :
    (o : Option String) (rec : Row) (m : List (String × Row)) → IsMap m → IsMap (put_row o rec m)
put_row-IsMap none rec m h = h
put_row-IsMap (some k) rec m h = put-IsMap k rec m h

module _ (p : String → Row → Bool) where
  abbrev still : Option String → List Row → String × Row → Bool
  still o recs e = p e.0 e.1 && not (has_id e.0 o || recorded e.0 recs)

  step :
      (o : Option String) (rec : Row) (recs : List Row) (m : List (String × Row)) (z : Bool)
      → IsMap m
      → any (alive p recs) (put_row o rec m) || z
        ≡ any (still o recs) m || (counts p o rec recs || z)
  step none rec recs m z h = refl
  step (some k) rec recs m z h =
      ap (λ b. b || z)
        (any-put k rec (alive p recs) m h
          ∙ ap (λ b. alive p recs (k, rec) || b)
              (any_lem (apart k (alive p recs)) (still (some k) recs) m
                (λ e. reorder (p e.0 e.1) (recorded e.0 recs) (str_eq e.0 k))))
      ∙ swap (alive p recs (k, rec)) (any (still (some k) recs) m) z
    where
      reorder : (a b c : Bool) → (a && not b) && not c ≡ a && not (c || b)
      reorder false b c = refl
      reorder true false c = ground arith
      reorder true true c = ground arith

      swap : (a b c : Bool) → (a || b) || c ≡ b || (a || c)
      swap false false c = refl
      swap true false c = refl
      swap false true c = refl
      swap true true c = refl

  any-rows_from :
      (m : List (String × Row)) (recs : List Row)
      → IsMap m
      → any (λ e. p e.0 e.1) (rows_from m recs) ≡ any (alive p recs) m || some_latest p recs
  unfolding rows_from some_latest recorded
  any-rows_from m [] h =
      any_lem (λ e. p e.0 e.1) (alive p []) m (λ e. keep (p e.0 e.1)) ∙ drop_false _
    where
      keep : (b : Bool) → b ≡ b && true
      keep false = refl
      keep true = refl

      drop_false : (b : Bool) → b ≡ b || false
      drop_false false = refl
      drop_false true = refl
  any-rows_from m (rec ∷ recs) h =
      any-rows_from (put_row (task_id_of rec) rec m) recs (put_row-IsMap (task_id_of rec) rec m h)
      ∙ step (task_id_of rec) rec recs m (some_latest p recs) h

  pub any-latest_rows :
      (recs : List Row) → any (λ e. p e.0 e.1) (latest_rows recs) ≡ some_latest p recs
  unfolding latest_rows IsMap
  any-latest_rows recs = any-rows_from [] recs tt
