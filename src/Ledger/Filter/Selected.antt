-- ===== src/Ledger/Filter/Selected.antt =====
-- The rows that a filter selects.
use deviatdd.Prelude.{
  ℕ, zero, suc, String, Bool, true, false, List, [], ◌∷◌, all, select, take, drop, str_eq, ◌≡◌,
  refl, if-cases, &&-intro, &&-true,
}
use deviatdd.Ledger.Rows.{Row, str, get, json_eq}
use deviatdd.Ledger.Filter.{
  LedgerFilter, by_created_at, deduped_from, has_status, insert_row, sort_rows, filter_rows,
}

module _ (p : Row → Bool) where
  abbrev Each : List Row → Type 0
  Each rows = all p rows ≡ true

  take-Each : (n : ℕ) (rows : List Row) → Each rows → Each (take n rows)
  take-Each zero rows h = refl
  take-Each (suc n) [] h = refl
  take-Each (suc n) (r ∷ rows) h =
      let parts = &&-true (p r) (all p rows) h in &&-intro parts.0 (take-Each n rows parts.1)

  drop-Each : (n : ℕ) (rows : List Row) → Each rows → Each (drop n rows)
  drop-Each zero rows h = h
  drop-Each (suc n) [] h = refl
  drop-Each (suc n) (r ∷ rows) h = drop-Each n rows (&&-true (p r) (all p rows) h).1

  insert_row-Each :
      (f : LedgerFilter) (r : Row) (rows : List Row)
      → p r ≡ true
      → Each rows
      → Each (insert_row f r rows)
  unfolding insert_row
  insert_row-Each f r [] k h = &&-intro k refl
  insert_row-Each f r (s ∷ rows) k h =
      let parts = &&-true (p s) (all p rows) h in
      if-cases Each _ (r ∷ s ∷ rows) (s ∷ insert_row f r rows) (λ e. &&-intro k h)
        (λ e. &&-intro parts.0 (insert_row-Each f r rows k parts.1))

  sort_rows-Each : (f : LedgerFilter) (rows : List Row) → Each rows → Each (sort_rows f rows)
  unfolding sort_rows
  sort_rows-Each f [] h = refl
  sort_rows-Each f (r ∷ rows) h =
      let parts = &&-true (p r) (all p rows) h in
      insert_row-Each f r (sort_rows f rows) parts.0 (sort_rows-Each f rows parts.1)

  select-Each : (rows : List Row) → Each (select p rows)
  select-Each [] = refl
  select-Each (r ∷ rows) =
      if-cases Each (p r) (r ∷ select p rows) (select p rows) (λ e. &&-intro e (select-Each rows))
        (λ e. select-Each rows)

-- With a status filter, each row that is selected has that status.
pub filter_rows-has_status :
    (f : LedgerFilter) (records : List Row)
    → str_eq f.status_filter "" ≡ false
    → all (has_status f.status_filter) (filter_rows f records) ≡ true
unfolding filter_rows get json_eq
filter_rows-has_status f records h =
    let p = has_status f.status_filter in
    let rows = select p (deduped_from [] records) in
    rw h (
      take-Each p f.limit (drop f.offset (sort_rows f rows)) (
        drop-Each p f.offset (sort_rows f rows)
          (sort_rows-Each p f rows (select-Each p (deduped_from [] records)))))

abbrev row_with : String → Row
row_with status = ("id", str "TSK-001-01") ∷ ("status", str status) ∷ []

abbrev completed_only : LedgerFilter
completed_only = record {
  status_filter = "COMPLETED";
  limit = 20;
  offset = 0;
  sort_by = by_created_at;
  sort_desc = true;
}

-- A task that was PENDING and is COMPLETED is not among the COMPLETED ones.
test_stale : filter_rows completed_only (row_with "PENDING" ∷ row_with "COMPLETED" ∷ []) ≡ []
unfolding filter_rows get json_eq
test_stale = refl
