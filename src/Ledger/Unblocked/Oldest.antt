-- ===== src/Ledger/Unblocked/Oldest.antt =====
-- The order of the candidates, and `select_next_unblocked_issue`.
use deviatdd.Prelude.{
  ◌≤◌, ◌≡◌, subst, some, List, [], ◌∷◌, All, arith, select, Bool-cases, inl, inr, >>=-eq-some,
  some_inj, leb, leb→le,
}
use deviatdd.Ledger.Rows.{Row}
use deviatdd.Ledger.Issues.{IssueRecord, Clock}
use deviatdd.Ledger.Unblocked.{
  issue_map_from, is_candidate, validate_all, status_map, insert_by_created, sort_by_created,
  select_unblocked_candidates, head?, select_next_unblocked_issue,
}
use deviatdd.Ledger.Unblocked.Selection.{Eligible, issue_map-Eligible, issue_map_from-IsKeyed}

abbrev pub IsOldest : IssueRecord → List IssueRecord → Type 0
IsOldest r cs = All (λ c. r.created_at ≤ c.created_at) cs

abbrev pub IsSorted : List IssueRecord → Type 0
IsSorted [] = Unit
IsSorted (r ∷ rs) = IsOldest r rs × IsSorted rs

insert-All :
    (P : IssueRecord → Type 0) (r : IssueRecord) (rs : List IssueRecord)
    → P r
    → All P rs
    → All P (insert_by_created r rs)
unfolding insert_by_created
insert-All P r [] p h = (p, tt)
insert-All P r (s ∷ rs) p h = elim (Bool-cases (leb r.created_at s.created_at)) [
  | inl e ↦ rw e (p, (h.0, h.1))
  | inr e ↦ rw e (h.0, insert-All P r rs p h.1)
]

sort-All :
    (P : IssueRecord → Type 0) (rs : List IssueRecord) → All P rs → All P (sort_by_created rs)
unfolding sort_by_created
sort-All P [] h = tt
sort-All P (r ∷ rs) h = insert-All P r (sort_by_created rs) h.0 (sort-All P rs h.1)

older :
    (r s : IssueRecord) (rs : List IssueRecord)
    → r.created_at ≤ s.created_at
    → IsOldest s rs
    → IsOldest r rs
older r s [] p h = tt
older r s (c ∷ rs) p h = (omega (arith, h.0), older r s rs p h.1)

insert-IsSorted :
    (r : IssueRecord) (rs : List IssueRecord) → IsSorted rs → IsSorted (insert_by_created r rs)
unfolding insert_by_created
insert-IsSorted r [] h = (tt, tt)
insert-IsSorted r (s ∷ rs) h = elim (Bool-cases (leb r.created_at s.created_at)) [
  | inl e ↦
      let le = leb→le r.created_at s.created_at e in rw e ((le, older r s rs le h.0), (h.0, h.1))
  | inr e ↦ rw e (
    insert-All (λ c. s.created_at ≤ c.created_at) r rs (ground arith) h.0,
    insert-IsSorted r rs h.1,
  )
]

sort-IsSorted : (rs : List IssueRecord) → IsSorted (sort_by_created rs)
unfolding sort_by_created
sort-IsSorted [] = tt
sort-IsSorted (r ∷ rs) = insert-IsSorted r (sort_by_created rs) (sort-IsSorted rs)

-- When the selection returns, every candidate is eligible by the statuses of the whole ledger, and
-- the candidates stand in the order of their creation.
pub select_unblocked_candidates_lem :
    (clock : Clock) (records : List Row) (cs : List IssueRecord)
    → select_unblocked_candidates clock records ≡ some cs
    → All (Eligible records) cs × IsSorted cs
unfolding select_unblocked_candidates
select_unblocked_candidates_lem clock records cs h =
    let (issues, p, h') = >>=-eq-some (issue_map_from [] records) _ h in
    let (found, q, done) =
      >>=-eq-some (validate_all clock (select (is_candidate (status_map records)) issues)) _ h' in
    let keyed = issue_map_from-IsKeyed records [] issues tt p in
    subst (λ l. All (Eligible records) l × IsSorted l) (some_inj done)
      (
        sort-All (Eligible records) found (issue_map-Eligible clock records issues found keyed q),
        sort-IsSorted found,
      )

head-first :
    (P : IssueRecord → Type 0) (cs : List IssueRecord) (r : IssueRecord)
    → head? cs ≡ some r
    → All P cs
    → IsSorted cs
    → P r × IsOldest r cs
head-first P [] r h p o = cc
head-first P (c ∷ cs) r h p o =
    subst (λ x. P x × IsOldest x (c ∷ cs)) (some_inj h) (p.0, (omega arith, o.0))

-- The issue that is selected next is eligible by the statuses of the whole ledger, and no candidate
-- is older.
pub select_next_unblocked_issue-IsOldest :
    (clock : Clock) (records : List Row) (r : IssueRecord)
    → select_next_unblocked_issue clock records ≡ some (some r)
    → (cs : List IssueRecord) × (select_unblocked_candidates clock records ≡ some cs)
      × Eligible records r
      × IsOldest r cs
unfolding select_next_unblocked_issue
select_next_unblocked_issue-IsOldest clock records r h =
    let (cs, p, h') = >>=-eq-some (select_unblocked_candidates clock records) _ h in
    let (eligible, sorted) = select_unblocked_candidates_lem clock records cs p in
    let (ok, oldest) = head-first (Eligible records) cs r (some_inj h') eligible sorted in
    (cs, p, ok, oldest)
