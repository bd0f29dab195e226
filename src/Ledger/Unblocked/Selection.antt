-- ===== src/Ledger/Unblocked/Selection.antt =====
-- A selected record agrees with its row, so the statuses allow the issue that it names.
use deviatdd.Prelude.{
  String, ◌≡◌, refl, sym, ap, ◌∙◌, subst, true, Option, none, some, List, [], ◌∷◌, All, all, arith,
  str_eq, str_eq→eq, select, Bool-cases, inl, inr, >>=-eq-some, some_inj, &&-true,
}
use mathlib.Core.Bool.{false≢true}
use deviatdd.Ledger.Rows.{Json, Items, Row, get, lookup, str, array, nil, cons, null}
use deviatdd.Ledger.Issues.{IssueRecord, Clock, validate_issue, required_text, list_field, texts}
use deviatdd.Ledger.Issues.Valid.{validate_issue-Agrees}
use deviatdd.Ledger.Unblocked.{
  put, find, status_map, is_typed, key_of, put_issue, issue_entry, issue_map_from, dependency_ids,
  blocked_by, status_or, is_candidate, validate_all,
}
use deviatdd.Ledger.Unblocked.Statuses.{latest_status, find-status_map}

-- The statuses allow the issue: its own is BACKLOG, or absent, and each blocker's is COMPLETED.
pub record Eligible (records : List Row) (c : IssueRecord) : Type 0 where
  pub backlog : status_or "BACKLOG" (latest_status c.issue_id records) ≡ "BACKLOG"
  pub unblocked : All (λ dep. latest_status dep records ≡ some "COMPLETED") c.blocked_by

abbrev IsKeyed : String × Row → Type 0
IsKeyed (k, row) = key_of row ≡ some k

put-IsKeyed :
    (k : String) (row : Row) (m : List (String × Row))
    → key_of row ≡ some k
    → All IsKeyed m
    → All IsKeyed (put k row m)
unfolding put
put-IsKeyed k row [] e h = (e, h)
put-IsKeyed k row ((j, r) ∷ m) e h = ground (arith, put-IsKeyed k row m e h.1)

put_issue-IsKeyed :
    (o : Option String) (row : Row) (m after : List (String × Row))
    → key_of row ≡ o
    → All IsKeyed m
    → put_issue o row m ≡ some after
    → All IsKeyed after
put_issue-IsKeyed none row m after e h p = cc
put_issue-IsKeyed (some k) row m after e h p =
    subst (All IsKeyed) (some_inj p) (put-IsKeyed k row m e h)

issue_entry-IsKeyed :
    (row : Row) (m after : List (String × Row))
    → All IsKeyed m
    → issue_entry row m ≡ some after
    → All IsKeyed after
unfolding issue_entry
issue_entry-IsKeyed row m after h p = elim (Bool-cases (is_typed row)) [
  | inl t ↦ put_issue-IsKeyed (key_of row) row m after refl h (rw t at p)
  | inr t ↦ subst (All IsKeyed) (some_inj (rw t at p)) h
]

pub issue_map_from-IsKeyed :
    (rows : List Row) (m issues : List (String × Row))
    → All IsKeyed m
    → issue_map_from m rows ≡ some issues
    → All IsKeyed issues
unfolding issue_map_from
issue_map_from-IsKeyed [] m issues h e = subst (All IsKeyed) (some_inj e) h
issue_map_from-IsKeyed (row ∷ rows) m issues h e =
    let (m', p, q) = >>=-eq-some (issue_entry row m) (λ m'. issue_map_from m' rows) e in
    issue_map_from-IsKeyed rows m' issues (issue_entry-IsKeyed row m m' h p) q

pub lookup-get : (k : String) (row : Row) {v : Json} → lookup k row ≡ some v → get k row ≡ v
unfolding lookup get
lookup-get k [] h = cc
lookup-get k ((j, w) ∷ row) {v} h = elim (Bool-cases (str_eq j k)) [
  | inl p ↦ ground arith
  | inr p ↦ ground (arith, lookup-get k row {v = v})
]

pub lookup-none : (k : String) (row : Row) → lookup k row ≡ none → get k row ≡ null
unfolding lookup get
lookup-none k [] h = refl
lookup-none k ((j, w) ∷ row) h = ground (arith, lookup-none k row)

required_text-some : (o : Option Json) (s : String) → required_text o ≡ some s → o ≡ some (str s)
required_text-some (some (str t)) s h = ground arith
required_text-some _ s h = cc

texts-dependency_ids : (vs : Items) (ss : List String) → texts vs ≡ some ss → dependency_ids vs ≡ ss
texts-dependency_ids nil ss h = ground arith
texts-dependency_ids (cons (str s) vs) ss h =
    let (rest, p, q) = >>=-eq-some (texts vs) (λ rest. some (s ∷ rest)) h in
    ap (λ (l : List String). s ∷ l) (texts-dependency_ids vs rest p) ∙ some_inj q
texts-dependency_ids (cons _ vs) ss h = cc

key_of_text : (row : Row) (s : String) → get "issue_id" row ≡ str s → key_of row ≡ some s
key_of_text row s h = rw (h, key_of)

blocked_by_list :
    (row : Row) (o : Option Json) (ss : List String)
    → lookup "blocked_by" row ≡ o
    → list_field o ≡ some ss
    → blocked_by row ≡ ss
blocked_by_list row none ss p h = rw (lookup-none "blocked_by" row p) (ground arith)
blocked_by_list row (some (array vs)) ss p h =
    rw (lookup-get "blocked_by" row p) (texts-dependency_ids vs ss h)
blocked_by_list row (some _) ss p h = cc

-- The key and the blockers of a valid record are those that the statuses were looked up by.
valid_key :
    (clock : Clock) (k : String) (row : Row) (c : IssueRecord)
    → key_of row ≡ some k
    → validate_issue clock row ≡ some c
    → (c.issue_id ≡ k) × (blocked_by row ≡ c.blocked_by)
valid_key clock k row c e h =
    let a = validate_issue-Agrees clock row c h in
    let id_text = lookup-get "issue_id" row (required_text-some _ c.issue_id a.issue_id) in
    (
      some_inj (sym (key_of_text row c.issue_id id_text) ∙ e),
      blocked_by_list row _ c.blocked_by refl a.blocked_by,
    )

completed_text :
    (o : Option String) → str_eq (status_or "UNKNOWN" o) "COMPLETED" ≡ true → o ≡ some "COMPLETED"
completed_text none h = absurd (false≢true h)
completed_text (some s) h = ap some (str_eq→eq s "COMPLETED" h)

all_completed :
    (records : List Row) (deps : List String)
    → all (λ dep. str_eq (status_or "UNKNOWN" (find dep (status_map records))) "COMPLETED") deps
      ≡ true
    → All (λ dep. latest_status dep records ≡ some "COMPLETED") deps
all_completed records [] h = tt
all_completed records (dep ∷ deps) h =
    let (first, rest) = &&-true _ _ h in
    (sym (find-status_map dep records) ∙ completed_text _ first, all_completed records deps rest)

candidate-Eligible :
    (clock : Clock) (records : List Row) (k : String) (row : Row) (c : IssueRecord)
    → key_of row ≡ some k
    → is_candidate (status_map records) (k, row) ≡ true
    → validate_issue clock row ≡ some c
    → Eligible records c
unfolding is_candidate
candidate-Eligible clock records k row c e h v =
    let (id_eq, deps_eq) = valid_key clock k row c e v in
    let (open_status, deps) = &&-true _ _ h in
    record {
      backlog = rw (id_eq, ← find-status_map) (str_eq→eq _ "BACKLOG" open_status);
      unblocked =
          subst (All (λ dep. latest_status dep records ≡ some "COMPLETED")) deps_eq
            (all_completed records (blocked_by row) deps);
    }

pub issue_map-Eligible :
    (clock : Clock) (records : List Row) (issues : List (String × Row)) (cs : List IssueRecord)
    → All IsKeyed issues
    → validate_all clock (select (is_candidate (status_map records)) issues) ≡ some cs
    → All (Eligible records) cs
unfolding validate_all
issue_map-Eligible clock records [] cs h v = subst (All (Eligible records)) (some_inj v) tt
issue_map-Eligible clock records ((k, row) ∷ issues) cs h v =
    elim (Bool-cases (is_candidate (status_map records) (k, row))) [
      | inr skipped ↦ issue_map-Eligible clock records issues cs h.1 (rw skipped at v)
      | inl taken ↦
          let (c, valid, v') = >>=-eq-some (validate_issue clock row) _ (rw taken at v) in
          let (rest, others, done) = >>=-eq-some _ _ v' in
          subst (All (Eligible records)) {x = c ∷ rest} (some_inj done) (
            candidate-Eligible clock records k row c h.0 taken valid,
            issue_map-Eligible clock records issues rest h.1 others,
          )
    ]
