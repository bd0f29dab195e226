-- ===== src/Ledger/Issues/Resolve.antt =====
-- `resolve_issue_record`: COMPLETED is terminal, and is never made up.
use deviatdd.Prelude.{
  ℕ, ◌+◌, String, ◌≡◌, refl, Bool, true, false, ◌&&◌, ◌||◌, Option, none, some, List, [], ◌∷◌, any,
  arith,
}
use deviatdd.Ledger.Rows.{Row}
use deviatdd.Ledger.Issues.{
  IssueStatus, IssueRecord, completed, Clock, validate_issue, is_issue, is_completed, Round, stop,
  next, resolve_round, resolve_loop, reversed_onto, resolve_issue_record,
}

abbrev pub is_done : Option IssueRecord → Bool
is_done none = false
is_done (some r) = is_completed r.status

-- A row of the issue that is a valid record by itself, with the status COMPLETED.
abbrev pub completes : Clock → String → Row → Bool
completes clock issue_id row = is_issue issue_id row && is_done (validate_issue clock row)

abbrev stops_done : Round → Bool
stops_done (stop c) = is_completed c.status
stops_done (next fallback base) = false

module _ (clock : Clock) (issue_id : String) (everything : List (ℕ × Row)) where
  abbrev completes_at : ℕ × Row → Bool
  completes_at (i, row) = completes clock issue_id row

  round_done :
      (fallback base : Option IssueRecord) (i : ℕ) (row : Row)
      → completes clock issue_id row ≡ true
      → stops_done (resolve_round clock issue_id everything fallback base i row) ≡ true
  unfolding resolve_round
  round_done fallback base i row h = ground arith

  round_stops :
      (fallback base : Option IssueRecord) (i : ℕ) (row : Row) (c : IssueRecord)
      → resolve_round clock issue_id everything fallback base i row ≡ stop c
      → is_completed c.status ≡ true
  unfolding resolve_round
  round_stops fallback base i row c h = ground arith

  resolve_loop_done :
      (rest : List (ℕ × Row)) (fallback base : Option IssueRecord)
      → any completes_at rest ≡ true
      → is_done (resolve_loop clock issue_id everything fallback base rest) ≡ true
  unfolding resolve_loop
  resolve_loop_done [] fallback base h = cc
  resolve_loop_done ((i, row) ∷ rest) fallback base h =
      grind (arith, round_done, round_stops, resolve_loop_done rest)

any-reversed_onto :
    (clock : Clock) (issue_id : String) (i : ℕ) (rows : List Row) (acc : List (ℕ × Row))
    → any (completes_at clock issue_id []) (reversed_onto i rows acc)
      ≡ any (completes clock issue_id) rows || any (completes_at clock issue_id []) acc
unfolding reversed_onto
any-reversed_onto clock issue_id i [] acc = refl
any-reversed_onto clock issue_id i (r ∷ rows) acc =
    ground (arith, any-reversed_onto clock issue_id (i + 1) rows ((i, r) ∷ acc))

done_status : (s : IssueStatus) → is_completed s ≡ true → s ≡ completed
done_status completed h = refl
done_status _ h = cc

done_record :
    (o : Option IssueRecord)
    → is_done o ≡ true
    → (c : IssueRecord) × (o ≡ some c) × (c.status ≡ completed)
done_record none h = cc
done_record (some c) h = (c, refl, done_status c.status h)

-- If any row of the issue, wherever it stands in the ledger, is a valid record with the status
-- COMPLETED, then the resolved record has the status COMPLETED.
pub resolve_completed :
    (clock : Clock) (issue_id : String) (records : List Row)
    → any (completes clock issue_id) records ≡ true
    → (c : IssueRecord) × (resolve_issue_record clock issue_id records ≡ some c)
      × (c.status ≡ completed)
unfolding resolve_issue_record
resolve_completed clock issue_id records h =
    let everything = reversed_onto 0 records [] in
    done_record _ (
      resolve_loop_done clock issue_id everything everything none none
        (ground (arith, any-reversed_onto clock issue_id 0 records [])))
