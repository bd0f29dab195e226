-- ===== src/Ledger/Append.antt =====
-- The locked appends of state/ledger.py: the scan for a duplicate, and the row that is written. A
-- result is `none` where `.get` raises on a line that is JSON and no object; the file is then as it
-- was.
pub mod View
pub mod Scan
pub mod Latest
pub mod History
use deviatdd.Prelude.{
  String, Bool, true, false, Option, none, some, List, [], ◌∷◌, ◌++◌, all, if◌then◌else◌, ◌&&◌,
}
use deviatdd.Ledger.Rows.{Row, get, json_eq, Line, blank, malformed, scalar, row}

-- `all(data.get(k) == record_data.get(k) for k in fields)`
unfoldable pub agrees : List String → Row → Row → Bool
agrees keys new old = all (λ k. json_eq (get k old) (get k new)) keys

-- `key_fields[:-1]`
unfoldable pub scope_fields : List String → List String
scope_fields [] = []
scope_fields (k ∷ []) = []
scope_fields (k ∷ j ∷ ks) = k ∷ scope_fields (j ∷ ks)

-- How the loop over the lines ends.
pub data ScanEnd : Type 0 where
  duplicate crashed : ScanEnd
  finished : Bool → ScanEnd

-- One decoded row, in the two modes of the loop: the new value of `latest_row_matches`, or an early
-- return of False.
unfoldable pub scan_row : Bool → List String → Row → Bool → Row → Option Bool
unfolding agrees scope_fields
scan_row true keys new latest old =
    some (if agrees (scope_fields keys) new old then agrees keys new old else latest)
scan_row false keys new latest old = if agrees keys new old then none else some latest

unfoldable pub scan : Bool → List String → Row → Bool → List Line → ScanEnd
scan latest_only keys new latest [] = finished latest
scan latest_only keys new latest (blank ∷ ls) = scan latest_only keys new latest ls
scan latest_only keys new latest (malformed ∷ ls) = scan latest_only keys new latest ls
scan latest_only keys new latest (scalar ∷ ls) = crashed
scan latest_only keys new latest (row old ∷ ls) = elim (scan_row latest_only keys new latest old) [
  | none ↦ duplicate
  | some latest' ↦ scan latest_only keys new latest' ls
]

abbrev pub append_row : List Line → Row → List Line
append_row ledger new = ledger ++ row new ∷ []

unfoldable pub finish : Row → List Line → ScanEnd → Option (Bool × List Line)
finish new ledger crashed = none
finish new ledger duplicate = some (false, ledger)
finish new ledger (finished true) = some (false, ledger)
finish new ledger (finished false) = some (true, append_row ledger new)

-- `_append_with_compound_key`: what it returns, and the ledger after it.
unfoldable pub append_with_compound_key :
    Bool → List String → Row → List Line → Option (Bool × List Line)
unfolding scan scan_row finish
append_with_compound_key latest_only keys new ledger =
    finish new ledger (scan latest_only keys new false ledger)

-- `_append_record`: a row with this id anywhere in the file stops the append.
unfoldable pub append_record : String → Row → List Line → Option (Bool × List Line)
unfolding append_with_compound_key
append_record id_field new ledger = append_with_compound_key false (id_field ∷ []) new ledger

abbrev pub issue_keys : List String
issue_keys = "issue_id" ∷ "status" ∷ []

abbrev pub task_keys : List String
task_keys = "issue_id" ∷ "id" ∷ "status" ∷ []

abbrev pub snapshot_keys : List String
snapshot_keys = "phase" ∷ "commit_sha" ∷ []

unfoldable pub append_issue_transition : Row → List Line → Option (Bool × List Line)
unfolding append_with_compound_key
append_issue_transition = append_with_compound_key false issue_keys

unfoldable pub append_task_transition : Row → List Line → Option (Bool × List Line)
unfolding append_with_compound_key
append_task_transition = append_with_compound_key true task_keys

unfoldable pub append_rollback_snapshot : Row → List Line → Option (Bool × List Line)
unfolding append_with_compound_key
append_rollback_snapshot = append_with_compound_key false snapshot_keys

unfoldable pub append_issue_record : Row → List Line → Option (Bool × List Line)
unfolding append_record
append_issue_record = append_record "issue_id"

unfoldable pub append_task_record : Row → List Line → Option (Bool × List Line)
unfolding append_record
append_task_record = append_record "id"

-- `append_task_event` always writes.
unfoldable pub append_task_event : Row → List Line → List Line
append_task_event new ledger = append_row ledger new
