-- ===== src/Ledger/Append/Scan.antt =====
-- What the scan of `_append_with_compound_key` decides, in terms of the rows that are there.
use deviatdd.Prelude.{
  String, ◌≡◌, refl, Bool, true, false, Option, none, some, List, [], ◌∷◌, arith, if◌then◌else◌,
}
use deviatdd.Ledger.Rows.{Row, Line, blank, malformed, scalar, row}
use deviatdd.Ledger.Append.{agrees, scope_fields, duplicate, crashed, finished, scan_row, scan}
use deviatdd.Ledger.Append.View.{latest_where, has_row, readable}

-- Whether the latest row, if any, agrees on all the keys.
abbrev pub matches_latest : List String → Row → Bool → Option Row → Bool
matches_latest keys new before none = before
matches_latest keys new before (some r) = agrees keys new r

-- In the latest-only mode the loop reads every line, and compares the latest row in scope.
pub scan_latest_lem :
    (keys : List String) (new : Row) (ls : List Line) (before : Bool)
    → scan true keys new before ls ≡ (
        if readable ls
        then finished
            (matches_latest keys new before (latest_where (agrees (scope_fields keys) new) ls))
        else crashed)
unfolding scan scan_row latest_where readable
scan_latest_lem keys new [] before = refl
scan_latest_lem keys new (blank ∷ ls) before = ground (arith, scan_latest_lem keys new ls before)
scan_latest_lem keys new (malformed ∷ ls) before =
    ground (arith, scan_latest_lem keys new ls before)
scan_latest_lem keys new (scalar ∷ ls) before = refl
scan_latest_lem keys new (row r ∷ ls) before =
    ground
      (arith, scan_latest_lem keys new ls before, scan_latest_lem keys new ls (agrees keys new r))

-- In the history mode the loop runs to its end if no row agrees on all the keys, and returns early
-- if one does.
pub scan_history_lem :
    (keys : List String) (new : Row) (ls : List Line)
    → readable ls ≡ true
    → scan false keys new false ls
      ≡ (if has_row (agrees keys new) ls then duplicate else finished false)
unfolding scan scan_row has_row readable
scan_history_lem keys new [] h = refl
scan_history_lem keys new (blank ∷ ls) h = scan_history_lem keys new ls h
scan_history_lem keys new (malformed ∷ ls) h = scan_history_lem keys new ls h
scan_history_lem keys new (scalar ∷ ls) h = cc
scan_history_lem keys new (row r ∷ ls) h = ground (arith, scan_history_lem keys new ls)
