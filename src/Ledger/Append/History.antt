-- ===== src/Ledger/Append/History.antt =====
-- `_append_with_compound_key` over the whole history, which issues, snapshots and first rows use.
use deviatdd.Prelude.{
  String, ◌≡◌, refl, Bool, true, false, not, some, List, [], ◌∷◌, ◌++◌, arith, if◌then◌else◌, ◌&&◌,
  append-nil, append_assoc,
}
use deviatdd.Ledger.Rows.{Row, Line, row}
use deviatdd.Ledger.Append.{
  agrees, append_row, finish, append_with_compound_key, append_issue_transition, issue_keys,
}
use deviatdd.Ledger.Append.View.{has_row, readable, readable-append_row}
use deviatdd.Ledger.Append.Scan.{scan_history_lem}

and_assoc : (a b c : Bool) → a && (b && c) ≡ (a && b) && c
and_assoc true b c = refl
and_assoc false b c = refl

module _ (keys : List String) where
  -- On a ledger of objects, blanks and malformed lines, the row is written exactly if no row agrees
  -- with it on all the keys.
  append_history_lem :
      (new : Row) (ledger : List Line)
      → readable ledger ≡ true
      → append_with_compound_key false keys new ledger ≡ (
          if has_row (agrees keys new) ledger
          then some (false, ledger)
          else some (true, append_row ledger new))
  unfolding append_with_compound_key finish
  append_history_lem new ledger h = rw (scan_history_lem keys new ledger h) (ground arith)

  -- No two rows agree on all the keys: each row is new against the lines before it.
  abbrev pub fresh : List Line → Line → Bool
  fresh before (row r) = not (has_row (agrees keys r) before)
  fresh before _ = true

  unfoldable pub no_repeats : List Line → List Line → Bool
  no_repeats before [] = true
  no_repeats before (l ∷ ls) = fresh before l && no_repeats (before ++ l ∷ []) ls

  no_repeats-append_row :
      (before ls : List Line) (new : Row)
      → no_repeats before (ls ++ row new ∷ [])
        ≡ no_repeats before ls && fresh (before ++ ls) (row new)
  unfolding no_repeats
  no_repeats-append_row before [] new = rw append-nil (ground arith)
  no_repeats-append_row before (l ∷ ls) new =
      rw (no_repeats-append_row (before ++ l ∷ []) ls new, append_assoc)
        (and_assoc (fresh before l) (no_repeats (before ++ l ∷ []) ls)
          (fresh (before ++ l ∷ ls) (row new)))

  -- An append to a readable ledger without repeats leaves it readable and without repeats.
  append-no_repeats :
      (new : Row) (ledger after : List Line) (b : Bool)
      → readable ledger ≡ true
      → no_repeats [] ledger ≡ true
      → append_with_compound_key false keys new ledger ≡ some (b, after)
      → (readable after ≡ true) × (no_repeats [] after ≡ true)
  append-no_repeats new ledger after b ok clean h = ground (
    arith,
    append_history_lem new ledger ok,
    readable-append_row ledger new,
    no_repeats-append_row [] ledger new,
  )

-- The ledgers that a series of appends builds from a file that does not exist yet.
pub data Written (keys : List String) : List Line → Type 0 where
  empty : Written keys []
  append :
      {ledger after : List Line} (new : Row) (b : Bool)
      → Written keys ledger
      → append_with_compound_key false keys new ledger ≡ some (b, after)
      → Written keys after

written_lem :
    (keys : List String) {ledger : List Line}
    → Written keys ledger
    → (readable ledger ≡ true) × (no_repeats keys [] ledger ≡ true)
unfolding no_repeats readable
written_lem keys empty = (refl, refl)
written_lem keys (append {ledger = before} {after = now} new b w h) =
    let (ok, clean) = written_lem keys w in append-no_repeats keys new before now b ok clean h

-- Whatever rows are appended, and in whatever order, by the appends that compare the whole history
-- with these keys, no two rows of the ledger agree on all of them.
pub Written-no_repeats :
    (keys : List String) {ledger : List Line}
    → Written keys ledger
    → no_repeats keys [] ledger ≡ true
Written-no_repeats keys w = (written_lem keys w).1

-- An issue transition returns True and adds its row at the end if no row has that issue and status,
-- and returns False and changes nothing if one has.
pub append_issue_transition_lem :
    (new : Row) (ledger : List Line)
    → readable ledger ≡ true
    → append_issue_transition new ledger ≡ (
        if has_row (agrees issue_keys new) ledger
        then some (false, ledger)
        else some (true, append_row ledger new))
unfolding append_issue_transition
append_issue_transition_lem = append_history_lem issue_keys
