-- ===== src/Ledger/Append/Latest.antt =====
-- `_append_with_compound_key(latest_only=True)`, which task transitions use.
use deviatdd.Prelude.{
  String, ◌≡◌, refl, Bool, true, false, Option, none, some, List, [], ◌∷◌, arith, if◌then◌else◌,
}
use deviatdd.Ledger.Rows.{Row, get, json_eq→eq, Line}
use deviatdd.Ledger.Append.{
  agrees, scope_fields, append_row, finish, append_with_compound_key, append_task_transition,
  task_keys,
}
use deviatdd.Ledger.Append.View.{
  latest_where, latest_where-append_row, agrees_refl, readable, readable-append_row,
}
use deviatdd.Ledger.Append.Scan.{matches_latest, scan_latest_lem}

abbrev latest_of : List String → Row → List Line → Option Row
latest_of keys new ledger = latest_where (agrees (scope_fields keys) new) ledger

module _ (keys : List String) (new : Row) where
  -- The row is written exactly if the latest row in its scope differs on some key.
  append_latest_lem :
      (ledger : List Line)
      → append_with_compound_key true keys new ledger ≡ (
          if readable ledger
          then (if matches_latest keys new false (latest_of keys new ledger)
              then some (false, ledger)
              else some (true, append_row ledger new))
          else none)
  unfolding append_with_compound_key finish
  append_latest_lem ledger = rw (scan_latest_lem keys new ledger false) (ground arith)

  matches_latest-true :
      (o : Option Row)
      → matches_latest keys new false o ≡ true
      → (r : Row) × (o ≡ some r) × (agrees keys new r ≡ true)
  matches_latest-true none h = cc
  matches_latest-true (some r) h = (r, refl, h)

  -- After an append, whatever it returned, the latest row in scope agrees with `new` on every key.
  append-latest :
      (ledger after : List Line) (b : Bool)
      → append_with_compound_key true keys new ledger ≡ some (b, after)
      → (readable after ≡ true) × (matches_latest keys new false (latest_of keys new after) ≡ true)
  append-latest ledger after b h = ground (
    arith,
    append_latest_lem ledger,
    readable-append_row ledger new,
    latest_where-append_row (agrees (scope_fields keys) new) ledger new
        (agrees_refl (scope_fields keys) new),
    agrees_refl keys new,
  )

  append_latest_twice :
      (ledger after : List Line) (b : Bool)
      → append_with_compound_key true keys new ledger ≡ some (b, after)
      → append_with_compound_key true keys new after ≡ some (false, after)
  append_latest_twice ledger after b h =
      ground (arith, append_latest_lem after, append-latest ledger after b h)

-- The rows of one task: `issue_id` and `id` agree.
abbrev pub same_task : Row → Row → Bool
same_task new r = agrees ("issue_id" ∷ "id" ∷ []) new r

agrees_status : (new r : Row) → agrees task_keys new r ≡ true → get "status" r ≡ get "status" new
unfolding agrees
agrees_status new r h = json_eq→eq (get "status" r) (get "status" new) (ground arith)

-- When a task transition returns, with True or with False, there is a latest row of that task in the ledger
-- and its status is the status of the given row; the old lines are all there, in their order, with
-- at most the given row after them.
pub append_task_transition-latest :
    (new : Row) (ledger after : List Line) (b : Bool)
    → append_task_transition new ledger ≡ some (b, after)
    → ((r : Row) × (latest_where (same_task new) after ≡ some r)
        × (get "status" r ≡ get "status" new))
      × (after ≡ (if b then append_row ledger new else ledger))
unfolding append_task_transition
append_task_transition-latest new ledger after b h =
    let (_, agreed) = append-latest task_keys new ledger after b h in
    let (r, found, same) = matches_latest-true task_keys new _ agreed in
    (
      (r, unfold scope_fields in found, agrees_status new r same),
      ground (arith, append_latest_lem task_keys new ledger),
    )

-- Repeating a task transition that has returned is a no-op that returns False.
pub append_task_transition_twice :
    (new : Row) (ledger after : List Line) (b : Bool)
    → append_task_transition new ledger ≡ some (b, after)
    → append_task_transition new after ≡ some (false, after)
unfolding append_task_transition
append_task_transition_twice new = append_latest_twice task_keys new
