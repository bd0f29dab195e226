-- ===== src/Ledger/Unblocked.antt =====
-- `_get_unblocked_backlog_features`, `select_next_unblocked_issue` and
-- `select_unblocked_candidates` of state/ledger.py.
pub mod Statuses
pub mod Selection
pub mod Oldest
use deviatdd.Prelude.{
  String, Bool, true, false, not, ◌&&◌, Option, none, some, List, [], ◌∷◌, all, select, str_eq,
  if◌then◌else◌, ◌>>=◌, leb,
}
use deviatdd.Ledger.Rows.{
  Json, Items, Fields, Row, get, json_eq, null, str, array, object, nil, cons, end, field,
}
use deviatdd.Ledger.Issues.{IssueRecord, Clock, validate_issue}

-- A dict with text keys, in insertion order: a key that is assigned again keeps its place.
module _ {ℓ} {V : Type ℓ} where
  unfoldable pub put : String → V → List (String × V) → List (String × V)
  put k v [] = (k, v) ∷ []
  put k v ((j, w) ∷ m) = if str_eq j k then (k, v) ∷ m else (j, w) ∷ put k v m

  unfoldable pub find : String → List (String × V) → Option V
  find k [] = none
  find k ((j, v) ∷ m) = if str_eq j k then some v else find k m

abbrev pub nonempty : Json → Option String
nonempty (str s) = if str_eq s "" then none else some s
nonempty _ = none

-- The entry that a row makes in `status_map`, if `issue_id and status`; both are texts in a ledger.
abbrev pub status_entry : Row → Option (String × String)
status_entry row = do
  issue_id ← nonempty (get "issue_id" row)
  status ← nonempty (get "status" row)
  some (issue_id, status)

abbrev put_entry : Option (String × String) → List (String × String) → List (String × String)
put_entry none m = m
put_entry (some (k, v)) m = put k v m

unfoldable pub status_map_from : List (String × String) → List Row → List (String × String)
status_map_from m [] = m
status_map_from m (row ∷ rows) = status_map_from (put_entry (status_entry row) m) rows

abbrev is_typed : Row → Bool
is_typed row = not (json_eq (get "type" row) null)

-- `f["issue_id"]`, a text in every typed row.
abbrev key_of : Row → Option String
key_of row = elim (get "issue_id" row) [ null ↦ none | str s ↦ some s | _ ↦ none ]

abbrev put_issue : Option String → Row → List (String × Row) → Option (List (String × Row))
put_issue none row m = none
put_issue (some k) row m = some (put k row m)

-- One row of the two loops over `typed`; `none` is the KeyError of a typed row that names no issue.
unfoldable pub issue_entry : Row → List (String × Row) → Option (List (String × Row))
issue_entry row m = if is_typed row then put_issue (key_of row) row m else some m

unfoldable pub issue_map_from : List (String × Row) → List Row → Option (List (String × Row))
unfolding issue_entry
issue_map_from m [] = some m
issue_map_from m (row ∷ rows) = do m' ← issue_entry row m; issue_map_from m' rows

abbrev characters : String → List String
characters String.[] = []
characters (String.◌∷◌ c s) = String.◌∷◌ c String.[] ∷ characters s

abbrev keys : Fields → List String
keys end = []
keys (field k v fs) = k ∷ keys fs

-- What the loop over `blocked_by` looks up; what is no text is never a key of the map.
abbrev dependency_ids : Items → List String
dependency_ids nil = []
dependency_ids (cons (str s) vs) = s ∷ dependency_ids vs
dependency_ids (cons _ vs) = "" ∷ dependency_ids vs

-- `for dep_id in record.get("blocked_by", [])`. Where this is no list, `model_validate` refuses the
-- row, if it gets there.
abbrev pub iterated : Json → List String
iterated (array vs) = dependency_ids vs
iterated (str s) = characters s
iterated (object fs) = keys fs
iterated _ = []

abbrev pub blocked_by : Row → List String
blocked_by row = iterated (get "blocked_by" row)

abbrev pub status_or : String → Option String → String
status_or other none = other
status_or other (some s) = s

unfoldable pub is_candidate : List (String × String) → String × Row → Bool
unfolding find
is_candidate statuses (issue_id, row) =
    str_eq (status_or "BACKLOG" (find issue_id statuses)) "BACKLOG"
    && all (λ dep. str_eq (status_or "UNKNOWN" (find dep statuses)) "COMPLETED") (blocked_by row)

-- The candidates in the order of `issue_map`; `none` where `model_validate` raises.
unfoldable pub validate_all : Clock → List (String × Row) → Option (List IssueRecord)
validate_all clock [] = some []
validate_all clock ((k, row) ∷ rows) = do
  r ← validate_issue clock row
  rs ← validate_all clock rows
  some (r ∷ rs)

-- `candidates.sort(key=lambda r: r.created_at or ...)`: stable, and `created_at` is always there.
unfoldable pub insert_by_created : IssueRecord → List IssueRecord → List IssueRecord
insert_by_created r [] = r ∷ []
insert_by_created r (s ∷ rs) =
    if leb r.created_at s.created_at then r ∷ s ∷ rs else s ∷ insert_by_created r rs

unfoldable pub sort_by_created : List IssueRecord → List IssueRecord
unfolding insert_by_created
sort_by_created [] = []
sort_by_created (r ∷ rs) = insert_by_created r (sort_by_created rs)

unfoldable pub status_map : List Row → List (String × String)
unfolding status_map_from put
status_map = status_map_from []

unfoldable pub select_unblocked_candidates : Clock → List Row → Option (List IssueRecord)
unfolding status_map issue_map_from is_candidate validate_all sort_by_created
select_unblocked_candidates clock records = do
  issues ← issue_map_from [] records
  candidates ← validate_all clock (select (is_candidate (status_map records)) issues)
  some (sort_by_created candidates)

abbrev head? : List IssueRecord → Option IssueRecord
head? [] = none
head? (r ∷ _) = some r

-- The outer `none` is an exception, the inner one the answer None.
unfoldable pub select_next_unblocked_issue : Clock → List Row → Option (Option IssueRecord)
unfolding select_unblocked_candidates
select_next_unblocked_issue clock records = do
  candidates ← select_unblocked_candidates clock records
  some (head? candidates)
