-- ===== src/Micro/Statuses.antt =====
-- `_collect_latest_task_records` of cli/micro/surface.py and `_latest_task_statuses` of
-- cli/micro/pending.py: the status of a task is that of its last row in the ledgers.
pub mod Latest
pub mod Reading
mod Examples
use deviatdd.Prelude.{
  String, Bool, true, false, ◌&&◌, Option, none, some, List, [], ◌∷◌, str_eq, if◌then◌else◌,
}
use deviatdd.Ledger.Rows.{Row, Json, str, get, lookup, json_eq}
use deviatdd.Ledger.Unblocked.{put, nonempty}

-- The key `(issue_id, tid)`.
abbrev pub Key : Type 0
Key = Json × String

abbrev pub same_key : Key → Key → Bool
same_key k j = json_eq k.0 j.0 && str_eq k.1 j.1

abbrev or_blank : Option Json → Json
or_blank none = str ""
or_blank (some j) = j

abbrev with_issue : Json → Option String → Option Key
with_issue issue none = none
with_issue issue (some tid) = some (issue, tid)

-- The key of a record, if it has a task id, which is a text in a ledger.
abbrev pub key_of : Row → Option Key
key_of rec = with_issue (or_blank (lookup "issue_id" rec)) (nonempty (get "id" rec))

-- `latest[key] = rec`
unfoldable pub put_latest : Key → Row → List (Key × Row) → List (Key × Row)
put_latest k rec [] = (k, rec) ∷ []
put_latest k rec ((j, old) ∷ latest) =
    let rest = put_latest k rec latest in
    if same_key j k then (k, rec) ∷ latest else (j, old) ∷ rest

abbrev pub put_record : Option Key → Row → List (Key × Row) → List (Key × Row)
put_record none rec latest = latest
put_record (some k) rec latest = put_latest k rec latest

-- The records of all the ledger files, in the order of the files.
unfoldable pub collect_from : List (Key × Row) → List Row → List (Key × Row)
unfolding put_latest
collect_from latest [] = latest
collect_from latest (rec ∷ recs) = collect_from (put_record (key_of rec) rec latest) recs

-- `str(rec.get("status", ""))`; a status is a text in a ledger.
abbrev pub status_text : Json → String
status_text (str s) = s
status_text _ = ""

-- With an issue id, the records of other issues are passed over.
abbrev pub in_scope : Option String → Row → Bool
in_scope none rec = true
in_scope (some issue_id) rec = json_eq (get "issue_id" rec) (str issue_id)

unfoldable pub statuses_from :
    Option String → List (String × String) → List (Key × Row) → List (String × String)
unfolding put
statuses_from issue_id statuses [] = statuses
statuses_from issue_id statuses ((k, rec) ∷ latest) =
    statuses_from issue_id
      (if in_scope issue_id rec
        then put k.1 (status_text (get "status" rec)) statuses
        else statuses)
      latest

unfoldable pub latest_task_statuses : Option String → List Row → List (String × String)
unfolding collect_from statuses_from
latest_task_statuses issue_id recs = statuses_from issue_id [] (collect_from [] recs)
