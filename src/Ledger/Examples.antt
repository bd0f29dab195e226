-- ===== src/Ledger/Examples.antt =====
-- Ledgers of a few rows.
use deviatdd.Prelude.{
  ℕ, String, true, false, Option, none, some, List, [], ◌∷◌, ◌++◌, ◌≡◌, refl, any, All,
  if◌then◌else◌, last?,
}
use deviatdd.Prelude.Text.{codes}
use deviatdd.Ledger.Rows.{
  Row, Line, row, Json, integer, str, array, cons, nil, get, lookup, json_eq,
}
use deviatdd.Ledger.Append.{
  agrees, append_row, append_issue_transition, append_task_transition, append_with_compound_key,
  issue_keys,
}
use deviatdd.Ledger.Append.View.{latest_where, has_row, readable}
use deviatdd.Ledger.Append.Latest.{
  same_task, append_task_transition-latest, append_task_transition_twice,
}
use deviatdd.Ledger.Append.History.{
  empty, append, no_repeats, Written-no_repeats, append_issue_transition_lem,
}
use deviatdd.Ledger.Write.{
  write_jsonl_record, lines, lines_of, ends_ascii, lines-write_jsonl_record,
}
use deviatdd.Ledger.Phase.{phase_already_done, done_since_pending, phase_already_done_lem}
use deviatdd.Ledger.Issues.{
  IssueRecord, Clock, backlog, completed, validate_issue, resolve_issue_record,
}
use deviatdd.Ledger.Issues.Resolve.{completes, resolve_completed}
use deviatdd.Ledger.Issues.Valid.{IsIssue, validate_issue-IsIssue}
use deviatdd.Ledger.Unblocked.{select_unblocked_candidates, select_next_unblocked_issue}
use deviatdd.Ledger.Unblocked.Selection.{Eligible}
use deviatdd.Ledger.Unblocked.Oldest.{
  IsSorted, IsOldest, select_unblocked_candidates_lem, select_next_unblocked_issue-IsOldest,
}

abbrev task_row : String → Row
task_row status =
    ("id", str "TSK-001-01") ∷ ("issue_id", str "ISS-001") ∷ ("status", str status) ∷ []

abbrev red_ledger : List Line
red_ledger = row (task_row "PENDING") ∷ row (task_row "RED") ∷ []

abbrev pending_again : List Line
pending_again = append_row red_ledger (task_row "PENDING")

appends_pending :
    append_task_transition (task_row "PENDING") red_ledger ≡ some (true, pending_again)
unfolding append_task_transition json_eq get
appends_pending = refl

append_task_transition-latest_example :
    ((r : Row) × (latest_where (same_task (task_row "PENDING")) pending_again ≡ some r)
      × (get "status" r ≡ get "status" (task_row "PENDING")))
    × (pending_again ≡ append_row red_ledger (task_row "PENDING"))
append_task_transition-latest_example =
    append_task_transition-latest (task_row "PENDING") red_ledger pending_again true appends_pending

append_task_transition_twice_example :
    append_task_transition (task_row "PENDING") pending_again ≡ some (false, pending_again)
append_task_transition_twice_example =
    append_task_transition_twice (task_row "PENDING") red_ledger pending_again true appends_pending

abbrev issue_row : String → String → ℕ → Row
issue_row id status created =
    ("issue_id", str id)
    ∷ ("type", str "feature")
    ∷ ("title", str "a title")
    ∷ ("status", str status)
    ∷ ("source_file", str "specs/a.md")
    ∷ ("created_at", integer created)
    ∷ []

abbrev blocked_row : Row
blocked_row =
    issue_row "ISS-002" "BACKLOG" 7 ++ ("blocked_by", array (cons (str "ISS-001") nil)) ∷ []

abbrev one_row : List Line
one_row = row (issue_row "ISS-001" "BACKLOG" 5) ∷ []

first_append :
    append_with_compound_key false issue_keys (issue_row "ISS-001" "BACKLOG" 5) []
    ≡ some (true, one_row)
unfolding append_with_compound_key
first_append = refl

second_append :
    append_with_compound_key false issue_keys (issue_row "ISS-001" "BACKLOG" 9) one_row
    ≡ some (false, one_row)
unfolding append_with_compound_key json_eq get
second_append = refl

Written-no_repeats_example : no_repeats issue_keys [] one_row ≡ true
Written-no_repeats_example = Written-no_repeats issue_keys (
    append (issue_row "ISS-001" "BACKLOG" 9) false
      (append (issue_row "ISS-001" "BACKLOG" 5) true empty first_append) second_append)

is_readable : readable one_row ≡ true
unfolding readable
is_readable = refl

append_issue_transition_lem_example :
    append_issue_transition (issue_row "ISS-001" "COMPLETED" 5) one_row ≡ (
      if has_row (agrees issue_keys (issue_row "ISS-001" "COMPLETED" 5)) one_row
      then some (false, one_row)
      else some (true, append_row one_row (issue_row "ISS-001" "COMPLETED" 5)))
append_issue_transition_lem_example =
    append_issue_transition_lem (issue_row "ISS-001" "COMPLETED" 5) one_row is_readable

lines-write_jsonl_record_example :
    lines_of (write_jsonl_record (codes "{\"a\": 1}") (codes "{}")) ≡ (
      if ends_ascii (last? (codes "{\"a\": 1}"))
      then some (lines (codes "{\"a\": 1}") ++ codes "{}" ∷ [])
      else none)
lines-write_jsonl_record_example = lines-write_jsonl_record (codes "{\"a\": 1}") (codes "{}") refl

test_carriage_return : write_jsonl_record (98 ∷ 13 ∷ []) (codes "c") ≡ some (98 ∷ 13 ∷ 99 ∷ 10 ∷ [])
unfolding write_jsonl_record
test_carriage_return = refl

-- "é" in UTF-8
test_undecodable : write_jsonl_record (195 ∷ 169 ∷ []) (codes "c") ≡ none
unfolding write_jsonl_record
test_undecodable = refl

abbrev red_rows : List Row
red_rows = task_row "GREEN" ∷ task_row "PENDING" ∷ task_row "RED" ∷ []

phase_already_done_lem_example :
    phase_already_done red_rows "TSK-001-01" "GREEN"
    ≡ done_since_pending "TSK-001-01" "GREEN" red_rows
phase_already_done_lem_example = phase_already_done_lem red_rows "TSK-001-01" "GREEN"

abbrev parse : Json → Option ℕ
parse (integer n) = some n
parse _ = none

abbrev clock : Clock
clock = record { parse_time = parse; print_time = integer; now = 0; parse-print = λ t. refl }

abbrev issues : List Row
issues =
    issue_row "ISS-001" "COMPLETED" 5
    ∷ blocked_row
    ∷ issue_row "ISS-003" "BACKLOG" 6
    ∷ issue_row "ISS-001" "BACKLOG" 8
    ∷ issue_row "ISS-001" "COMPLETED" 9
    ∷ []

was_completed : any (completes clock "ISS-001") issues ≡ true
unfolding validate_issue json_eq get lookup
was_completed = refl

resolve_completed_example :
    (c : IssueRecord) × (resolve_issue_record clock "ISS-001" issues ≡ some c)
    × (c.status ≡ completed)
resolve_completed_example = resolve_completed clock "ISS-001" issues was_completed

abbrev open_issue : IssueRecord
open_issue = record {
  issue_id = "ISS-003";
  type = "feature";
  title = "a title";
  status = backlog;
  source_file = "specs/a.md";
  blocked_by = [];
  coordinates_with = [];
  timestamp = none;
  created_at = 6;
}

abbrev blocked_issue : IssueRecord
blocked_issue = record open_issue {
  issue_id = "ISS-002";
  blocked_by = "ISS-001" ∷ [];
  created_at = 7;
}

validates : validate_issue clock (issue_row "ISS-003" "BACKLOG" 6) ≡ some open_issue
unfolding validate_issue lookup
validates = refl

validate_issue-IsIssue_example : IsIssue (issue_row "ISS-003" "BACKLOG" 6) open_issue
validate_issue-IsIssue_example =
    validate_issue-IsIssue clock (issue_row "ISS-003" "BACKLOG" 6) open_issue validates

abbrev candidates : List IssueRecord
candidates = open_issue ∷ blocked_issue ∷ []

selects : select_unblocked_candidates clock issues ≡ some candidates
unfolding select_unblocked_candidates json_eq get validate_issue lookup
selects = refl

select_unblocked_candidates_lem_example : All (Eligible issues) candidates × IsSorted candidates
select_unblocked_candidates_lem_example =
    select_unblocked_candidates_lem clock issues candidates selects

selects_next : select_next_unblocked_issue clock issues ≡ some (some open_issue)
unfolding select_next_unblocked_issue json_eq get validate_issue lookup
selects_next = refl

select_next_unblocked_issue-IsOldest_example :
    (cs : List IssueRecord) × (select_unblocked_candidates clock issues ≡ some cs)
    × Eligible issues open_issue
    × IsOldest open_issue cs
select_next_unblocked_issue-IsOldest_example =
    select_next_unblocked_issue-IsOldest clock issues open_issue selects_next
