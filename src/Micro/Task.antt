-- ===== src/Micro/Task.antt =====
-- A task of the queue and its rows in the ledger: `_append_status_transition` of cli/micro/surface.py.
use deviatdd.Prelude.{
  not, true, false, ◌&&◌, any, ◌≡◌, refl, sym, ◌∙◌, Bool-cases, inl, inr, String, Bool, Option,
  none, some, List, [], ◌∷◌, ◌++◌, str_eq, if◌then◌else◌,
}
use deviatdd.Prelude.Text.{codes}
use deviatdd.Ledger.Rows.{Row, Line, row, Json, str, null}
use deviatdd.Ledger.TaskId.{is_task_id}
use deviatdd.Ledger.Append.{append_task_transition}
use deviatdd.Ledger.Phase.{phase_already_done}
use deviatdd.Micro.Action.{State, other_error, Result, ok, raise, Action}

pub record Task : Type 0 where
  pub id : String
  pub issue_id : String
  pub description : String
  pub execution_mode : String
  -- What `parse_test_strategy` gives.
  pub test_strategy : Json

-- `_read_ledger_records`, on a file in which every JSON line is an object.
unfoldable pub read_ledger_records : List Line → List Row
read_ledger_records (row r ∷ lines) = r ∷ read_ledger_records lines
read_ledger_records (_ ∷ lines) = read_ledger_records lines
read_ledger_records [] = []

abbrev pub task_phase_done : Task → String → List Line → Bool
task_phase_done task phase ledger = phase_already_done (read_ledger_records ledger) task.id phase

-- The fields that `_task_record_json` leaves out when they are absent.
abbrev pub optional : String → String → Row
optional key text = if str_eq text "" then [] else (key, str text) ∷ []

-- The row of `TaskRecord(...)` in `_append_status_transition`. The time of its creation, and the fields
-- that are null and read as missing ones, are left out.
unfoldable pub status_row : Task → String → String → Row
status_row task status reason =
    ("id", str task.id)
    ∷ ("issue_id", str task.issue_id)
    ∷ ("description", str task.description)
    ∷ ("status", str status)
    ∷ ("execution_mode", str task.execution_mode)
    ∷ ("test_strategy", task.test_strategy)
    ∷ optional "judge_feedback" reason

abbrev pub evidence_field : Option Json → Row
evidence_field none = []
evidence_field (some bundle) = ("evidence", bundle) ∷ []

abbrev is_test_strategy : Json → Bool
is_test_strategy null = true
is_test_strategy (str s) = any (str_eq s) ("unit" ∷ "integration" ∷ "e2e" ∷ [])
is_test_strategy _ = false

-- What the validation of `TaskRecord` asks of a task whose fields are texts. The status is one of the
-- runner, and the bundle has been validated.
abbrev pub is_valid : Task → Bool
is_valid task =
    is_task_id (codes task.id)
    && (not (str_eq task.description "")
        && (any (str_eq task.execution_mode)
              ("TDD" ∷ "DIRECT" ∷ "EXECUTE" ∷ "E2E" ∷ "IMMEDIATE" ∷ [])
            && is_test_strategy task.test_strategy))

-- A row of the task is validated and appended; `none` is an exception of either.
unfoldable pub append_task_row : Task → Row → List Line → Option (Bool × List Line)
unfolding is_task_id
append_task_row task r ledger = if is_valid task then append_task_transition r ledger else none

pub append_task_row_lem :
    (task : Task) (r : Row) (ledger after : List Line) (b : Bool)
    → append_task_row task r ledger ≡ some (b, after)
    → append_task_transition r ledger ≡ some (b, after)
unfolding append_task_row
append_task_row_lem task r ledger after b h = elim (Bool-cases (is_valid task)) [
  | inl v ↦ sym (rw v refl) ∙ h
  | inr v ↦ cc
]

-- The file after an append whose exception is caught: it is as it was.
abbrev pub written : List Line → Option (Bool × List Line) → List Line
written ledger none = ledger
written ledger (some (_, after)) = after

module _ {W : Type 0} (completed_evidence : Task → State W → Result (Option Json))
    (task : Task) where
  abbrev pub appended : State W → Option (Bool × List Line) → Result (Unit {0}) × State W
  appended s none = (raise other_error, s)
  appended s (some (_, after)) = (ok tt, record s { ledger = after })

  abbrev pub append_status : Row → Action W (Unit {0})
  append_status r s = appended s (append_task_row task r s.ledger)

  -- `completed_evidence` is the answer of `_completed_evidence_bundle` and
  -- `_require_tdd_completed_evidence`: the bundle, or an exception of either.
  abbrev pub append_completed : State W → Result (Option Json) → Result (Unit {0}) × State W
  append_completed s (raise e) = (raise e, s)
  append_completed s (ok bundle) =
      append_status (status_row task "COMPLETED" "" ++ evidence_field bundle) s

  unfoldable pub append_status_transition : String → String → Action W (Unit {0})
  unfolding status_row append_task_row
  append_status_transition status reason s =
      if str_eq status "COMPLETED"
      then (if task_phase_done task "COMPLETED" s.ledger
          then (ok tt, s)
          else append_completed s (completed_evidence task s))
      else append_status (status_row task status reason) s
