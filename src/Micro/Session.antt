-- ===== src/Micro/Session.antt =====
-- `SessionState` of state/config.py, the fields that the TDD cycle reads and writes, and the helpers of
-- cli/micro/surface.py that change nothing else.
pub mod Routes
use deviatdd.Prelude.{
  ℕ, ◌+◌, String, Bool, true, false, not, ◌&&◌, ◌||◌, List, [], ◌∷◌, ◌++◌, str_eq, if◌then◌else◌,
}
use deviatdd.Prelude.Text.{Text, codes, strip, lstrip, starts_with, contains, text_eq, is_empty}
use deviatdd.Ledger.Rows.{Row}
use deviatdd.Judge.Advisory

pub data Phase : Type 0 where
  idle explore research prd shard specify plan tasks red green judge refactor e2e execute hotfix :
      Phase

-- `failure_kind`; `no_kind` is the empty text.
pub data FailureKind : Type 0 where
  no_kind mechanical test_defect no_failing_test : FailureKind

pub record Session : Type 0 where
  pub current_phase : Phase
  pub train_feedback : Text
  pub green_attempts : ℕ
  pub red_attempts : ℕ
  pub failure_kind : FailureKind
  pub judge_rejected : Bool
  pub pending_judge_action : String
  pub red_commit_sha : Text
  pub last_judge_verdict : Text
  pub validated_evidence : List Row
  pub judge_task_id : String
  pub judge_red_commit_sha : Text

-- _NO_FAILING_TEST_FORWARD_ROUTES
abbrev pub is_forward_route : String → Bool
is_forward_route a =
    str_eq a "continue_refactor"
    || (str_eq a "proceed_to_refactor_no_diff" || str_eq a "skip_refactor")

abbrev is_kind : FailureKind → Bool
is_kind no_kind = false
is_kind _ = true

abbrev pub is_phase_red : Phase → Bool
is_phase_red red = true
is_phase_red _ = false

abbrev pub test_failure_prefix : Text
test_failure_prefix = codes "The test suite failed after GREEN implementation."

unfoldable pub is_green_test_failure : Session → Bool
is_green_test_failure s =
    if is_kind s.failure_kind then false else starts_with s.train_feedback test_failure_prefix

unfoldable pub is_green_train_dump : Text → Bool
is_green_train_dump text =
    let stripped = lstrip text in
    if is_empty stripped
    then false
    else if starts_with stripped test_failure_prefix
    then true
    else contains stripped (codes "<test_output>")

-- `_train_feedback_is_advisory`
unfoldable pub train_feedback_is_advisory : Text → Bool
unfolding is_green_train_dump
train_feedback_is_advisory feedback =
    if is_green_train_dump feedback then false else Advisory.train_feedback_is_advisory feedback

unfoldable pub reset_tdd_retry_budget : Session → Session
reset_tdd_retry_budget s = record s { green_attempts = 0; red_attempts = 0 }

unfoldable pub has_red_commit_boundary : Session → Bool
has_red_commit_boundary s = not (is_empty (strip s.red_commit_sha))

unfoldable pub bind_judge_forward_route : String → Session → Session
bind_judge_forward_route task_id s = record s {
  judge_task_id = task_id;
  judge_red_commit_sha = s.red_commit_sha;
}

unfoldable pub clear_stale_forward_route : Session → Session
clear_stale_forward_route s = record s {
  pending_judge_action = "";
  judge_rejected = false;
  last_judge_verdict = [];
  validated_evidence = [];
  train_feedback = [];
  judge_task_id = "";
  judge_red_commit_sha = [];
}

unfoldable pub forward_route_is_stale : String → Session → Bool
unfolding has_red_commit_boundary
forward_route_is_stale task_id s =
    if not (is_forward_route s.pending_judge_action)
    then false
    else if not (str_eq s.judge_task_id "") && not (str_eq s.judge_task_id task_id)
    then true
    else if not (is_empty s.judge_red_commit_sha)
        && not (text_eq s.judge_red_commit_sha s.red_commit_sha)
    then true
    else if str_eq s.judge_task_id "" && is_empty s.judge_red_commit_sha
    then has_red_commit_boundary s
    else false

-- What `_invalidate_stale_forward_route` returns, and the session after it.
unfoldable pub invalidate_stale_forward_route : String → Session → Bool × Session
unfolding forward_route_is_stale clear_stale_forward_route
invalidate_stale_forward_route task_id s =
    if forward_route_is_stale task_id s then (true, clear_stale_forward_route s) else (false, s)

pub data Decision : Type 0 where
  escalate complete green : Decision

abbrev pub boundary_decision : Session → Decision × Session
boundary_decision s = if has_red_commit_boundary s then (Decision.green, s) else (escalate, s)

abbrev pub route_decision : Bool × Session → Decision × Session
route_decision (true, s) = boundary_decision s
route_decision (false, s) = (complete, s)

unfoldable pub tdd_pre_green_decision : String → Session → Decision × Session
unfolding invalidate_stale_forward_route has_red_commit_boundary
tdd_pre_green_decision task_id s =
    if str_eq s.pending_judge_action "revert_red"
    then (escalate, s)
    else if is_forward_route s.pending_judge_action
    then route_decision (invalidate_stale_forward_route task_id s)
    else boundary_decision s

unfoldable pub clear_judge_retry_gate : Session → Session
clear_judge_retry_gate s = record s {
  pending_judge_action = "";
  judge_rejected = false;
  judge_task_id = "";
  judge_red_commit_sha = [];
}

unfoldable pub consume_retry_gate_after_red : Session → Session
unfolding has_red_commit_boundary clear_judge_retry_gate
consume_retry_gate_after_red s = if has_red_commit_boundary s then clear_judge_retry_gate s else s

unfoldable pub idle_after_tdd : Session → Session
unfolding reset_tdd_retry_budget
idle_after_tdd s = reset_tdd_retry_budget (record s {
  pending_judge_action = "";
  current_phase = idle;
  train_feedback = [];
  judge_rejected = false;
  validated_evidence = [];
  last_judge_verdict = [];
  judge_task_id = "";
  judge_red_commit_sha = [];
})

abbrev kind_text : FailureKind → Text
kind_text no_kind = []
kind_text mechanical = codes " (failure_kind=mechanical)"
kind_text test_defect = codes " (failure_kind=test_defect)"
kind_text no_failing_test = codes " (failure_kind=no_failing_test)"

-- `_short_escalate_note`, for the reason tokens that the cycle passes, with blanks for underscores.
unfoldable pub short_escalate_note : Text → FailureKind → Text
short_escalate_note cause kind =
    codes "previous cycle failed because " ++ (cause ++ (kind_text kind ++ codes "."))

unfoldable pub inject_escalate_note : Text → Session → Session
unfolding is_green_train_dump short_escalate_note
inject_escalate_note cause s =
    if not (is_empty (strip s.train_feedback)) && not (is_green_train_dump s.train_feedback)
    then s
    else record s { train_feedback = short_escalate_note cause s.failure_kind }

-- `_start_phase_from_status`: the empty text stands for None.
unfoldable pub start_phase_from_status : String → String
start_phase_from_status status =
    if str_eq status "RED"
    then "GREEN"
    else if str_eq status "GREEN"
    then "JUDGE"
    else if str_eq status "JUDGE"
    then "JUDGE"
    else if str_eq status "REFACTOR"
    then "REFACTOR"
    else if str_eq status "YELLOW"
    then "YELLOW"
    else ""

-- `_judge_cycle_transition` is TRAIN_GREEN.
unfoldable pub judge_cycle_trains : Bool → String → Bool
judge_cycle_trains suite_red pending =
    suite_red || (str_eq pending "revert_green" || str_eq pending "revert_red")
