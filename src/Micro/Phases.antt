-- ===== src/Micro/Phases.antt =====
-- What the TDD cycle of cli/micro/surface.py calls: agents, Git, the test suite and other phases.
use deviatdd.Prelude.{Bool, Option}
use deviatdd.Prelude.Text.{Text}
use deviatdd.Ledger.Rows.{Json}
use deviatdd.Micro.Session.{FailureKind}
use deviatdd.Micro.Action.{Result, State, Action}
use deviatdd.Micro.Task.{Task}

-- What `_invoke_agent` gives GREEN: no manifest, after a time-out with a summary of the context; one
-- whose status is a failure, with its HITL mark, rationale and failure kind, one that a session can hold;
-- or one that succeeded.
pub data Reply : Type 0 where
  no_manifest : Option Text → Reply
  failed : Bool → Text → FailureKind → Reply
  succeeded : Reply

pub record Phases (W : Type 0) : Type 0 where
  -- `_is_red_phase_failing_test_sha(root, session.red_commit_sha)`
  pub is_red_sha : State W → Bool
  -- `_recover_red_commit_boundary`
  pub recover_boundary : Action W Bool
  -- `_rollback_pre_red_if_resolvable` is not None.
  pub rollback_pre_red : Action W Bool
  -- `_commit_judge_feedback_and_advance` with `revert_red`
  pub commit_feedback : Text → Action W (Unit {0})
  -- `_maybe_reset_isolated_env`
  pub reset_env : Action W (Unit {0})
  pub run_red : Action W (Unit {0})
  -- `_run_judge_phase(no_refactor=...)`
  pub run_judge : Bool → Action W (Unit {0})
  pub run_refactor : Action W (Unit {0})
  -- `_ensure_green_entry_red_sha`
  pub ensure_entry_sha : Action W (Unit {0})
  pub invoke_green : Action W Reply
  -- `_run_test_cmd`: the output if the return code is not 0.
  pub run_suite : Action W (Option Text)
  -- `_green_post_kernel` with its retry: whether HEAD moved. It raises when the phase is rejected.
  pub post_kernel : Action W Bool
  -- `_verify_clean_worktree`, and the commit of residual files after it: the text of its error.
  pub clean_worktree : Action W (Option Text)
  -- `_completed_evidence_bundle` and `_require_tdd_completed_evidence`
  pub completed_evidence : Task → State W → Result (Option Json)
  -- `_commit_completed_ledger`
  pub commit_completed : Action W (Unit {0})
  -- `_bind_session_red_boundary`
  pub bind_boundary : Action W (Unit {0})
  -- `_verify_worktree_branch`
  pub verify_branch : Action W (Unit {0})
