-- ===== src/Micro/Verdict/Reset.antt =====
-- The violation routes of `_apply_judge_verdict` in cli/micro/surface.py: rollback and its failures.
use deviatdd.Prelude.{String, true, not, ◌&&◌, List, [], str_eq, if◌then◌else◌}
use deviatdd.Prelude.Text.{Text, is_empty}
use deviatdd.Ledger.Rows.{Row, Line}
use deviatdd.Micro.Task.{Task, read_ledger_records}
use deviatdd.Micro.Session.{Session, Phase, has_red_commit_boundary}
use deviatdd.Micro.Action.{State, phase_failed, env_not_ready, Result, ok, raise, Action}
use deviatdd.Micro.Boundary.Git.{advance_red_sha_past_feedback}
use deviatdd.Micro.Boundary.Anchor.{refresh_session_commit_anchors}
use deviatdd.Micro.Boundary.Bind.{
  red_boundary_belongs_to_task, recover_red_commit_boundary, bind_session_red_boundary,
}
use deviatdd.Micro.Boundary.Revert.{
  Answer, reset_to, refuse, resolve_revert_red_boundary, require_revert_green_boundary,
}
use deviatdd.Micro.Verdict.Rules.{
  Call, Rollback, reset_done, env_undefined, tolerated, fatal, Attempt, Judging, is_no_failing_test,
}

abbrev pub back_to_red : Text → Session → Session
back_to_red feedback s = record s {
  red_commit_sha = [];
  pending_judge_action = "revert_red";
  train_feedback = feedback;
  judge_rejected = true;
  current_phase = Phase.red;
}

abbrev pub back_to_green : Text → Session → Session
back_to_green feedback s = record s {
  pending_judge_action = "revert_green";
  train_feedback = feedback;
  judge_rejected = true;
  current_phase = Phase.green;
}

-- Where `revert_red` resets to.
pub data Target : Type 0 where
  to_commit : Text → Target
  to_baseline nowhere : Target

module _ {W : Type 0} where
  abbrev returned : {A : Type 0} → State W → Result A × (List Line × W) → Result A × State W
  returned s (r, (ledger, world)) = (r, record s { ledger = ledger; world = world })

  abbrev pub call : {A : Type 0} → Call W A → Action W A
  call m s = returned s (m s.ledger s.world)

  abbrev pub tried : State W → Rollback × (List Line × W) → Rollback × State W
  tried s (r, (ledger, world)) = (r, record s { ledger = ledger; world = world })

  abbrev pub attempt : Attempt W → State W → Rollback × State W
  attempt m s = tried s (m s.ledger s.world)

  abbrev pub then_reset : Attempt W → Rollback × State W → Rollback × State W
  then_reset reset (reset_done, s) = attempt reset s
  then_reset reset (r, s) = (r, s)

module _ {W : Type 0} (judging : Judging W) (task : Task) where
  open judging use {
    git_of, has_baseline, restore_baseline, execute_rollback, reset_env_red, reset_env_green,
    commit_feedback, append_revert,
  }

  abbrev pub ledgers_of : State W → List Row
  ledgers_of s = read_ledger_records s.ledger

  -- `_refresh_session_commit_anchors`
  abbrev pub refresh_anchors : Action W (Unit {0})
  refresh_anchors s =
      (ok tt, record s { session = (refresh_session_commit_anchors (git_of s.world) s.session).1 })

  -- `_planned_revert_anchor`, which binds the boundary to the task.
  abbrev pub planned : String → State W → Session
  planned action s =
      if str_eq action "revert_green"
      then (bind_session_red_boundary (git_of s.world) (ledgers_of s) task.id s.session).1
      else if not (is_empty s.session.red_commit_sha)
      then (resolve_revert_red_boundary (git_of s.world) (ledgers_of s) task.id s.session).1
      else s.session

  unfoldable pub plan : String → Action W (Unit {0})
  unfolding bind_session_red_boundary resolve_revert_red_boundary
  plan action s = (ok tt, record s { session = planned action s })

  abbrev advanced : Text → State W → Session
  advanced feedback_head s = record s.session {
    red_commit_sha =
        advance_red_sha_past_feedback (git_of s.world) s.session.red_commit_sha
          s.session.red_commit_sha feedback_head;
  }

  abbrev pub after_feedback : Text → Result Text × State W → Result (Unit {0}) × State W
  after_feedback feedback (raise e, s) = (raise e, s)
  after_feedback feedback (ok feedback_head, s) =
      (ok tt, record s { session = back_to_green feedback (advanced feedback_head s) })

  -- The end of a rejection that trains GREEN again.
  unfoldable pub train_green : Text → Action W (Unit {0})
  unfolding advance_red_sha_past_feedback
  train_green feedback s =
      after_feedback feedback (call (commit_feedback feedback "revert_green") s)

  -- A commit of the feedback that fails is caught, and GREEN is trained instead.
  abbrev pub after_red_feedback : Text → Result Text × State W → Result (Unit {0}) × State W
  after_red_feedback feedback (ok _, s) = (ok tt, s)
  after_red_feedback feedback (raise e, s) = train_green feedback s

  unfoldable pub retry_red : Text → Action W (Unit {0})
  unfolding train_green
  retry_red feedback s = after_red_feedback feedback (
      call (commit_feedback feedback "revert_red")
        (record s { session = back_to_red feedback s.session }))

  abbrev pub after_revert_row : Result (Unit {0}) × State W → Result (Unit {0}) × State W
  after_revert_row (ok _, s) = (raise env_not_ready, s)
  after_revert_row (raise e, s) = (raise e, s)

  unfoldable pub settle_red : Text → Rollback × State W → Result (Unit {0}) × State W
  unfolding retry_red train_green
  settle_red feedback (reset_done, s) = retry_red feedback s
  settle_red feedback (env_undefined, s) =
      after_revert_row
        (call (append_revert feedback) (record s { session = back_to_red feedback s.session }))
  settle_red feedback (tolerated, s) = train_green feedback s
  settle_red feedback (fatal e, s) = (raise e, s)

  abbrev pub target_of : State W → Text → Target
  target_of s pre_red =
      if not (is_empty pre_red)
      then to_commit pre_red
      else if not (is_empty s.session.red_commit_sha)
          && red_boundary_belongs_to_task (git_of s.world) s.session.red_commit_sha task.id
      then to_commit s.session.red_commit_sha
      else if has_baseline
      then to_baseline
      else nowhere

  -- Without a boundary and without a baseline, RED is dispatched again if it wrote no failing test.
  -- Otherwise PhaseFailedError is raised and caught at once.
  unfoldable pub revert_red_to : Text → Target → Action W (Unit {0})
  unfolding settle_red retry_red train_green
  revert_red_to feedback (to_commit sha) s =
      settle_red feedback (then_reset reset_env_red (attempt (execute_rollback sha) s))
  revert_red_to feedback to_baseline s = settle_red feedback (attempt restore_baseline s)
  revert_red_to feedback nowhere s =
      if is_no_failing_test s.session.failure_kind
      then retry_red feedback s
      else train_green feedback s

  unfoldable pub revert_red : Text → Action W (Unit {0})
  unfolding resolve_revert_red_boundary red_boundary_belongs_to_task revert_red_to
  revert_red feedback s =
      let r = resolve_revert_red_boundary (git_of s.world) (ledgers_of s) task.id s.session in
      let t = record s { session = r.1 } in revert_red_to feedback (target_of t r.0) t

  unfoldable pub settle_green : Text → Rollback × State W → Result (Unit {0}) × State W
  unfolding train_green
  settle_green feedback (reset_done, s) = train_green feedback s
  settle_green feedback (env_undefined, s) = (raise env_not_ready, s)
  settle_green feedback (tolerated, s) = train_green feedback s
  settle_green feedback (fatal e, s) = (raise e, s)

  abbrev pub revert_green_at : Text → Answer → Action W (Unit {0})
  revert_green_at feedback (refuse why) s = (raise phase_failed, s)
  revert_green_at feedback (reset_to sha) s =
      settle_green feedback (then_reset reset_env_green (attempt (execute_rollback sha) s))

  abbrev pub with_boundary : State W → Session
  with_boundary s =
      if has_red_commit_boundary s.session
      then s.session
      else (recover_red_commit_boundary (git_of s.world) (ledgers_of s) task.id s.session).1

  unfoldable pub revert_green : Text → Action W (Unit {0})
  unfolding has_red_commit_boundary recover_red_commit_boundary require_revert_green_boundary
      settle_green
  revert_green feedback s =
      let r =
        require_revert_green_boundary (git_of s.world) (ledgers_of s) task.id (with_boundary s) in
      revert_green_at feedback r.0 (record s { session = r.1 })
