-- ===== src/Micro/Verdict/Settled.antt =====
-- What `_apply_judge_verdict` of cli/micro/surface.py leaves behind when it returns.
use deviatdd.Prelude.{
  String, Bool, true, false, Option, none, some, [], str_eq, ◌≡◌, refl, if-cases, if◌then◌else◌,
}
use deviatdd.Prelude.Text.{Text, is_empty}
use deviatdd.Micro.Task.{Task}
use deviatdd.Micro.Session.{Session, Phase, is_forward_route}
use deviatdd.Micro.Action.{State, phase_failed, Result, ok, raise, throw, continue}
use deviatdd.Micro.Logic.{Ends}
use deviatdd.Micro.Verdict.Rules.{Judging, Rollback, reset_done, env_undefined, tolerated, fatal}
use deviatdd.Micro.Verdict.Reset.{
  plan, Target, to_commit, to_baseline, nowhere, after_feedback, train_green, after_red_feedback,
  retry_red, settle_red, revert_red_to, revert_red, settle_green, revert_green_at, revert_green,
  after_revert_row, planned, ledgers_of, target_of,
}
use deviatdd.Micro.Boundary.Revert.{resolve_revert_red_boundary, Answer, reset_to, refuse}
use deviatdd.Micro.Verdict.{revert_by, unless_contradicted, reject}

-- The session after a verdict has been applied: the task goes back to RED or to GREEN, with the
-- rejection; it trains GREEN with the output of a red suite; it goes forward by a route that is bound
-- to it; or it has passed with no route, and what was pending before is pending still.
pub data Settled (task_id before : String) (suite_red : Bool) (dump : Text) : Session → Type 0 where
  to_red :
      (s : Session)
      → s.pending_judge_action ≡ "revert_red"
      → s.judge_rejected ≡ true
      → s.current_phase ≡ Phase.red
      → s.red_commit_sha ≡ []
      → Settled task_id before suite_red dump s
  to_green :
      (s : Session)
      → s.pending_judge_action ≡ "revert_green"
      → s.judge_rejected ≡ true
      → s.current_phase ≡ Phase.green
      → Settled task_id before suite_red dump s
  trained :
      (s : Session)
      → suite_red ≡ true
      → s.pending_judge_action ≡ ""
      → s.judge_rejected ≡ false
      → s.current_phase ≡ Phase.green
      → s.train_feedback ≡ dump
      → Settled task_id before suite_red dump s
  forwarded :
      (s : Session)
      → suite_red ≡ false
      → is_forward_route s.pending_judge_action ≡ true
      → s.judge_rejected ≡ false
      → s.judge_task_id ≡ task_id
      → s.judge_red_commit_sha ≡ s.red_commit_sha
      → Settled task_id before suite_red dump s
  passed :
      (s : Session)
      → suite_red ≡ false
      → s.pending_judge_action ≡ before
      → s.judge_rejected ≡ false
      → s.train_feedback ≡ []
      → Settled task_id before suite_red dump s

module _ {W : Type 0} (judging : Judging W) (task : Task) (before : String) (suite_red : Bool)
    (dump : Text) where
  abbrev Good : {A : Type 0} → A → State W → Type 0
  Good _ t = Settled task.id before suite_red dump t.session

  after_feedback-Settled :
      (feedback : Text) (r : Result Text × State W)
      → Ends Good (after_feedback judging task feedback r)
  unfolding Ends
  after_feedback-Settled feedback (raise e, s) = tt
  after_feedback-Settled feedback (ok feedback_head, s) = to_green _ refl refl refl

  train_green-Settled :
      (feedback : Text) (s : State W) → Ends Good (train_green judging task feedback s)
  unfolding train_green
  train_green-Settled feedback s = after_feedback-Settled feedback _

  after_red_feedback-Settled :
      (feedback : Text) (r : Result Text × State W)
      → Settled task.id before suite_red dump r.1.session
      → Ends Good (after_red_feedback judging task feedback r)
  after_red_feedback-Settled feedback (ok _, s) settled = unfold Ends in settled
  after_red_feedback-Settled feedback (raise e, s) settled = train_green-Settled feedback s

  retry_red-Settled :
      (feedback : Text) (s : State W) → Ends Good (retry_red judging task feedback s)
  unfolding retry_red
  retry_red-Settled feedback s =
      after_red_feedback-Settled feedback _ (to_red _ refl refl refl refl)

  after_revert_row-Settled :
      (r : Result (Unit {0}) × State W) → Ends Good (after_revert_row judging task r)
  unfolding Ends
  after_revert_row-Settled (ok _, s) = tt
  after_revert_row-Settled (raise e, s) = tt

  settle_red-Settled :
      (feedback : Text) (r : Rollback × State W) → Ends Good (settle_red judging task feedback r)
  unfolding settle_red
  settle_red-Settled feedback (reset_done, s) = retry_red-Settled feedback s
  settle_red-Settled feedback (tolerated, s) = train_green-Settled feedback s
  settle_red-Settled feedback (fatal e, s) = unfold Ends in tt
  settle_red-Settled feedback (env_undefined, s) = after_revert_row-Settled _

  revert_red_to-Settled :
      (feedback : Text) (target : Target) (s : State W)
      → Ends Good (revert_red_to judging task feedback target s)
  unfolding revert_red_to
  revert_red_to-Settled feedback (to_commit sha) s = settle_red-Settled feedback _
  revert_red_to-Settled feedback to_baseline s = settle_red-Settled feedback _
  revert_red_to-Settled feedback nowhere s =
      if-cases (Ends Good) _ (retry_red judging task feedback s)
        (train_green judging task feedback s) (λ _. retry_red-Settled feedback s)
        (λ _. train_green-Settled feedback s)

  settle_green-Settled :
      (feedback : Text) (r : Rollback × State W) → Ends Good (settle_green judging task feedback r)
  unfolding settle_green
  settle_green-Settled feedback (reset_done, s) = train_green-Settled feedback s
  settle_green-Settled feedback (tolerated, s) = train_green-Settled feedback s
  settle_green-Settled feedback (fatal e, s) = unfold Ends in tt
  settle_green-Settled feedback (env_undefined, s) = unfold Ends in tt

  revert_green_at-Settled :
      (feedback : Text) (answer : Answer) (s : State W)
      → Ends Good (revert_green_at judging task feedback answer s)
  revert_green_at-Settled feedback (refuse why) s = unfold Ends in tt
  revert_green_at-Settled feedback (reset_to sha) s = settle_green-Settled feedback _

  revert_red-Settled :
      (feedback : Text) (s : State W) → Ends Good (revert_red judging task feedback s)
  unfolding revert_red
  revert_red-Settled feedback s =
      let git = judging.git_of s.world in
      let r = resolve_revert_red_boundary git (ledgers_of judging task s) task.id s.session in
      let t = record s { session = r.1 } in
      revert_red_to-Settled feedback (target_of judging task t r.0) t

  revert_green-Settled :
      (feedback : Text) (s : State W) → Ends Good (revert_green judging task feedback s)
  unfolding revert_green
  revert_green-Settled feedback s = revert_green_at-Settled feedback _ _

  revert_by-Settled :
      (action : String) (feedback : Text) (s : State W)
      → Ends Good (revert_by judging task action feedback s)
  revert_by-Settled action feedback s = by_action (str_eq action "revert_red")
    where
      by_action :
          (red : Bool)
          → Ends Good (
              (if red then revert_red judging task feedback else revert_green judging task feedback)
                s)
      by_action true = revert_red-Settled feedback s
      by_action false = revert_green-Settled feedback s

  after_confirm-Settled :
      (action : String) (feedback : Text) (r : Result (Unit {0}) × State W)
      → Ends Good (continue r (λ _. revert_by judging task action feedback))
  after_confirm-Settled action feedback (ok _, s) = revert_by-Settled action feedback s
  after_confirm-Settled action feedback (raise e, s) = unfold Ends in tt

  unless_contradicted-Settled :
      (found : Option String) (action : String) (feedback : Text) (s : State W)
      → Ends Good (unless_contradicted judging task found action feedback s)
  unless_contradicted-Settled (some summary) action feedback s = unfold Ends in tt
  unless_contradicted-Settled none action feedback s = after_confirm-Settled action feedback _

  pub reject-Settled :
      (action : String) (feedback : Text) (s : State W)
      → Ends Good (reject judging task action feedback s)
  unfolding reject plan
  reject-Settled action feedback s = by_feedback (is_empty feedback)
    where
      planned_state : State W
      planned_state = record s { session = planned judging task action s }

      by_feedback :
          (none_given : Bool)
          → Ends Good (
              (if none_given then throw phase_failed else (λ t.
                  unless_contradicted judging task
                    (judging.detect_contradiction feedback t)
                    action
                    feedback
                    t))
                planned_state)
      by_feedback true = unfold Ends in tt
      by_feedback false = unless_contradicted-Settled _ action feedback planned_state
