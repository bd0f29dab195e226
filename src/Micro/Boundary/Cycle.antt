-- ===== src/Micro/Boundary/Cycle.antt =====
-- The TDD cycle of cli/micro/surface.py with its own search for the RED boundary.
use deviatdd.Prelude.{Bool, Option, none, some, ◌≡◌}
use deviatdd.Micro.Session.{Session}
use deviatdd.Micro.Action.{State, Action, Result, ok, raise, phase_failed}
use deviatdd.Micro.Task.{Task, read_ledger_records}
use deviatdd.Micro.Phases.{Phases}
use deviatdd.Micro.Logic.{Ends, KeepsCounts}
use deviatdd.Micro.Budget.{KeepBudget}
use deviatdd.Micro.Boundary.Git.{Git, is_red_phase_failing_test_sha}
use deviatdd.Micro.Boundary.Bind.{
  is_recovered, recover_red_commit_boundary, bind_session_red_boundary,
}
use deviatdd.Micro.Boundary.Revert.{Refusal, ensure_green_entry_red_sha}
use deviatdd.Micro.Boundary.Own.{recover-same, bind-same, ensure-same}

-- `git_of` is the repository in a state of the world. The records of the task's own ledger stand for
-- those of all the ledgers.
module _ {W : Type 0} (git_of : W → Git) (task : Task) where
  unfoldable pub is_red_sha_at : State W → Bool
  is_red_sha_at s = is_red_phase_failing_test_sha (git_of s.world) s.session.red_commit_sha

  unfoldable pub recover_action : Action W Bool
  recover_action s =
      let r =
        recover_red_commit_boundary (git_of s.world) (read_ledger_records s.ledger) task.id
          s.session in
      (ok (is_recovered r.0), record s { session = r.1 })

  unfoldable pub bind_action : Action W (Unit {0})
  bind_action s = (
    ok tt,
    record s {
      session =
          (bind_session_red_boundary (git_of s.world) (read_ledger_records s.ledger) task.id
            s.session).1;
    },
  )

  abbrev entered : Option Refusal × Session → State W → Result (Unit {0}) × State W
  entered (none, session) s = (ok tt, record s { session = session })
  entered (some refusal, session) s = (raise phase_failed, record s { session = session })

  unfoldable pub ensure_action : Action W (Unit {0})
  ensure_action s =
      entered
        (ensure_green_entry_red_sha (git_of s.world) (read_ledger_records s.ledger) task.id
          s.session)
        s

  -- The calls of the cycle that search for the boundary are the ones modelled here.
  unfoldable pub with_git : Phases W → Phases W
  with_git phases = record phases {
    is_red_sha = is_red_sha_at;
    recover_boundary = recover_action;
    ensure_entry_sha = ensure_action;
    bind_boundary = bind_action;
  }

  recover_action-KeepsCounts : KeepsCounts recover_action
  unfolding KeepsCounts Ends recover_action
  recover_action-KeepsCounts s =
      recover-same (git_of s.world) (read_ledger_records s.ledger) task.id s.session

  bind_action-KeepsCounts : KeepsCounts bind_action
  unfolding KeepsCounts Ends bind_action
  bind_action-KeepsCounts s =
      bind-same (git_of s.world) (read_ledger_records s.ledger) task.id s.session

  entered-Ends :
      (s : State W) (r : Option Refusal × Session)
      → (r.1.green_attempts ≡ s.session.green_attempts)
        × (r.1.red_attempts ≡ s.session.red_attempts)
      → Ends
          (λ _ t.
            (t.session.green_attempts ≡ s.session.green_attempts)
            × (t.session.red_attempts ≡ s.session.red_attempts))
          (entered r s)
  unfolding Ends
  entered-Ends s (none, session) same = same
  entered-Ends s (some refusal, session) same = tt

  ensure_action-KeepsCounts : KeepsCounts ensure_action
  unfolding KeepsCounts ensure_action
  ensure_action-KeepsCounts s =
      entered-Ends s _
        (ensure-same (git_of s.world) (read_ledger_records s.ledger) task.id s.session)

  -- What is left to the other calls.
  pub with_git-KeepBudget : (phases : Phases W) → KeepBudget phases → KeepBudget (with_git phases)
  unfolding with_git
  with_git-KeepBudget phases keep = record {
    recover_keeps = recover_action-KeepsCounts;
    rollback_keeps = keep.rollback_keeps;
    commit_keeps = keep.commit_keeps;
    reset_keeps = keep.reset_keeps;
    red_keeps = keep.red_keeps;
    judge_keeps = keep.judge_keeps;
    entry_keeps = ensure_action-KeepsCounts;
    invoke_keeps = keep.invoke_keeps;
    suite_keeps = keep.suite_keeps;
    kernel_keeps = keep.kernel_keeps;
    clean_keeps = keep.clean_keeps;
    bind_keeps = bind_action-KeepsCounts;
  }
