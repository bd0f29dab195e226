-- ===== src/Micro/Fixtures.antt =====
-- A task, a session and a repository in which the suite stays red and JUDGE has nothing to say.
use deviatdd.Prelude.{true, false, none, some, []}
use deviatdd.Prelude.Text.{codes}
use deviatdd.Ledger.Rows.{null}
use deviatdd.Micro.Session.{Session, red, no_kind}
use deviatdd.Micro.Action.{State, pure, ok}
use deviatdd.Micro.Task.{Task}
use deviatdd.Micro.Phases.{Phases, succeeded}
use deviatdd.Micro.Logic.{pure-KeepsCounts}
use deviatdd.Micro.Budget.{KeepBudget}

abbrev pub task : Task
task = record {
  id = "TSK-001-01";
  issue_id = "ISS-001";
  description = "parse";
  execution_mode = "TDD";
  test_strategy = null;
}

abbrev pub blank : Session
blank = record {
  current_phase = red;
  train_feedback = [];
  green_attempts = 0;
  red_attempts = 0;
  failure_kind = no_kind;
  judge_rejected = false;
  pending_judge_action = "";
  red_commit_sha = codes "abc";
  last_judge_verdict = [];
  validated_evidence = [];
  judge_task_id = "";
  judge_red_commit_sha = [];
}

abbrev pub start : State (Unit {0})
start = record { session = blank; ledger = []; events = []; world = tt }

-- A repository in which the suite stays red and JUDGE has nothing to say.
abbrev pub failing : Phases (Unit {0})
failing = record {
  is_red_sha = λ s. true;
  recover_boundary = pure true;
  rollback_pre_red = pure false;
  commit_feedback = λ feedback. pure tt;
  reset_env = pure tt;
  run_red = pure tt;
  run_judge = λ no_refactor. pure tt;
  run_refactor = pure tt;
  ensure_entry_sha = pure tt;
  invoke_green = pure succeeded;
  run_suite = pure (some (codes "E"));
  post_kernel = pure true;
  clean_worktree = pure none;
  completed_evidence = λ t s. ok none;
  commit_completed = pure tt;
  bind_boundary = pure tt;
  verify_branch = pure tt;
}

pub failing_keeps : KeepBudget failing
failing_keeps = record {
  recover_keeps = pure-KeepsCounts _ _ true;
  rollback_keeps = pure-KeepsCounts _ _ false;
  commit_keeps = λ feedback. pure-KeepsCounts _ _ tt;
  reset_keeps = pure-KeepsCounts _ _ tt;
  red_keeps = pure-KeepsCounts _ _ tt;
  judge_keeps = λ no_refactor. pure-KeepsCounts _ _ tt;
  entry_keeps = pure-KeepsCounts _ _ tt;
  invoke_keeps = pure-KeepsCounts _ _ succeeded;
  suite_keeps = pure-KeepsCounts _ _ (some (codes "E"));
  kernel_keeps = pure-KeepsCounts _ _ true;
  clean_keeps = pure-KeepsCounts _ _ none;
  bind_keeps = pure-KeepsCounts _ _ tt;
}
