-- ===== src/Micro/Green.antt =====
-- `_run_green_phase` of cli/micro/surface.py.
use deviatdd.Prelude.{
  ◌+◌, ◌-◌, Bool, true, false, not, ◌&&◌, Option, none, some, [], ◌++◌, if◌then◌else◌, drop, length,
}
use deviatdd.Prelude.Text.{Text, codes, is_empty}
use deviatdd.Micro.Task.{append_task_row, Task, task_phase_done, status_row, written}
use deviatdd.Micro.Phases.{Phases, Reply, no_manifest, failed, succeeded}
use deviatdd.Micro.Session.{
  Session, Phase, FailureKind, no_kind, mechanical, test_failure_prefix, train_feedback_is_advisory,
}
use deviatdd.Micro.Action.{
  State, phase_failed, hitl_escalation, ok, Action, pure, throw, update, ◌>>=◌, ◌>>◌,
}

-- `text[-7900:]`
abbrev pub tail_7900 : Text → Text
tail_7900 text = drop (length text - 7900) text

abbrev suite_feedback : Text → Text
suite_feedback output =
    test_failure_prefix
    ++ (codes "\n\n<test_output>\n" ++ (tail_7900 output ++ codes "\n</test_output>"))

abbrev or_mechanical : FailureKind → FailureKind
or_mechanical no_kind = mechanical
or_mechanical kind = kind

module _ {W : Type 0} (phases : Phases W) (task : Task) where
  open phases use {ensure_entry_sha, invoke_green, run_suite, post_kernel, clean_worktree}

  abbrev feedback_to_heed : Session → Bool
  feedback_to_heed s =
      not (is_empty s.train_feedback) && not (train_feedback_is_advisory s.train_feedback)

  -- GREEN is recorded, and no feedback asks for another attempt.
  unfoldable pub green_is_skipped : State W → Bool
  unfolding train_feedback_is_advisory
  green_is_skipped s = task_phase_done task "GREEN" s.ledger && not (feedback_to_heed s.session)

  abbrev pub count_green : Session → Session
  count_green s = record s { green_attempts = s.green_attempts + 1 }

  abbrev set_feedback : Text → Session → Session
  set_feedback text s = record s { train_feedback = text }

  abbrev to_judge : Text → FailureKind → Session → Session
  to_judge rationale kind s = record s {
    train_feedback = rationale;
    failure_kind = or_mechanical kind;
    current_phase = Phase.green;
  }

  abbrev accept : Session → Session
  accept s = record s {
    current_phase = Phase.green;
    train_feedback = [];
    failure_kind = no_kind;
    judge_rejected = false;
  }

  -- An exception of the append is caught.
  abbrev append_hitl : Action W (Unit {0})
  append_hitl s = (
    ok tt,
    record s {
      ledger = written s.ledger (append_task_row task (status_row task "HITL_PENDING" "") s.ledger);
    },
  )

  abbrev pub note_residue : Option Text → Action W (Unit {0})
  note_residue none = pure tt
  note_residue (some error) = update (set_feedback error)

  -- `retry` is `is_feedback_retry`.
  unfoldable pub after_commit : Bool → Bool → Action W (Unit {0})
  after_commit retry committed =
      if retry && not committed
      then throw phase_failed
      else (do error ← clean_worktree; note_residue error)

  abbrev pub after_suite : Bool → Option Text → Action W (Unit {0})
  after_suite retry (some output) = update (set_feedback (suite_feedback output))
  after_suite retry none = do committed ← post_kernel; after_commit retry committed

  unfoldable pub after_reply : Bool → Reply → Action W (Unit {0})
  unfolding status_row
  after_reply retry (no_manifest none) = throw phase_failed
  after_reply retry (no_manifest (some summary)) = do
    update (set_feedback summary)
    throw phase_failed
  after_reply retry (failed true rationale kind) = do append_hitl; throw hitl_escalation
  after_reply retry (failed false rationale kind) =
      if is_empty rationale then throw phase_failed else update (to_judge rationale kind)
  after_reply retry succeeded = do update accept; output ← run_suite; after_suite retry output

  unfoldable pub green_attempt : Bool → Action W (Unit {0})
  green_attempt retry = do
    ensure_entry_sha
    update count_green
    reply ← invoke_green
    after_reply retry reply

  abbrev is_retry : State W → Bool
  is_retry s = task_phase_done task "GREEN" s.ledger && feedback_to_heed s.session

  unfoldable pub run_green : Action W (Unit {0})
  unfolding train_feedback_is_advisory
  run_green s = if green_is_skipped s then (ok tt, s) else green_attempt (is_retry s) s
