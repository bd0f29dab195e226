-- ===== src/Lib.antt =====
-- DeviaTDD drives coding agents through a test-driven cycle: a task goes through RED (a failing test),
-- GREEN (the implementation), JUDGE (a review) and REFACTOR, and every change of status is a row of a
-- JSONL ledger. This library models the parts that decide what happens next.
--
-- * Ledger (src/deviate/state/ledger.py). Ledger.Rows has JSON values, rows and lines. Ledger.Append
--   has `_append_with_compound_key`, `_append_record` and the appends that call them: a function from
--   a row and the lines of a file to the answer and the new lines, where `none` is an exception. The
--   lock makes one append atomic, so a sequence of appends is a sequence of calls. Ledger.Write has
--   the bytes of `_write_jsonl_record`, where `none` is an exception, too, and Ledger.TaskId the form of
--   task ids. Ledger.Issues has `IssueRecord` and `resolve_issue_record`;
--   Ledger.Unblocked has `select_unblocked_candidates` and `select_next_unblocked_issue`. Times there are
--   numbers, of which only the order is used, and their text is a parameter (`Clock`).
--   Ledger.Filter has `filter_tasks`, up to the validation of what it selects.
-- * Ledger.Phase (src/deviate/cli/micro/surface.py): `_phase_already_done`.
-- * Judge (src/deviate/core/judge_policy.py). Judge.Advisory tells advice from feedback to train on;
--   Judge.Policy has the manifest and `coerce_judge_action`. Judge.Evidence is
--   src/deviate/core/judge_evidence.py, with the reading of the diff in Judge.Evidence.Diff, and
--   Judge.Tokens the tokens of a task and its card.
-- * Micro (src/deviate/cli/micro/surface.py, src/deviate/cli/micro/pending.py and `SessionState` of
--   src/deviate/state/config.py). Micro.Session has the session and the helpers on it. Micro.Action
--   is the state that the runner threads through, with exceptions as results. Micro.Task has the rows
--   of a task, Micro.Evidence the proof that a COMPLETED row needs, Micro.Phases what the cycle calls: agents, Git, the suite and the other phases, as
--   parameters. Micro.Green is `_run_green_phase`, Micro.Cycle the loop of `_run_tdd_cycle_impl`,
--   Micro.Run its start and `_finish_tdd_cycle`, Micro.Queue `_run_all` and
--   `_execute_task_with_retry`, and Micro.Statuses the latest statuses that the queue reads, which
--   Micro.Queue takes as a function of the state. Micro.Logic and Micro.Budget carry the proofs
--   about the counters.
-- * Micro.Boundary (src/deviate/cli/micro/surface.py): the commit of the failing test that a task rests
--   on, how it is found again after a rewrite of the history, and the commits that revert_red and
--   revert_green reset to. Git is a record of answers. The walks along first parents run on fuel of
--   two more than the stored commits, which is enough: the start may be any name, and all that follow
--   are ids of stored commits, none of them twice.
-- * Micro.Verdict (src/deviate/cli/micro/surface.py): `_apply_judge_verdict`, with its routes, in
--   Micro.Verdict, the feedback and the gate on citations in Micro.Verdict.Rules, and the resets in
--   Micro.Verdict.Reset. What it calls is a record of actions.
-- * Review (src/deviate/core/review_coverage.py): `evaluate_review_coverage`, with the cards of tasks.md
--   in Review.Cards, and which findings a review may apply.
-- * Converge (src/deviate/core/converge.py, and the task ids of src/deviate/core/validation.py): the
--   order of findings, their payload in Converge.Payload, the numbers of tasks and phases in
--   Converge.Ids, and `apply_findings`, which
--   takes the append to the ledger as an argument, as the code does. The fuel of a number in decimal
--   is above the number of its digits.
-- * Release (scripts/next_version.py): the level and the number of the next release.
-- * Prelude has the shared tests, lists, texts (lists of code points, with ASCII case, spaces and digits)
--   and regular expressions.
--
-- The session object and session.json are one state: the runner saves every change before the next
-- phase reads it. The loop of the cycle runs on fuel, one unit for each round. The three GREEN
-- attempts under each of three REDs bound the rounds, and sixteen units are above that bound. A round
-- in which GREEN is skipped, since the ledger records it and no feedback asks for more, counts
-- nothing; that none occurs is a hypothesis of the theorems on termination. The fuel of a regular
-- expression lies above the length of its text.
--
-- Not modelled: the agents and their prompts, Git, the file system, the console and the monitor's
-- events other than phase changes, the phases other than GREEN, the macro and meso layers, profiles,
-- the readiness and the clean-up of a convergence pass, the setup commands and the templates.
pub mod Prelude
pub mod Ledger
pub mod Judge
pub mod Micro
pub mod Converge
pub mod Release
pub mod Review
