-- ===== src/Micro/Verdict/Rules.antt =====
-- The JUDGE handover in cli/micro/surface.py, what its application calls, and the route that is chosen.
use deviatdd.Prelude.{
  String, Bool, true, false, not, ◌&&◌, ◌||◌, Option, none, some, List, [], ◌∷◌, ◌++◌, map, select,
  str_eq, if◌then◌else◌,
}
use deviatdd.Prelude.Text.{Text, codes, upper, strip, text_eq, is_empty}
use deviatdd.Prelude.Regex.{Regex, alt, search, ignoring_case, one_of, at_start, chain}
use deviatdd.Ledger.Rows.{Row, Line, Json}
use deviatdd.Judge.Policy.{
  Manifest, Kind, is_revert_action, verdict_is_clean_pass, coerce_judge_action, blames_test,
}
use deviatdd.Judge.Evidence.{
  Item, Side, test, impl, missing_tokens, empty_quote, unknown_path, quote_not_in_source,
  quote_too_generic, normalized_paths, evaluate_judge_evidence,
}
use deviatdd.Judge.Evidence
use deviatdd.Judge.Evidence.Diff.{Sources}
use deviatdd.Micro.Task.{Task}
use deviatdd.Micro.Session.{
  FailureKind, no_kind, mechanical, test_defect, no_failing_test, is_forward_route,
}
use deviatdd.Micro.Action.{State, Failure, Result}
use deviatdd.Micro.Cycle.{or_text}
use deviatdd.Micro.Boundary.Git.{Git}

-- The fields of `HandoverManifest` that are read here. `violations_text` is what
-- `format_violations_as_feedback` gives, and `evidence_rows` are the items as dicts.
pub record Handover : Type 0 where
  pub policy : Manifest
  pub verdict : Text
  pub is_hitl : Bool
  pub summary : String
  pub rationale : Text
  pub violations_text : Text
  pub parse_errors : List Text
  pub evidence : List Item
  pub evidence_rows : List Row
  pub files : List Text
  pub test_file : Text

-- A call that changes the ledger file and the world, and not the session.
abbrev pub Call : Type 0 → Type 0 → Type 0
Call W A = List Line → W → Result A × (List Line × W)

-- How the steps of a rollback end: done; with EnvNotReadyError for a reset task that is not defined;
-- with an exception that `_is_fatal_missing_revert_green_boundary` names, or another EnvNotReadyError;
-- or with any other exception, after which the runner goes on.
pub data Rollback : Type 0 where
  reset_done env_undefined tolerated : Rollback
  fatal : Failure → Rollback

abbrev pub Attempt : Type 0 → Type 0
Attempt W = List Line → W → Rollback × (List Line × W)

-- What `_apply_judge_verdict` calls: Git, the suite, the operator, and functions of other modules.
pub record Judging (W : Type 0) : Type 0 where
  pub git_of : W → Git
  -- `strip_revert_line_citations`
  pub strip_citations : Text → Text
  -- `resolve_task_ac_tokens` on the task and its card
  pub ac_tokens : State W → List Text
  -- `git show HEAD:path` for the paths that exist
  pub head_contents : State W → List Text → Sources
  pub injected_diff : Text
  pub declared_paths : List Text
  -- `red_baseline` is given.
  pub has_baseline : Bool
  pub restore_baseline : Attempt W
  -- The summary of `detect_judge_requirement_contradiction` on the earlier rounds.
  pub detect_contradiction : Text → State W → Option String
  -- `_confirm_manual_judge_revert`; it does nothing when `assume_yes` is set.
  pub confirm : Call W (Unit {0})
  -- Whether repairs were committed; none is RuntimeError.
  pub commit_repairs : Call W (Option Bool)
  -- The output of the suite if it fails.
  pub run_suite : Call W (Option (Text × Text))
  pub execute_rollback : Text → Attempt W
  pub reset_env_red : Attempt W
  pub reset_env_green : Attempt W
  -- `_commit_judge_feedback_and_advance` without the advance: HEAD after the commit.
  pub commit_feedback : Text → String → Call W Text
  -- `_append_judge_revert_jsonl` with `revert_red`
  pub append_revert : Text → Call W (Unit {0})
  pub completed_evidence : Task → State W → Result (Option Json)
  -- `_commit_completed_ledger`
  pub commit_completed : Call W (Unit {0})

-- `_judge_feedback_from_manifest`: the first text that is not empty.
unfoldable pub judge_feedback : (Text → Text) → Handover → Text
judge_feedback strip_citations m =
    let text =
      or_text m.policy.train_feedback
        (or_text m.violations_text (or_text m.rationale (codes m.summary))) in
    if is_empty text then [] else strip_citations text

-- _EVIDENCE_SCHEMA_ERROR_RE
abbrev schema_error_re : Regex
schema_error_re = one_of (
    chain (
      alt at_start (ignoring_case (codes "."))
      ∷ ignoring_case (codes "evidence")
      ∷ one_of (ignoring_case (codes ".") ∷ ignoring_case (codes ":") ∷ [])
      ∷ [])
    ∷ ignoring_case (codes "EvidenceItem")
    ∷ [])

unfoldable pub judge_manifest_schema_errors : Handover → List Text
judge_manifest_schema_errors m = select (search schema_error_re) m.parse_errors

abbrev pub is_nil {ℓ} : {A : Type ℓ} → List A → Bool
is_nil [] = true
is_nil (_ ∷ _) = false

-- _TDD_EVIDENCE_GATE_ROUTES, and no action.
abbrev pub is_gated : Option String → Bool
is_gated none = true
is_gated (some a) = is_forward_route a

-- _NON_TDD_EXECUTION_MODES
unfoldable pub is_test_bearing_tdd : Task → Bool
unfolding upper strip
is_test_bearing_tdd task =
    let mode =
      upper
        (strip (codes (if str_eq task.execution_mode "" then "TDD" else task.execution_mode))) in
    not (
      text_eq mode (codes "EXECUTE")
      || (text_eq mode (codes "IMMEDIATE") || text_eq mode (codes "DIRECT")))

abbrev pub kind_of : FailureKind → Kind
kind_of no_kind = Kind.unset
kind_of mechanical = Kind.mechanical
kind_of test_defect = Kind.test_defect
kind_of no_failing_test = Kind.no_failing_test

abbrev pub is_no_failing_test : FailureKind → Bool
is_no_failing_test no_failing_test = true
is_no_failing_test _ = false

abbrev side_text : Side → Text
side_text test = codes "test"
side_text impl = codes "impl"

-- ", ".join(tokens)
abbrev joined : List Text → Text
joined [] = []
joined (t ∷ []) = t
joined (t ∷ u ∷ ts) = t ++ (codes ", " ++ joined (u ∷ ts))

-- The feedback that the runner writes for citations that fail.
unfoldable pub describe : Evidence.Failure → Text
describe (missing_tokens tokens) =
    codes "JUDGE evidence is missing, empty, or partial for injected acceptance tokens: "
    ++ joined tokens
describe (empty_quote side) = codes "JUDGE evidence " ++ (side_text side ++ codes "_quote is empty")
describe (unknown_path side label) =
    codes "JUDGE evidence "
    ++ (side_text side ++ (codes "_path is not in the injected diff or HEAD: " ++ label))
describe (quote_not_in_source side path) =
    codes "JUDGE evidence "
    ++ (side_text side ++ (codes "_quote is not an exact substring of " ++ path))
describe (quote_too_generic side path) =
    codes "JUDGE evidence "
    ++ (side_text side ++ (codes "_quote is below the uniqueness floor for " ++ path))

-- The action, the feedback of the manifest with what the runner wrote into it, and whether the
-- citations are kept for COMPLETED.
pub record Ruling : Type 0 where
  pub action : Option String
  pub feedback : Text
  pub gated : Bool

abbrev pub ruling : Option String → Text → Ruling
ruling action feedback = record { action = action; feedback = feedback; gated = is_gated action }

abbrev pub is_revert : Option String → Bool
is_revert none = false
is_revert (some a) = is_revert_action a

-- `_coerce_judge_action`, without a revert on a clean pass.
unfoldable pub declared_action : Handover → FailureKind → Option String
unfolding coerce_judge_action verdict_is_clean_pass
declared_action m kind =
    let action = coerce_judge_action m.policy m.verdict (kind_of kind) in
    if verdict_is_clean_pass m.verdict m.policy
      && (is_revert action && not (blames_test (kind_of kind)))
    then none
    else action

-- JUDGE finds that the behaviour exists without an implementation.
abbrev pub exists_already : Handover → FailureKind → Bool
exists_already m kind =
    is_no_failing_test kind && text_eq (upper m.verdict) (codes "COMPLIANCE_PASS")

abbrev pub chosen_action : Handover → FailureKind → Option String
chosen_action m kind =
    if exists_already m kind && is_gated (declared_action m kind)
    then some "skip_refactor"
    else declared_action m kind

module _ {W : Type 0} (judging : Judging W) (task : Task) where
  -- `_unique_relpaths(declared_paths, _declared_regression_paths(manifest))`
  abbrev declared : Handover → List Text
  declared m =
      normalized_paths (judging.declared_paths ++ normalized_paths (m.files ++ m.test_file ∷ []))

  abbrev evidence_paths : Handover → List Text
  evidence_paths m =
      normalized_paths
        (map (λ i. i.test_path) m.evidence ++ (map (λ i. i.impl_path) m.evidence ++ declared m))

  abbrev action_text : Option String → Option Text
  action_text none = none
  action_text (some a) = some (codes a)

  -- What the gate on the citations of a forward route says.
  unfoldable pub evidence_failure : Handover → State W → Option String → Option Evidence.Failure
  unfolding evaluate_judge_evidence normalized_paths
  evidence_failure m s action = evaluate_judge_evidence (record {
    plan_tokens = [];
    injected_diff = judging.injected_diff;
    evidence = m.evidence;
    next_action = action_text action;
    head_contents = judging.head_contents s (evidence_paths m);
    declared_paths = declared m;
    required_tokens =
        some (if exists_already m s.session.failure_kind then [] else judging.ac_tokens s);
    use_head = none;
  })

  abbrev pub after_gate : Option String → Text → Option Evidence.Failure → Ruling
  after_gate action feedback none = ruling action feedback
  after_gate action feedback (some failure) =
      ruling (some "revert_green")
        (if is_empty feedback then judging.strip_citations (describe failure) else feedback)

  -- `_rewrite_unmatched_tdd_pass` on the chosen action.
  unfoldable pub rule : Handover → State W → Ruling
  unfolding verdict_is_clean_pass declared_action judge_feedback is_test_bearing_tdd
      evidence_failure describe
  rule m s =
      let action = chosen_action m s.session.failure_kind in
      let feedback = judge_feedback judging.strip_citations m in
      if verdict_is_clean_pass m.verdict m.policy
      then ruling action feedback
      else if not (is_test_bearing_tdd task)
      then ruling action feedback
      else if not (is_gated action)
      then ruling action feedback
      else after_gate action feedback (evidence_failure m s action)
