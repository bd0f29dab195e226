-- ===== src/Micro/Evidence/Gate.antt =====
-- When the evidence gate lets a COMPLETED row through.
use deviatdd.Prelude.{
  Bool, true, false, not, ◌&&◌, ◌||◌, Option, none, some, List, ◌++◌, any, all, if◌then◌else◌,
}
use deviatdd.Prelude.Text.{Text, strip, is_empty}
use deviatdd.Ledger.Rows.{Row}
use deviatdd.Judge.Evidence.{Item}
use deviatdd.Micro.Action.{State, phase_failed, other_error, Result, raise}
use deviatdd.Micro.Task.{Task, status_row, evidence_field, append_status}
use deviatdd.Micro.Verdict.Rules.{is_test_bearing_tdd, is_nil}
use deviatdd.Micro.Evidence.{
  Bundle, Proof, Refusal, items_of_bundle, is_test_path, leaves_root, cites, required_tokens,
  json_of, completed_evidence,
}

abbrev passes : Option Refusal → Bool
passes none = true
passes (some r) = false

module _ {W : Type 0} (proof : Proof W) where
  open proof use {is_file}

  -- The test that an item names is a file of a test tree of the repository.
  abbrev is_test_file : State W → Text → Bool
  is_test_file s path =
      not (is_empty path) && (not (leaves_root path) && (is_test_path path && is_file path s))

  abbrev cites_test_file : State W → Item → Bool
  cites_test_file s item = is_test_file s (strip item.test_path)

  -- Each token is cited by an item, and each item names a test file; nothing is asked without a token.
  abbrev supports : State W → List Text → List Item → Bool
  supports s tokens items =
      is_nil tokens || (all (λ t. any (cites t) items) tokens && all (cites_test_file s) items)

  -- What the COMPLETED row of a task has to rest on.
  unfoldable pub backed : Task → Option Bundle → State W → Bool
  unfolding is_test_bearing_tdd required_tokens strip is_test_path
  backed task bundle s =
      not (is_test_bearing_tdd task)
      || supports s (required_tokens proof task s) (items_of_bundle bundle)

  -- The row of a COMPLETED transition, with its bundle.
  abbrev pub completed_row : Task → Option Bundle → Row
  completed_row task bundle =
      status_row task "COMPLETED" "" ++ evidence_field (json_of proof bundle)

  -- What follows once the items are read.
  abbrev pub gated : Task → State W → Option (Option Bundle) → Result (Unit {0}) × State W
  gated task s none = (raise other_error, s)
  gated task s (some bundle) =
      if backed task bundle s
      then append_status (completed_evidence proof) task (completed_row task bundle) s
      else (raise phase_failed, s)
