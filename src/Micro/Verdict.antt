-- ===== src/Micro/Verdict.antt =====
-- `_apply_judge_verdict` of cli/micro/surface.py: what a JUDGE handover does to the session, the ledger
-- and the branch.
pub mod Rules
pub mod Reset
pub mod Settled
pub mod Applied
pub mod Decided
pub mod Honoured
pub mod Outcome
pub mod Gates
mod Examples
use deviatdd.Prelude.{
  String, Bool, true, false, not, ◌&&◌, ◌||◌, Option, none, some, List, [], ◌∷◌, ◌++◌, str_eq,
  if◌then◌else◌,
}
use deviatdd.Prelude.Text.{Text, codes, upper, text_eq, is_empty}
use deviatdd.Judge.Policy.{is_revert_action, verdict_is_clean_pass}
use deviatdd.Judge.Advisory.{extract_refactor_note}
use deviatdd.Micro.Task.{append_task_row, Task, status_row, written, append_status_transition}
use deviatdd.Micro.Session.{
  Session, Phase, test_failure_prefix, is_forward_route, is_green_test_failure,
  bind_judge_forward_route,
}
use deviatdd.Micro.Action.{
  State, Failure, phase_failed, hitl_escalation, Result, ok, raise, Action, pure, throw, session_of,
  update, ◌>>=◌, ◌>>◌,
}
use deviatdd.Micro.Green.{tail_7900}
use deviatdd.Micro.Run.{tolerate}
use deviatdd.Micro.Cycle.{or_text}
use deviatdd.Micro.Verdict.Rules.{
  Handover, Judging, Ruling, judge_feedback, judge_manifest_schema_errors, rule, is_nil,
}
use deviatdd.Micro.Verdict.Reset.{call, plan, refresh_anchors, revert_red, revert_green}

abbrev pub reject_with : Text → Session → Session
reject_with feedback s = record s { train_feedback = feedback; judge_rejected = true }

abbrev pub or_default : String → String → String
or_default s default = if str_eq s "" then default else s

-- A GREEN whose suite is red trains again with the output of the suite.
abbrev pub remap_to_train : Text → Session → Session
remap_to_train dump s = record s {
  pending_judge_action = "";
  train_feedback = dump;
  judge_rejected = false;
  current_phase = Phase.green;
}

abbrev pub go_forward : String → String → Phase → Text → Session → Session
go_forward task_id action phase note s =
    let bound = bind_judge_forward_route task_id (record s { pending_judge_action = action }) in
    record bound { current_phase = phase; train_feedback = note; judge_rejected = false }

abbrev pub pass_without_action : Session → Session
pass_without_action s = record s {
  current_phase = Phase.judge;
  train_feedback = [];
  judge_rejected = false;
}

abbrev pub is_text : String → Option String → Bool
is_text name none = false
is_text name (some a) = str_eq a name

abbrev pub repaired_feedback : Text × Text → Text
repaired_feedback (out, err) =
    test_failure_prefix
    ++ (codes "\n\n<test_output>\n"
        ++ (tail_7900 out ++ (codes "\n" ++ (tail_7900 err ++ codes "\n</test_output>"))))

-- `suite_test_dump`
abbrev pub dump_when : Bool → Session → Text
dump_when red s = if red then s.train_feedback else []

module _ {W : Type 0} (judging : Judging W) (task : Task) where
  open judging use {
    detect_contradiction, confirm, commit_repairs, run_suite, completed_evidence, commit_completed,
  }

  abbrev pub append : String → String → Action W (Unit {0})
  append status reason = append_status_transition completed_evidence task status reason

  -- An exception of the append is caught.
  abbrev pub append_hitl : String → Action W (Unit {0})
  append_hitl reason s = (
    ok tt,
    record s {
      ledger =
          written s.ledger (append_task_row task (status_row task "HITL_PENDING" reason) s.ledger);
    },
  )

  -- `_halt_judge_requirement_contradiction`
  abbrev pub halt : String → Text → Action W (Unit {0})
  halt summary feedback = do
    update (reject_with feedback)
    append_hitl summary
    throw hitl_escalation

  abbrev pub revert_by : String → Text → Action W (Unit {0})
  revert_by action feedback =
      if str_eq action "revert_red"
      then revert_red judging task feedback
      else revert_green judging task feedback

  abbrev pub unless_contradicted : Option String → String → Text → Action W (Unit {0})
  unless_contradicted (some summary) action feedback = halt summary feedback
  unless_contradicted none action feedback = do call confirm; revert_by action feedback

  -- The violation routes.
  unfoldable pub reject : String → Text → Action W (Unit {0})
  unfolding status_row append_task_row revert_red revert_green
  reject action feedback = do
    plan judging task action
    if is_empty feedback
        then throw phase_failed
        else (λ s. unless_contradicted (detect_contradiction feedback s) action feedback s)

  abbrev pub polish_after : String → Text → Action W (Unit {0})
  polish_after action note = do
    update (go_forward task.id action Phase.judge note)
    append "JUDGE" ""

  abbrev pub complete_after : Action W (Unit {0})
  complete_after = do
    update (go_forward task.id "skip_refactor" Phase.idle [])
    (λ s. tolerate (append "COMPLETED" "" s))
    call commit_completed

  abbrev pub default_route : Handover → Bool → Bool → Option String → Option String
  default_route m no_refactor suite_red none =
      if verdict_is_clean_pass m.verdict m.policy && not suite_red
      then some (if no_refactor then "skip_refactor" else "continue_refactor")
      else none
  default_route m no_refactor suite_red (some a) = some a

  abbrev pub pass : Text → Option String → Action W (Unit {0})
  pass note action =
      if is_text "continue_refactor" action
      then polish_after "continue_refactor" note
      else if is_text "proceed_to_refactor_no_diff" action
      then polish_after "proceed_to_refactor_no_diff" note
      else if is_text "skip_refactor" action
      then complete_after
      else (do update pass_without_action; append "JUDGE" "")

  -- The forward routes, once the default of an omitted action has been put in.
  unfoldable pub accept : Handover → Bool → Bool → Text → Option String → Action W (Unit {0})
  unfolding verdict_is_clean_pass bind_judge_forward_route extract_refactor_note
      append_status_transition
  accept m no_refactor suite_red dump action =
      if suite_red
      then update (remap_to_train dump)
      else pass (extract_refactor_note m.policy.train_feedback)
          (default_route m no_refactor suite_red action)

  abbrev pub route : Handover → Bool → Bool → Text → Option String → Text → Action W (Unit {0})
  route m no_refactor suite_red dump none feedback = accept m no_refactor suite_red dump none
  route m no_refactor suite_red dump (some a) feedback =
      if is_revert_action a then reject a feedback else accept m no_refactor suite_red dump (some a)

  -- The suite is run again after a commit of repairs.
  abbrev pub after_repairs : Option (Text × Text) → Session → Session
  after_repairs (some output) s = record s { train_feedback = repaired_feedback output }
  after_repairs none s = if is_green_test_failure s then record s { train_feedback = [] } else s

  abbrev pub repair : Option Bool → Action W (Unit {0})
  repair none = throw phase_failed
  repair (some false) = pure tt
  repair (some true) = do output ← call run_suite; update (after_repairs output)

  -- `repairs` says whether `repairs_before` is given, as the JUDGE phase of the cycle does.
  abbrev pub commit_first : Bool → Action W (Unit {0})
  commit_first repairs = if repairs then (do done ← call commit_repairs; repair done) else pure tt

  abbrev pub record_ruling : Handover → Ruling → Session → Session
  record_ruling m ruling s = record s {
    last_judge_verdict = upper m.verdict;
    validated_evidence = if ruling.gated then m.evidence_rows else [];
  }

  unfoldable pub decide : Handover → Bool → Action W (Unit {0})
  unfolding is_green_test_failure rule upper reject accept
  decide m no_refactor s =
      let red = is_green_test_failure s.session in
      let dump = dump_when red s.session in
      let ruling = rule judging task m s in
      route m no_refactor red dump ruling.action ruling.feedback
        (record s { session = record_ruling m ruling s.session })

  abbrev pub escalate : Handover → Action W (Unit {0})
  escalate m = do
    update (reject_with (codes (or_default m.summary "JUDGE requires human resolution")))
    append "HITL_PENDING" (or_default m.summary "JUDGE requires human resolution")
    throw hitl_escalation

  unfoldable pub apply_judge_verdict : Handover → Bool → Bool → Action W (Unit {0})
  unfolding append_status_transition judge_manifest_schema_errors is_green_test_failure decide
  apply_judge_verdict m no_refactor repairs =
      if m.is_hitl
      then escalate m
      else if not (is_nil (judge_manifest_schema_errors m))
      then throw phase_failed
      else (do commit_first repairs; refresh_anchors judging task; decide m no_refactor)
