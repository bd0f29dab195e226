-- ===== src/Micro/Verdict/Applied.antt =====
-- The forward routes of `_apply_judge_verdict` in cli/micro/surface.py, and the verdict as a whole.
use deviatdd.Prelude.{
  String, Bool, true, false, Option, none, some, List, [], str_eq, ◌≡◌, refl, sym, ap, subst, ◌∙◌,
  if◌then◌else◌,
}
use deviatdd.Prelude.Text.{Text}
use deviatdd.Ledger.Rows.{Line, Json}
use deviatdd.Micro.Task.{
  Task, append_status_transition, append_status, appended, append_completed, task_phase_done,
  status_row,
}
use deviatdd.Micro.Session.{Session, judge, idle, is_forward_route, bind_judge_forward_route}
use deviatdd.Micro.Action.{
  State, phase_failed, other_error, train_exhausted, hitl_escalation, env_not_ready, typer_exit,
  Result, ok, raise, continue,
}
use deviatdd.Micro.Logic.{Ends}
use deviatdd.Micro.Run.{tolerate}
use deviatdd.Micro.Verdict.Rules.{Judging}
use deviatdd.Micro.Verdict.Reset.{call}
use deviatdd.Micro.Verdict.Settled.{Settled, forwarded, passed}
use deviatdd.Micro.Verdict.{
  go_forward, polish_after, complete_after, pass, pass_without_action, is_text, append,
}

module _ {W : Type 0} (judging : Judging W) (task : Task) where
  open judging use {completed_evidence, commit_completed}

  appended-session :
      (s : State W) (r : Option (Bool × List Line))
      → (appended completed_evidence task s r).1.session ≡ s.session
  appended-session s none = refl
  appended-session s (some (_, after)) = refl

  append_completed-session :
      (s : State W) (bundle : Result (Option Json))
      → (append_completed completed_evidence task s bundle).1.session ≡ s.session
  append_completed-session s (raise e) = refl
  append_completed-session s (ok bundle) = appended-session s _

  -- A status row leaves the session as it is, also when it raises.
  append-session :
      (status reason : String) (s : State W)
      → (append judging task status reason s).1.session ≡ s.session
  unfolding append_status_transition
  append-session status reason s =
      by_status (str_eq status "COMPLETED") (task_phase_done task "COMPLETED" s.ledger)
    where
      by_status :
          (completed done : Bool)
          → (if completed
              then (if done
                  then (ok tt, s)
                  else append_completed completed_evidence task s (completed_evidence task s))
              else append_status completed_evidence task
                  (status_row task status reason)
                  s).1.session
            ≡ s.session
      by_status true true = refl
      by_status true false = append_completed-session s _
      by_status false done = appended-session s _

  tolerate-state : (r : Result (Unit {0}) × State W) → (tolerate r).1 ≡ r.1
  tolerate-state (ok a, t) = refl
  tolerate-state (raise other_error, t) = refl
  tolerate-state (raise phase_failed, t) = refl
  tolerate-state (raise train_exhausted, t) = refl
  tolerate-state (raise hitl_escalation, t) = refl
  tolerate-state (raise env_not_ready, t) = refl
  tolerate-state (raise typer_exit, t) = refl

  after_completed-session :
      (r : Result (Unit {0}) × State W)
      → (continue r (λ _. call commit_completed)).1.session ≡ r.1.session
  after_completed-session (ok _, t) = refl
  after_completed-session (raise e, t) = refl

  module _ (before : String) (suite_red : Bool) (dump : Text) where
    abbrev Good : {A : Type 0} → A → State W → Type 0
    Good _ t = Settled task.id before suite_red dump t.session

    settled :
        (r : Result (Unit {0}) × State W) (session : Session)
        → Settled task.id before suite_red dump session
        → r.1.session ≡ session
        → Ends Good r
    unfolding Ends
    settled (ok a, t) session good same =
        subst (Settled task.id before suite_red dump) (sym same) good
    settled (raise e, t) session good same = tt

    polish_after-Settled :
        (action : String) (note : Text) (s : State W)
        → suite_red ≡ false
        → is_forward_route action ≡ true
        → Ends Good (polish_after judging task action note s)
    unfolding bind_judge_forward_route
    polish_after-Settled action note s green is_forward =
        let t = record s { session = go_forward task.id action judge note s.session } in
        settled (append judging task "JUDGE" "" t) t.session
          (forwarded t.session green is_forward refl refl refl) (append-session "JUDGE" "" t)

    complete_after-Settled :
        (s : State W) → suite_red ≡ false → Ends Good (complete_after judging task s)
    unfolding bind_judge_forward_route
    complete_after-Settled s green =
        let t = record s { session = go_forward task.id "skip_refactor" idle [] s.session } in
        let r = append judging task "COMPLETED" "" t in
        settled (continue (tolerate r) (λ _. call commit_completed)) t.session
          (forwarded t.session green refl refl refl refl)
          (after_completed-session (tolerate r)
            ∙ (ap (λ (u : State W). u.session) (tolerate-state r)
                ∙ append-session "COMPLETED" "" t))

    pub pass-Settled :
        (note : Text) (action : Option String) (s : State W)
        → suite_red ≡ false
        → s.session.pending_judge_action ≡ before
        → Ends Good (pass judging task note action s)
    pass-Settled note action s green pending =
        by_action (is_text "continue_refactor" action)
          (is_text "proceed_to_refactor_no_diff" action) (is_text "skip_refactor" action)
      where
        passing : State W
        passing = record s { session = pass_without_action s.session }

        by_action :
            (a b c : Bool)
            → Ends Good (
                (if a
                    then polish_after judging task "continue_refactor" note
                    else if b
                    then polish_after judging task "proceed_to_refactor_no_diff" note
                    else if c
                    then complete_after judging task
                    else (λ u.
                        append judging task "JUDGE" ""
                          (record u { session = pass_without_action u.session })))
                  s)
        by_action true b c = polish_after-Settled "continue_refactor" note s green refl
        by_action false true c =
            polish_after-Settled "proceed_to_refactor_no_diff" note s green refl
        by_action false false true = complete_after-Settled s green
        by_action false false false =
            settled (append judging task "JUDGE" "" passing) passing.session
              (passed passing.session green pending refl refl) (append-session "JUDGE" "" passing)
