-- ===== src/Micro/Cycle/Budget.antt =====
-- One round of the loop of `_run_tdd_cycle_impl`: it counts a GREEN attempt or a RED escalation.
use deviatdd.Prelude.{
  ℕ, ◌+◌, ◌<◌, ◌⊎◌, inl, inr, Bool, true, false, [], ◌∷◌, ◌++◌, ◌≡◌, refl, ap, ◌∙◌, arith, leb, ltb,
  if◌then◌else◌, not, ◌&&◌, str_eq,
}
use deviatdd.Prelude.Text.{Text, codes, strip, is_empty}
use deviatdd.Micro.Task.{Task}
use deviatdd.Micro.Phases.{Phases}
use deviatdd.Micro.Session.{
  Session, red, green, judge, inject_escalate_note, consume_retry_gate_after_red,
  is_green_test_failure, is_phase_red, clear_judge_retry_gate, bind_judge_forward_route,
}
use deviatdd.Micro.Action.{ok, State, Action, pure, ◌>>=◌, ◌>>◌}
use deviatdd.Micro.Green.{run_green, green_is_skipped}
use deviatdd.Micro.Cycle.{
  again, leave, raise_train_exhausted, account_red_escalate, escalate_to_new_red, append_failed,
  count_escalate, drop_red_sha, persist_revert, recommit_feedback, after_rollback,
  train_green_or_escalate, train_again, retrain, suite_red, suite_green, after_judge, judge_step,
  after_green, green_step, or_text, default_feedback, dump_of, drop_forward_route, keep_dump,
  restore_forward_route,
}
use deviatdd.Micro.Budget.{KeepBudget, run_green-Counted}
use deviatdd.Micro.Logic.{
  Ends-ok, Ends, Ends-weaken, KeepsCounts, Counted, KeepsSession, update-KeepsCounts,
  push_event-KeepsCounts, session_of-KeepsCounts, pure-KeepsCounts, if-KeepsCounts, Counted-keep,
  bind-KeepsCounts, Counted-then, Counted-bind, Counted-if,
}

-- A RED escalation below the limit: GREEN starts over.
abbrev pub Escalated : ℕ → ℕ → ℕ → Type 0
Escalated r g' r' = (g' ≡ 0) × (r' ≡ r + 1) × (r' < 3)

-- A GREEN attempt below the limit.
abbrev pub Attempted : ℕ → ℕ → ℕ → ℕ → Type 0
Attempted g r g' r' = (g' ≡ g + 1) × (r' ≡ r) × (g < 3)

abbrev pub Moved : ℕ → ℕ → ℕ → ℕ → Type 0
Moved g r g' r' = Escalated r g' r' ⊎ Attempted g r g' r'

note-KeepsSession : (reason : Text) → KeepsSession (inject_escalate_note reason)
unfolding inject_escalate_note
note-KeepsSession reason s = ground arith

gate-KeepsSession : KeepsSession consume_retry_gate_after_red
unfolding consume_retry_gate_after_red clear_judge_retry_gate
gate-KeepsSession s = ground arith

drop-KeepsSession : KeepsSession drop_forward_route
drop-KeepsSession s = ground arith

dump-KeepsSession : (dump : Text) → KeepsSession (keep_dump dump)
dump-KeepsSession dump s = ground arith

module _ {W : Type 0} (phases : Phases W) (keep : KeepBudget phases) (task : Task) where
  open keep use {recover_keeps, rollback_keeps, commit_keeps, reset_keeps, red_keeps, judge_keeps}

  account_red_escalate-Escalated :
      (s : State W)
      → Counted (Escalated s.session.red_attempts) (account_red_escalate phases task s)
  unfolding account_red_escalate raise_train_exhausted append_failed Counted Ends
  account_red_escalate-Escalated s =
      Counted-if (Escalated s.session.red_attempts) (leb 3 (s.session.red_attempts + 1))
        (raise_train_exhausted phases task) (pure tt)
        (record s { session = count_escalate s.session }) (λ h. tt)
        (λ h. (refl, refl, ground arith))

  recommit-KeepsCounts : (feedback : Text) → KeepsCounts (recommit_feedback phases task feedback)
  recommit-KeepsCounts feedback = if-KeepsCounts _ _ _ (pure-KeepsCounts _ _ _) (
      bind-KeepsCounts _ _ (update-KeepsCounts _ drop_red_sha λ s. (refl, refl)) λ _.
        bind-KeepsCounts _ _ (commit_keeps feedback)
          λ _. update-KeepsCounts _ (persist_revert feedback) λ s. (refl, refl))

  rollback-KeepsCounts : (b : Bool) → KeepsCounts (after_rollback phases task b)
  rollback-KeepsCounts false = pure-KeepsCounts _ _ _
  rollback-KeepsCounts true =
      bind-KeepsCounts _ _ (session_of-KeepsCounts _)
        λ s. bind-KeepsCounts _ _ (recommit-KeepsCounts (strip s.train_feedback)) λ _. reset_keeps

  escalate-Escalated :
      (reason : Text) (s : State W)
      → Counted (Escalated s.session.red_attempts) (escalate_to_new_red phases task reason s)
  unfolding escalate_to_new_red
  escalate-Escalated reason s =
      Counted-then _ (account_red_escalate phases task s) _ (account_red_escalate-Escalated s) λ _.
        bind-KeepsCounts _ _
          (update-KeepsCounts _ (inject_escalate_note reason) (note-KeepsSession reason))
          λ _. bind-KeepsCounts _ _ rollback_keeps λ rolled.
            bind-KeepsCounts _ _ (rollback-KeepsCounts rolled) λ _.
              bind-KeepsCounts _ _ (push_event-KeepsCounts _ red) λ _.
                bind-KeepsCounts _ _ red_keeps
                  λ _. update-KeepsCounts _ consume_retry_gate_after_red gate-KeepsSession

  -- From a started GREEN attempt, the action ends with a counted move.
  unfoldable Moves : {A : Type 0} → ℕ → ℕ → Action W A → Type 0
  Moves g r m =
      (t : State W)
      → Attempted g r t.session.green_attempts t.session.red_attempts
      → Counted (Moved g r) (m t)

  module _ {A : Type 0} (g r : ℕ) where
    pure-Moves : (a : A) → Moves g r (pure {W = W} a)
    unfolding Moves Counted Ends
    pure-Moves a t h = inr h

    Moves-at :
        (m : Action W A)
        → Moves g r m
        → (t : State W) → Attempted g r t.session.green_attempts t.session.red_attempts
        → Counted (Moved g r) (m t)
    unfolding Moves
    Moves-at m h = h

    if-Moves :
        (b : Bool) (m n : Action W A) → Moves g r m → Moves g r n → Moves g r (if b then m else n)
    if-Moves true m n hm hn = hm
    if-Moves false m n hm hn = hn

  module _ {A B : Type 0} (g r : ℕ) where
    bind-Moves :
        (m : Action W A) (f : A → Action W B)
        → KeepsCounts m
        → ((a : A) → Moves g r (f a))
        → Moves g r (m >>= f)
    unfolding Moves
    bind-Moves m f keeps moves t h =
        Counted-bind (Attempted g r) (Moved g r) (m t) f (Counted-keep (Attempted g r) m t keeps h)
          moves

    Moves-then :
        (m : Action W A) (f : A → Action W B)
        → Moves g r m
        → ((a : A) → KeepsCounts (f a))
        → Moves g r (m >>= f)
    unfolding Moves
    Moves-then m f moves keeps t h = Counted-then (Moved g r) (m t) f (moves t h) keeps

  escalate-Moved :
      (g r : ℕ) (reason : Text) (t : State W)
      → t.session.red_attempts ≡ r
      → Counted (Moved g r) (escalate_to_new_red phases task reason t)
  unfolding Counted
  escalate-Moved g r reason t h =
      Ends-weaken _ _ (escalate_to_new_red phases task reason t) (escalate-Escalated reason t)
        λ _ u e. inl (e.0, e.1 ∙ ap (λ x. x + 1) h, e.2)

  module _ (g r : ℕ) where
    escalate-Moves : (reason : Text) → Moves g r (escalate_to_new_red phases task reason)
    unfolding Moves
    escalate-Moves reason t h = escalate-Moved g r reason t h.1

    escalate_again-Moves :
        (reason : Text) (failing : Bool)
        → Moves g r (escalate_to_new_red phases task reason >> pure (again failing))
    escalate_again-Moves reason failing =
        Moves-then _ _ _ _ (escalate-Moves reason) λ _. pure-KeepsCounts _ _ (again failing)

    train-Moves : Moves g r (train_green_or_escalate phases task)
    unfolding train_green_or_escalate
    train-Moves = bind-Moves _ _ _ _ (session_of-KeepsCounts _) λ s.
        if-Moves _ _ (ltb s.green_attempts 3) _ _ (pure-Moves _ _ false) (
          Moves-then _ _ _ _ (escalate-Moves (codes "green budget exhausted"))
            λ _. pure-KeepsCounts _ _ true)

    train_again-Moves :
        (feedback : Text) (failing : Bool) → Moves g r (train_again phases task feedback failing)
    train_again-Moves feedback failing = Moves-then _ _ _ _ train-Moves λ escalated.
        if-KeepsCounts escalated _ _ (pure-KeepsCounts _ _ (again failing)) (
          bind-KeepsCounts _ _ (update-KeepsCounts _ (retrain feedback) λ s. (refl, refl))
            λ _. pure-KeepsCounts _ _ (again failing))

    suite_red-Moves : (dump : Text) → Moves g r (suite_red phases task dump)
    suite_red-Moves dump =
        bind-Moves _ _ _ _ (update-KeepsCounts _ drop_forward_route drop-KeepsSession) λ _.
          bind-Moves _ _ _ _ (update-KeepsCounts _ (keep_dump dump) (dump-KeepsSession dump))
            λ _. train_again-Moves (or_text dump default_feedback) true

    restore-KeepsSession :
        (no_refactor : Bool) → KeepsSession (restore_forward_route task.id no_refactor)
    unfolding bind_judge_forward_route
    restore-KeepsSession no_refactor s = ground arith

    suite_green-Moves :
        (no_refactor : Bool) (s : Session) → Moves g r (suite_green phases task no_refactor s)
    suite_green-Moves no_refactor s = if-Moves _ _ _ _ _ (pure-Moves _ _ (leave false)) (
        if-Moves _ _ _ _ _
          (bind-Moves _ _ _ _
            (update-KeepsCounts _ (restore_forward_route task.id no_refactor)
              (restore-KeepsSession no_refactor))
            λ _. pure-Moves _ _ (leave false))
          (if-Moves _ _ _ _ _ (train_again-Moves default_feedback false)
            (pure-Moves _ _ (leave false))))

    after_judge-Moves :
        (no_refactor failing : Bool) (dump : Text)
        → Moves g r (after_judge phases task no_refactor failing dump)
    unfolding after_judge
    after_judge-Moves no_refactor failing dump = bind-Moves _ _ _ _ (session_of-KeepsCounts _) λ s.
        if-Moves _ _ (str_eq s.pending_judge_action "revert_red") _ _
          (escalate_again-Moves (codes "test defect") failing)
          (if-Moves _ _ failing _ _ (suite_red-Moves dump) (suite_green-Moves no_refactor s))

    judge_step-Moves :
        (no_refactor failing : Bool) (dump : Text)
        → Moves g r (judge_step phases task no_refactor failing dump)
    unfolding judge_step
    judge_step-Moves no_refactor failing dump =
        bind-Moves _ _ _ _ (push_event-KeepsCounts _ judge) λ _.
          bind-Moves _ _ _ _ (judge_keeps no_refactor)
            λ _. after_judge-Moves no_refactor failing dump

    after_green-Moves :
        (no_judge no_refactor : Bool) → Moves g r (after_green phases task no_judge no_refactor)
    unfolding after_green
    after_green-Moves no_judge no_refactor = bind-Moves _ _ _ _ (session_of-KeepsCounts _) λ s.
        if-Moves _ _ (not (is_empty s.train_feedback) && is_phase_red s.current_phase) _ _
          (Moves-then _ _ _ _ train-Moves
            λ _. pure-KeepsCounts _ _ (again (is_green_test_failure s)))
          (if-Moves _ _ no_judge _ _ (pure-Moves _ _ (leave (is_green_test_failure s)))
            (judge_step-Moves no_refactor (is_green_test_failure s) (dump_of s)))

  pub escalate_again-Moved :
      (reason : Text) (failing : Bool) (s : State W)
      → Counted
          (Moved s.session.green_attempts s.session.red_attempts)
          ((escalate_to_new_red phases task reason >> pure (again failing)) s)
  escalate_again-Moved reason failing s =
      Counted-then (Moved s.session.green_attempts s.session.red_attempts)
        (escalate_to_new_red phases task reason s) (λ _. pure (again failing))
        (escalate-Moved _ _ reason s refl) λ _. pure-KeepsCounts _ _ (again failing)

  -- A round that does not skip GREEN.
  pub green_step-Moved :
      (no_judge no_refactor failing : Bool) (s : State W)
      → green_is_skipped phases task s ≡ false
      → Counted
          (Moved s.session.green_attempts s.session.red_attempts)
          (green_step phases task no_judge no_refactor failing s)
  unfolding green_step
  green_step-Moved no_judge no_refactor failing s h =
      let g = s.session.green_attempts in
      let r = s.session.red_attempts in
      Counted-if (Moved g r) (leb 3 g) _ _ s
        (λ _. escalate_again-Moved (codes "green budget exhausted") failing s)
        λ few.
          let t = record s { events = s.events ++ green ∷ [] } in
          Counted-bind (λ g' r'. (g' ≡ g + 1) × (r' ≡ r)) (Moved g r) (run_green phases task t) _
            (run_green-Counted phases keep task t (unfold green_is_skipped in h))
            λ _ u e.
              Moves-at g r (after_green phases task no_judge no_refactor)
                (after_green-Moves g r no_judge no_refactor) u (e.0, e.1, ground arith)

  -- If the phases, agents, Git steps and the suite that the cycle calls leave the two retry counters
  -- alone, an escalation to a new RED that returns has counted one RED escalation, below three, and has
  -- given GREEN its attempts back.
  pub escalate_to_new_red-Escalated :
      (reason : Text) (s t : State W)
      → escalate_to_new_red phases task reason s ≡ (ok tt, t)
      → Escalated s.session.red_attempts t.session.green_attempts t.session.red_attempts
  unfolding Counted
  escalate_to_new_red-Escalated reason s t returned =
      Ends-ok
        (λ _ u. Escalated s.session.red_attempts u.session.green_attempts u.session.red_attempts) _
        tt t returned (escalate-Escalated reason s)
