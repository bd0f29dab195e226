-- ===== src/Micro/Verdict/Gates.antt =====
-- The gate on the citations of a JUDGE pass in cli/micro/surface.py.
use deviatdd.Prelude.{
  Bool, true, false, not, Option, none, some, ◌≡◌, refl, sym, ap, ◌∙◌, ◌⊎◌, inl, inr, if◌then◌else◌,
  true_or_false, String, subst,
}
use deviatdd.Prelude.Text.{Text}
use deviatdd.Judge.Evidence
use deviatdd.Judge.Policy.{verdict_is_clean_pass}
use deviatdd.Micro.Task.{Task}
use deviatdd.Micro.Action.{State}
use deviatdd.Micro.Verdict.Rules.{
  Handover, Judging, Ruling, ruling, rule, after_gate, chosen_action, is_test_bearing_tdd, is_gated,
  evidence_failure, judge_feedback,
}

module _ {W : Type 0} (judging : Judging W) (task : Task) (m : Handover) (s : State W) where
  abbrev Reason : Ruling → Type 0
  Reason r =
      (verdict_is_clean_pass m.verdict m.policy ≡ true)
      ⊎ (is_test_bearing_tdd task ≡ false)
      ⊎ (evidence_failure judging task m s r.action ≡ none)

  gate-Reason :
      (action : Option String) (feedback : Text) (failure : Option Evidence.Failure)
      → evidence_failure judging task m s action ≡ failure
      → (after_gate judging task action feedback failure).gated ≡ true
      → Reason (after_gate judging task action feedback failure)
  gate-Reason action feedback none e gated = inr (inr e)
  gate-Reason action feedback (some failure) e gated = cc

  branch-Reason :
      (clean tdd open_gate : Bool) (action : Option String) (feedback : Text)
      → verdict_is_clean_pass m.verdict m.policy ≡ clean
      → is_test_bearing_tdd task ≡ tdd
      → is_gated action ≡ open_gate
      → (r : Ruling)
      → (if clean
          then ruling action feedback
          else if not tdd
          then ruling action feedback
          else if not open_gate
          then ruling action feedback
          else after_gate judging task action feedback (evidence_failure judging task m s action))
        ≡ r
      → r.gated ≡ true
      → Reason r
  branch-Reason true tdd open_gate action feedback c t o r e gated = inl c
  branch-Reason false false open_gate action feedback c t o r e gated = inr (inl t)
  branch-Reason false true false action feedback c t o r e gated =
      true_or_false gated (sym (ap (λ (q : Ruling). q.gated) e) ∙ o)
  branch-Reason false true true action feedback c t o r e gated =
      subst (λ q. q.gated ≡ true → Reason q) e (gate-Reason action feedback _ refl) gated

  -- The citations of a handover are kept for COMPLETED, and a forward route is open, only for a clean
  -- pass, for a task that is no test-driven one, or if the citations have passed the gate for the action
  -- that is taken.
  pub rule-gated :
      (rule judging task m s).gated ≡ true
      → (verdict_is_clean_pass m.verdict m.policy ≡ true)
        ⊎ (is_test_bearing_tdd task ≡ false)
        ⊎ (evidence_failure judging task m s (rule judging task m s).action ≡ none)
  unfolding rule
  rule-gated gated =
      branch-Reason _ _ _ (chosen_action m s.session.failure_kind)
        (judge_feedback judging.strip_citations m) refl refl refl (rule judging task m s) refl gated
