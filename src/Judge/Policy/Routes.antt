-- ===== src/Judge/Policy/Routes.antt =====
-- What `coerce_judge_action` of core/judge_policy.py may answer.
use deviatdd.Prelude.{
  String, Bool, true, false, not, ◌&&◌, ◌||◌, Option, none, some, ◌≡◌, refl, arith, is_some,
  if◌then◌else◌, if-cases, Bool-cases, ◌⊎◌, inl, inr,
}
use deviatdd.Prelude.Text.{Text}
use deviatdd.Judge.Policy.{
  Manifest, Kind, is_judge_action, is_revert_action, blames_test, is_mechanical, is_intact,
  canonical_action, forward_action, declared_or, coerce_judge_action, verdict_is_fail,
  verdict_is_clean_pass, blast_for_action, manifest_signals_test_integrity,
}

-- There is no action, or one of JUDGE_ACTIONS.
abbrev pub known : Option String → Bool
known none = true
known (some a) = is_judge_action a

abbrev Known : Option String → Type 0
Known r = known r ≡ true

forward-Known : (a : Option String) → Known (forward_action a)
forward-Known none = refl
forward-Known (some a) =
    let action = canonical_action a in
    if-cases Known (is_judge_action action && not (is_revert_action action)) (some action) none
      (λ h. ground arith) (λ _. refl)

declared-Known : (default a : Option String) → Known default → Known (declared_or default a)
declared-Known default none h = h
declared-Known default (some a) h =
    let action = canonical_action a in
    if-cases Known (is_judge_action action) (some action) default (λ k. k) (λ _. h)

abbrev Routed : Option String → Type 0
Routed r = is_some r ≡ true

abbrev Harmless : Option String → Type 0
Harmless r = blast_for_action r ≡ "none"

forward-Harmless : (a : Option String) → Harmless (forward_action a)
unfolding blast_for_action
forward-Harmless none = refl
forward-Harmless (some a) =
    let action = canonical_action a in
    if-cases Harmless (is_judge_action action && not (is_revert_action action)) (some action) none
      (λ h. ground arith) (λ _. refl)

declared-some :
    (default a : Option String) → is_some default ≡ true → is_some (declared_or default a) ≡ true
declared-some default none h = h
declared-some default (some a) h =
    if-cases Routed (is_judge_action (canonical_action a)) (some (canonical_action a)) default
      (λ _. refl) (λ _. h)

clean-integrity :
    (m : Manifest) (verdict : Text)
    → verdict_is_clean_pass verdict m ≡ true
    → manifest_signals_test_integrity m ≡ false
unfolding verdict_is_clean_pass
clean-integrity m verdict h = elim (Bool-cases (manifest_signals_test_integrity m)) [
  | inl k ↦ ground arith
  | inr k ↦ k
]

module _ (m : Manifest) (verdict : Text) (kind : Kind) where
  abbrev default : Option String
  default = if verdict_is_fail verdict then some "revert_green" else none

  abbrev unblamed : Bool
  unblamed =
      verdict_is_fail verdict
      && (not (is_mechanical kind || blames_test kind) && manifest_signals_test_integrity m)

  abbrev by_integrity : Option String
  by_integrity = some (if is_intact m.red_baseline_integrity then "revert_green" else "revert_red")

  abbrev otherwise : Option String
  otherwise =
      if verdict_is_clean_pass verdict m
      then forward_action m.next_action
      else declared_or default m.next_action

  -- Whatever action the manifest declares, the route is none or one of the five JUDGE actions: an
  -- alias or an unknown name never comes through.
  pub coerce_judge_action-known : known (coerce_judge_action m verdict kind) ≡ true
  unfolding coerce_judge_action
  coerce_judge_action-known =
      if-cases Known (blames_test kind && verdict_is_fail verdict) _ _ (λ _. refl)
        λ _.
          if-cases Known unblamed by_integrity _
            (λ _.
              if-cases (λ a. Known (some a)) (is_intact m.red_baseline_integrity) _ _ (λ _. refl)
                (λ _. refl))
            λ _.
              if-cases Known (verdict_is_clean_pass verdict m) _ _
                (λ _. forward-Known m.next_action)
                λ _.
                  declared-Known default m.next_action
                    (if-cases Known (verdict_is_fail verdict) _ _ (λ _. refl) (λ _. refl))

  -- A clean pass never reverts anything, whatever action the manifest declares, unless the caller has
  -- blamed the test and the verdict is a failure as well.
  pub coerce_judge_action-clean_pass :
      verdict_is_clean_pass verdict m ≡ true
      → (blames_test kind && verdict_is_fail verdict) ≡ false
      → blast_for_action (coerce_judge_action m verdict kind) ≡ "none"
  unfolding coerce_judge_action
  coerce_judge_action-clean_pass clean unforced = rw unforced (
      if-cases Harmless unblamed by_integrity _ (λ h. ground (arith, clean-integrity m verdict))
        λ _. rw clean (forward-Harmless m.next_action))

  -- A failing verdict that is not a clean pass always has a route, and if the test is to blame, it is
  -- `revert_red`.
  pub coerce_judge_action-fail :
      verdict_is_fail verdict ≡ true
      → verdict_is_clean_pass verdict m ≡ false
      → (is_some (coerce_judge_action m verdict kind) ≡ true)
        × (blames_test kind ≡ false ⊎ coerce_judge_action m verdict kind ≡ some "revert_red")
  unfolding coerce_judge_action
  coerce_judge_action-fail fail unclean = (
    if-cases Routed (blames_test kind && verdict_is_fail verdict) _ _ (λ _. refl)
        λ _.
          if-cases Routed unblamed by_integrity otherwise (λ _. refl)
            λ _. rw unclean (declared-some default m.next_action (rw fail refl)),
    elim (Bool-cases (blames_test kind)) [ inl b ↦ inr (rw (b, fail) refl) | inr b ↦ inl b ],
  )
