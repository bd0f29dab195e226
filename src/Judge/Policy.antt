-- ===== src/Judge/Policy.antt =====
-- core/judge_policy.py: what a JUDGE manifest declares, and the route that it is normalized to.
pub mod Routes
use deviatdd.Prelude.{
  String, Bool, true, false, not, ◌&&◌, ◌||◌, Option, none, some, List, [], ◌∷◌, ◌++◌, any, str_eq,
  if◌then◌else◌,
}
use deviatdd.Prelude.Text.{
  Text, codes, upper, lower, strip, starts_with, contains, text_eq, is_empty,
}
use deviatdd.Prelude.Regex.{Regex, search, ignoring_case, one_of}
use deviatdd.Judge.Advisory.{feedback_is_refactor_only}

-- `red_baseline_integrity`
pub data Integrity : Type 0 where
  undeclared intact broken : Integrity

-- An item of `violations`: a text, or a dict or object with a category, which may be empty.
pub data Violation : Type 0 where
  plain categorized : Text → Violation

-- A `HandoverManifest`, the fields that the policy reads. Texts are stored as `str(value or "")`, and
-- `none` for violations stands for a value that is not a list.
pub record Manifest : Type 0 where
  pub red_baseline_integrity : Integrity
  pub evaluation_test_integrity : Text
  pub test_integrity : Text
  pub violations : Option (List Violation)
  pub train_feedback : Text
  pub next_action : Option String

-- The `failure_kind` argument.
pub data Kind : Type 0 where
  unset mechanical test_defect no_failing_test : Kind

-- JUDGE_ACTIONS
abbrev pub is_revert_action : String → Bool
is_revert_action a = str_eq a "revert_red" || str_eq a "revert_green"

abbrev pub is_judge_action : String → Bool
is_judge_action a =
    is_revert_action a
    || (str_eq a "continue_refactor"
        || (str_eq a "skip_refactor" || str_eq a "proceed_to_refactor_no_diff"))

abbrev is_broken : Integrity → Bool
is_broken broken = true
is_broken _ = false

abbrev pub is_intact : Integrity → Bool
is_intact intact = true
is_intact _ = false

unfoldable pub says_fail : Text → Bool
says_fail value = text_eq (upper (strip value)) (codes "FAIL")

unfoldable pub category_is_test_integrity : Text → Bool
category_is_test_integrity category = contains (lower (strip category)) (codes "test integrity")

abbrev violates_integrity : Violation → Bool
violates_integrity (plain text) = false
violates_integrity (categorized category) = category_is_test_integrity category

abbrev items : Option (List Violation) → List Violation
items none = []
items (some vs) = vs

unfoldable pub manifest_signals_test_integrity : Manifest → Bool
unfolding says_fail category_is_test_integrity
manifest_signals_test_integrity m =
    if is_broken m.red_baseline_integrity
    then true
    else if says_fail m.evaluation_test_integrity
    then true
    else if says_fail m.test_integrity
    then true
    else any violates_integrity (items m.violations)

unfoldable pub verdict_is_fail : Text → Bool
verdict_is_fail verdict =
    let token = upper (strip verdict) in
    contains token (codes "COMPLIANCE_VIOLATION") || contains token (codes "COMPLIANCE_FAIL")

abbrev categories_of : Violation → List Text
categories_of (plain text) = if is_empty (strip text) then [] else text ∷ []
categories_of (categorized category) = if is_empty category then [] else category ∷ []

unfoldable pub violation_categories : List Violation → List Text
violation_categories [] = []
violation_categories (v ∷ vs) = categories_of v ++ violation_categories vs

-- _BLOCKING_VIOLATION_RE
abbrev blocking_violation_re : Regex
blocking_violation_re = one_of (
    ignoring_case (codes "spec non-compliance")
    ∷ ignoring_case (codes "no-shortcut")
    ∷ ignoring_case (codes "test integrity")
    ∷ ignoring_case (codes "security")
    ∷ ignoring_case (codes "gate bypass")
    ∷ ignoring_case (codes "governance")
    ∷ ignoring_case (codes "scope violation")
    ∷ ignoring_case (codes "constitution")
    ∷ [])

unfoldable pub has_blocking_violations : Manifest → Bool
unfolding violation_categories
has_blocking_violations m =
    any (search blocking_violation_re) (violation_categories (items m.violations))

unfoldable pub verdict_is_clean_pass : Text → Manifest → Bool
unfolding manifest_signals_test_integrity has_blocking_violations verdict_is_fail
verdict_is_clean_pass verdict m =
    let token = upper (strip verdict) in
    if manifest_signals_test_integrity m
    then false
    else if has_blocking_violations m
    then false
    else if feedback_is_refactor_only m.train_feedback
    then true
    else if verdict_is_fail verdict
    then false
    else if contains token (codes "COMPLIANCE_PASS")
    then true
    else if not (is_empty token)
    then false
    else starts_with (upper (strip m.train_feedback)) (codes "COMPLIANCE_PASS")

-- `failure_kind in {"test_defect", "no_failing_test"}`
abbrev pub blames_test : Kind → Bool
blames_test test_defect = true
blames_test no_failing_test = true
blames_test _ = false

abbrev pub is_mechanical : Kind → Bool
is_mechanical mechanical = true
is_mechanical _ = false

-- JUDGE_REVERT_ACTION_ALIASES
abbrev pub canonical_action : String → String
canonical_action a =
    if str_eq a "revert_to_red"
    then "revert_green"
    else if str_eq a "revert_before"
    then "revert_red"
    else a

-- The route of a clean pass: a forward action that was declared, or none.
abbrev pub forward_action : Option String → Option String
forward_action none = none
forward_action (some a) =
    let action = canonical_action a in
    if is_judge_action action && not (is_revert_action action) then some action else none

-- The route of any other payload: the declared action, or the default.
abbrev pub declared_or : Option String → Option String → Option String
declared_or default none = default
declared_or default (some a) =
    let action = canonical_action a in if is_judge_action action then some action else default

unfoldable pub coerce_judge_action : Manifest → Text → Kind → Option String
unfolding manifest_signals_test_integrity verdict_is_fail verdict_is_clean_pass
coerce_judge_action m verdict kind =
    if blames_test kind && verdict_is_fail verdict
    then some "revert_red"
    else if verdict_is_fail verdict
        && (not (is_mechanical kind || blames_test kind) && manifest_signals_test_integrity m)
    then some (if is_intact m.red_baseline_integrity then "revert_green" else "revert_red")
    else if verdict_is_clean_pass verdict m
    then forward_action m.next_action
    else declared_or (if verdict_is_fail verdict then some "revert_green" else none) m.next_action

unfoldable pub blast_for_action : Option String → String
blast_for_action none = "none"
blast_for_action (some a) =
    if str_eq a "revert_red" then "red" else if str_eq a "revert_green" then "green" else "none"
