-- ===== src/Judge/Advisory.antt =====
-- What a JUDGE feedback text is, by core/judge_policy.py: advice for REFACTOR, or a contract to train on.
use deviatdd.Prelude.{
  ◌≡◌, refl, Bool, true, false, ◌||◌, Option, none, some, [], ◌∷◌, if◌then◌else◌,
}
use deviatdd.Prelude.Text.{Text, codes, upper, strip, starts_with, contains, is_empty}
use deviatdd.Prelude.Regex.{
  Regex, word_boundary, then_, star, matches, search, ignoring_case, spaces, not_newline, one_of,
}

-- _RETRY_INSTRUCTION_RE
abbrev retry_instruction_re : Regex
retry_instruction_re = then_ (ignoring_case (codes "the next ")) (
    then_ (one_of (ignoring_case (codes "green") ∷ ignoring_case (codes "red") ∷ []))
      (then_ (ignoring_case (codes " attempt must")) (then_ spaces (ignoring_case (codes ":")))))

-- _REFACTOR_ONLY_BODY_RE; under (?s) and (?i) the pattern `[^\n]*` still stops at a newline.
abbrev refactor_only_body_re : Regex
refactor_only_body_re = then_ spaces (
    then_
      (star (
        then_ (ignoring_case (codes "COMPLIANCE_PASS"))
          (then_ word_boundary (then_ (star not_newline) spaces))))
      (ignoring_case (codes "REFACTOR NOTE:")))

-- The text from the first match of a literal on: `(REFACTOR NOTE:.*)` with re.DOTALL.
unfoldable pub from_first : Text → Text → Option Text
from_first pattern [] = none
from_first pattern (c ∷ s) =
    let later = from_first pattern s in
    if matches (ignoring_case pattern) (c ∷ s) then some (c ∷ s) else later

-- `upper.startswith("COMPLIANCE_VIOLATION") or upper.startswith("COMPLIANCE_FAIL")`
abbrev pub starts_as_failure : Text → Bool
starts_as_failure upper_text =
    starts_with upper_text (codes "COMPLIANCE_VIOLATION")
    || starts_with upper_text (codes "COMPLIANCE_FAIL")

unfoldable pub feedback_is_refactor_only : Text → Bool
unfolding upper strip
feedback_is_refactor_only feedback =
    let text = strip feedback in
    if is_empty text
    then false
    else if starts_as_failure (upper text)
    then false
    else if search retry_instruction_re text
    then false
    else matches refactor_only_body_re text

abbrev stripped_note : Option Text → Text
stripped_note none = []
stripped_note (some t) = strip t

abbrev note_or : Option Text → Text → Text
note_or none other = other
note_or (some t) other = strip t

unfoldable pub extract_refactor_note : Text → Text
unfolding upper strip from_first
extract_refactor_note feedback =
    let text = strip feedback in
    let found = from_first (codes "REFACTOR NOTE:") text in
    if is_empty text
    then []
    else if contains (upper text) (codes "COMPLIANCE_VIOLATION")
        || contains (upper text) (codes "COMPLIANCE_FAIL")
    then stripped_note found
    else note_or found (if starts_with (upper text) (codes "COMPLIANCE_PASS") then [] else text)

unfoldable pub train_feedback_is_advisory : Text → Bool
unfolding feedback_is_refactor_only extract_refactor_note
train_feedback_is_advisory feedback =
    let text = strip feedback in
    if is_empty text
    then false
    else if feedback_is_refactor_only text
    then true
    else if is_empty (extract_refactor_note text)
    then false
    else if search retry_instruction_re text
    then false
    else if starts_as_failure (upper text)
    then false
    else feedback_is_refactor_only (extract_refactor_note text)

test_advisory :
    train_feedback_is_advisory (codes "COMPLIANCE_PASS ok. REFACTOR NOTE: rename x") ≡ true
unfolding train_feedback_is_advisory from_first search matches starts_with contains
test_advisory = refl

test_training :
    train_feedback_is_advisory (codes "REFACTOR NOTE: x. The next GREEN attempt must: y") ≡ false
unfolding train_feedback_is_advisory from_first search matches starts_with contains
test_training = refl
