-- ===== src/Judge/Tokens.antt =====
-- core/judge_evidence.py: the acceptance tokens that a task must show evidence for.
use deviatdd.Prelude.{
  String, Bool, true, false, not, ◌&&◌, Option, none, some, List, [], ◌∷◌, ◌++◌, drop, str_eq, ◌==◌,
  if◌then◌else◌,
}
use deviatdd.Prelude.Text.{
  Text, codes, strip, lstrip, lower, starts_with, is_empty, is_digit, is_space,
}
use deviatdd.Prelude.Regex.{Regex, char, matches, exactly, optional, some_of, digit, chain, one_of}
use deviatdd.Ledger.Rows.{
  Row, Json, Items, Fields, null, str, array, object, nil, cons, end, field, get,
}
use deviatdd.Judge.Evidence.{unique, member}
use deviatdd.Judge.Evidence.Diff.{split_lines}

-- Three digits at the start of a text.
abbrev pub three_digits : Text → Option Text
three_digits (a ∷ b ∷ c ∷ s) =
    if is_digit a && (is_digit b && is_digit c) then some (a ∷ b ∷ c ∷ []) else none
three_digits _ = none

abbrev token_prefix : Text
token_prefix = codes "AC-PLAN-"

-- The token that starts here.
unfoldable pub token_here : Text → Option Text
token_here s =
    if starts_with s token_prefix
    then elim (three_digits (drop 8 s)) [ none ↦ none | some n ↦ some (token_prefix ++ n) ]
    else none

abbrev pub add_token : Option Text → List Text → List Text
add_token none ts = ts
add_token (some t) ts = t ∷ ts

-- _AC_TOKEN.findall; no two tokens overlap.
unfoldable pub find_ac_tokens : Text → List Text
unfolding token_here
find_ac_tokens [] = []
find_ac_tokens (c ∷ s) = add_token (token_here (c ∷ s)) (find_ac_tokens s)

unfoldable pub unique_ac_tokens : Text → List Text
unfolding find_ac_tokens unique
unique_ac_tokens text = unique [] (find_ac_tokens text)

-- A text up to the first asterisk, and the rest from it on.
unfoldable pub split_star : Text → Text × Text
split_star [] = ([], [])
split_star (c ∷ s) =
    let rest = split_star s in if c == b'*' then ([], c ∷ s) else (c ∷ rest.0, rest.1)

abbrev heading : Text × Text → Option Text
heading (name, rest) =
    if not (is_empty name) && starts_with rest (codes "**:")
    then some (lower (strip name))
    else none

abbrev after_dash : Text → Option Text
after_dash s = if starts_with s (codes "**") then heading (split_star (drop 2 s)) else none

abbrev starts_blank : Text → Bool
starts_blank [] = false
starts_blank (c ∷ s) = is_space c

abbrev after_indent : Text → Option Text
after_indent [] = none
after_indent (c ∷ s) = if c == b'-' && starts_blank s then after_dash (lstrip s) else none

-- `_section_name`, by _LABELED_SECTION
unfoldable pub section_name : Text → Option Text
unfolding lstrip lower strip split_star
section_name line = after_indent (lstrip line)

-- `- [x] TSK-001-02:` or without the box
abbrev task_head : Regex
task_head = chain (
    exactly (codes "- ")
    ∷ optional (
        chain (
          exactly (codes "[")
          ∷ one_of (exactly (codes "x") ∷ exactly (codes " ") ∷ [])
          ∷ exactly (codes "]")
          ∷ some_of (char is_space)
          ∷ []))
    ∷ exactly (codes "TSK-")
    ∷ digit
    ∷ digit
    ∷ digit
    ∷ exactly (codes "-")
    ∷ digit
    ∷ digit
    ∷ exactly (codes ":")
    ∷ [])

-- `#{1,6}\s`
abbrev hash : Regex
hash = exactly (codes "#")

abbrev markdown_head : Regex
markdown_head = chain (
    hash
    ∷ optional hash
    ∷ optional hash
    ∷ optional hash
    ∷ optional hash
    ∷ optional hash
    ∷ char is_space
    ∷ [])

-- _CARD_STRUCTURE_LINE
unfoldable pub is_structure_line : Text → Bool
is_structure_line = matches (one_of (task_head ∷ exactly (codes "  - ") ∷ markdown_head ∷ []))

-- "\n".join(lines)
unfoldable pub join_lines : List Text → Text
join_lines [] = []
join_lines (l ∷ []) = l
join_lines (l ∷ m ∷ ls) = l ++ (10 ∷ join_lines (m ∷ ls))

abbrev flush : List Text → List Text
flush [] = []
flush (l ∷ ls) = join_lines (l ∷ ls) ∷ []

abbrev named : List Text → Option Text → Bool
named names none = false
named names (some name) = member name names

abbrev is_heading : Option Text → Bool
is_heading none = false
is_heading (some _) = true

-- The loop of `_extract_labeled_sections`.
unfoldable pub extract_from : List Text → List Text → Bool → List Text → List Text
unfolding section_name is_structure_line join_lines
extract_from names current capturing [] = flush current
extract_from names current capturing (line ∷ lines) =
    let captured = extract_from names (current ++ line ∷ []) true lines in
    let opened = flush current ++ extract_from names (line ∷ []) true lines in
    let closed = flush current ++ extract_from names [] false lines in
    if capturing && not (is_structure_line line)
    then captured
    else if named names (section_name line)
    then opened
    else closed

unfoldable pub extract_labeled_sections : List Text → Text → List Text
unfolding extract_from split_lines
extract_labeled_sections names text = extract_from names [] false (split_lines text)

-- The loop of `_strip_labeled_sections`.
unfoldable pub strip_from : List Text → Bool → List Text → List Text
unfolding section_name is_structure_line
strip_from names skipping [] = []
strip_from names skipping (line ∷ lines) =
    let dropped = strip_from names true lines in
    let kept = line ∷ strip_from names false lines in
    if named names (section_name line)
    then dropped
    else if skipping && not (is_structure_line line)
    then dropped
    else kept

unfoldable pub strip_labeled_sections : List Text → Text → Text
unfolding strip_from split_lines join_lines
strip_labeled_sections names text = join_lines (strip_from names false (split_lines text))

-- _AC_SECTION_NAMES, _NON_AC_SECTION_NAMES
abbrev ac_section_names : List Text
ac_section_names = codes "acceptance criteria" ∷ []

abbrev non_ac_section_names : List Text
non_ac_section_names =
    codes "rationale"
    ∷ codes "type"
    ∷ codes "mode"
    ∷ codes "files"
    ∷ codes "details"
    ∷ codes "test strategy"
    ∷ codes "verification"
    ∷ codes "estimated time"
    ∷ codes "dependency"
    ∷ codes "judge feedback"
    ∷ codes "goal"
    ∷ codes "flow references"
    ∷ []

abbrev or_stripped : Text → List Text → Text
or_stripped text [] = strip_labeled_sections non_ac_section_names text
or_stripped text (b ∷ bs) = join_lines (b ∷ bs)

unfoldable pub card_ac_scope : Text → Text
unfolding extract_labeled_sections strip_labeled_sections join_lines
card_ac_scope text = or_stripped text (extract_labeled_sections ac_section_names text)

-- The field of an object.
unfoldable pub field_of : String → Fields → Json
field_of key end = null
field_of key (field k v rest) = let later = field_of key rest in if str_eq k key then v else later

abbrev pub text_of : Json → Text
text_of (str s) = codes s
text_of _ = []

abbrev pub item_field : String → Json → Text
item_field key (object fields) = text_of (field_of key fields)
item_field key _ = []

abbrev add_nonempty : Text → List Text → List Text
add_nonempty [] ts = ts
add_nonempty (c ∷ s) ts = (c ∷ s) ∷ ts

-- The loop of `_criterion_ids`; a criterion id is a text.
unfoldable pub criteria_from : Items → List Text
unfolding strip field_of
criteria_from nil = []
criteria_from (cons j items) =
    add_nonempty (strip (item_field "criterion_id" j)) (criteria_from items)

unfoldable pub criterion_ids : Json → List Text
unfolding criteria_from unique
criterion_ids (array items) = unique [] (criteria_from items)
criterion_ids _ = []

abbrev or_card : List Text → Text → List Text
or_card [] card = unique_ac_tokens (card_ac_scope card)
or_card (t ∷ ts) card = t ∷ ts

-- `resolve_task_ac_tokens`
unfoldable pub resolve_task_ac_tokens : Row → Text → List Text
unfolding criterion_ids unique_ac_tokens card_ac_scope
resolve_task_ac_tokens task card = or_card (criterion_ids (get "acceptance_criteria" task)) card
