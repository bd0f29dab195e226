-- ===== src/Converge/Ids.antt =====
-- Task ids: `format_task_id` of core/validation.py, and `next_task_ids` and `max_phase_number` of
-- core/converge.py.
use deviatdd.Prelude.{
  ℕ, zero, suc, Bool, true, not, Option, none, some, List, [], ◌∷◌, ◌++◌, map, all, drop, select,
  ltb, leb, ◌==◌, if◌then◌else◌, ◌+◌, ◌-◌, ◌*◌, ◌/◌, ◌%◌,
}
use deviatdd.Prelude.Text.{Text, codes, strip, starts_with, is_digit}
use deviatdd.Ledger.TaskId.{number_here}
use deviatdd.Prelude.Regex.{is_word}

-- The digits at the end of a text.
unfoldable pub trailing_digits : Text → Text
trailing_digits [] = []
trailing_digits (c ∷ s) =
    let rest = trailing_digits s in if all is_digit (c ∷ s) then c ∷ s else rest

abbrev pub or_whole : Text → Text → Text
or_whole [] whole = whole
or_whole (c ∷ s) whole = c ∷ s

-- `digits or "0"`, then `zfill(3)`
abbrev pub zfill : Text → Text
zfill [] = b'0' ∷ b'0' ∷ b'0' ∷ []
zfill (a ∷ []) = b'0' ∷ b'0' ∷ a ∷ []
zfill (a ∷ b ∷ []) = b'0' ∷ a ∷ b ∷ []
zfill (a ∷ b ∷ c ∷ s) = a ∷ b ∷ c ∷ s

unfoldable pub task_issue_ordinal : Text → Text
unfolding strip trailing_digits
task_issue_ordinal issue_id =
    let raw = strip issue_id in zfill (select is_digit (or_whole (trailing_digits raw) raw))

-- A number in decimal; as many units of fuel as the number are more than its digits.
unfoldable pub decimal : ℕ → ℕ → Text
decimal zero n = []
decimal (suc f) n =
    let upper = decimal f (n / 10) in (if ltb n 10 then [] else upper) ++ (b'0' + n % 10) ∷ []

-- `f"{index:02d}"`
unfoldable pub two_digits : ℕ → Text
unfolding decimal
two_digits index =
    (if ltb index 100 then [] else decimal index (index / 100))
    ++ (b'0' + (index / 10) % 10) ∷ (b'0' + index % 10) ∷ []

unfoldable pub format_task_id : Text → ℕ → Text
unfolding task_issue_ordinal two_digits
format_task_id issue_id index =
    codes "TSK-" ++ (task_issue_ordinal issue_id ++ b'-' ∷ two_digits index)

abbrev pub add_number : Option ℕ → List ℕ → List ℕ
add_number none ns = ns
add_number (some n) ns = n ∷ ns

-- The numbers of _TASK_ID_RE.finditer; no two matches overlap.
unfoldable pub used_numbers : Text → List ℕ
unfolding number_here
used_numbers [] = []
used_numbers (c ∷ s) = add_number (number_here (c ∷ s)) (used_numbers s)

-- max(numbers, default=0)
unfoldable pub max_of : List ℕ → ℕ
max_of [] = 0
max_of (n ∷ ns) = let m = max_of ns in if leb n m then m else n

abbrev pub first_free : List ℕ → ℕ
first_free [] = 1
first_free (n ∷ ns) = max_of (n ∷ ns) + 1

-- range(start, start + count)
unfoldable pub range_from : ℕ → ℕ → List ℕ
range_from start zero = []
range_from start (suc count) = start ∷ range_from (suc start) count

unfoldable pub next_task_ids : Text → Text → ℕ → List Text
unfolding used_numbers max_of range_from format_task_id
next_task_ids issue_id tasks_text count =
    map (format_task_id issue_id) (range_from (first_free (used_numbers tasks_text)) count)

abbrev ends_word : Text → Bool
ends_word [] = true
ends_word (c ∷ s) = not (is_word c)

-- `(\d+)\b`: the digits after the first, and the number so far
unfoldable pub number_from : ℕ → Text → Option ℕ
number_from n [] = some n
number_from n (c ∷ s) =
    let longer = number_from (10 * n + (c - b'0')) s in
    if is_digit c then longer else if ends_word (c ∷ s) then some n else none

abbrev phase_number : Text → Option ℕ
phase_number [] = none
phase_number (c ∷ s) = if is_digit c then number_from (c - b'0') s else none

-- _PHASE_RE on one line
abbrev phase_here : Text → Option ℕ
phase_here line = if starts_with line (codes "## Phase ") then phase_number (drop 9 line) else none

unfoldable pub phase_numbers : List Text → List ℕ
unfolding number_from
phase_numbers [] = []
phase_numbers (line ∷ lines) = add_number (phase_here line) (phase_numbers lines)

abbrev push : ℕ → List Text → List Text
push c [] = (c ∷ []) ∷ []
push c (l ∷ ls) = (c ∷ l) ∷ ls

-- The places where `^` matches under re.MULTILINE are behind a newline.
unfoldable pub multiline : Text → List Text
multiline [] = []
multiline (c ∷ s) = let rest = multiline s in if c == 10 then [] ∷ rest else push c rest

unfoldable pub max_phase_number : Text → ℕ
unfolding max_of phase_numbers multiline
max_phase_number tasks_text = max_of (phase_numbers (multiline tasks_text))
