-- ===== src/Ledger/TaskId.antt =====
-- Task ids: the pattern of core/converge.py, and the validation of `TaskRecord.id` in state/ledger.py.
-- Digits are those of ASCII.
use deviatdd.Prelude.{
  ℕ, Bool, true, false, ◌&&◌, Option, none, some, [], ◌∷◌, drop, ◌==◌, ◌+◌, ◌-◌, ◌*◌, if◌then◌else◌,
}
use deviatdd.Prelude.Text.{Text, codes, starts_with, is_digit}

-- `(\d{3})-(\d{2})`: the second number
abbrev pub number_at : Text → Option ℕ
number_at (a ∷ b ∷ c ∷ d ∷ e ∷ f ∷ s) =
    if is_digit a && (is_digit b && (is_digit c && (d == b'-' && (is_digit e && is_digit f))))
    then some (10 * (e - b'0') + (f - b'0'))
    else none
number_at _ = none

-- _TASK_ID_RE at the start of a text
unfoldable pub number_here : Text → Option ℕ
unfolding starts_with
number_here s = if starts_with s (codes "TSK-") then number_at (drop 4 s) else none

abbrev pub ends_line : Text → Bool
ends_line [] = true
ends_line (c ∷ []) = c == 10
ends_line (c ∷ d ∷ s) = false

abbrev pub is_some : Option ℕ → Bool
is_some none = false
is_some (some n) = true

-- `^TSK-\d{3}-\d{2}$`
unfoldable pub is_task_id : Text → Bool
unfolding number_here
is_task_id id = is_some (number_here id) && ends_line (drop 10 id)
