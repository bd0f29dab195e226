-- ===== src/Review/Cards.antt =====
-- `_task_cards` of core/review_coverage.py: the part of tasks.md that describes each task.
use deviatdd.Prelude.{
  ◌&&◌, ◌||◌, Option, none, some, List, [], ◌∷◌, ◌++◌, drop, ◌==◌, if◌then◌else◌,
}
use deviatdd.Prelude.Text.{Text, codes, strip, lstrip, starts_with, is_digit, is_space}
use deviatdd.Judge.Evidence.Diff.{Sources, split_lines}
use deviatdd.Judge.Tokens.{three_digits, join_lines}

-- `-NN:` after the issue number
abbrev id_tail : Text → Text → Option Text
id_tail n (d ∷ a ∷ b ∷ c ∷ s) =
    if d == b'-' && (is_digit a && (is_digit b && c == b':'))
    then some (codes "TSK-" ++ (n ++ (d ∷ a ∷ b ∷ [])))
    else none
id_tail n _ = none

abbrev id_here : Text → Option Text
id_here s =
    if starts_with s (codes "TSK-")
    then elim (three_digits (drop 4 s)) [ none ↦ none | some n ↦ id_tail n (drop 7 s) ]
    else none

-- A box needs white space after it.
abbrev after_box : Text → Text
after_box [] = []
after_box (c ∷ s) = if is_space c then lstrip s else []

abbrev after_bullet : Text → Option Text
after_bullet s =
    if starts_with s (codes "[x]") || starts_with s (codes "[ ]")
    then id_here (after_box (drop 3 s))
    else id_here s

-- _TASK_HEAD_RE: the task id of a line that opens a card
unfoldable pub task_head : Text → Option Text
unfolding lstrip
task_head line = if starts_with line (codes "- ") then after_bullet (drop 2 line) else none

abbrev close_card : Option Text → List Text → Sources → Sources
close_card none block cards = cards
close_card (some task_id) block cards = (task_id, strip (join_lines block)) ∷ cards

abbrev extended : Option Text → List Text → Text → List Text
extended none block line = []
extended (some _) block line = block ++ line ∷ []

-- The loop: the open card, its lines so far, and the cards before, of which a later one of the same
-- task comes first.
unfoldable pub cards_from : Option Text → List Text → Sources → List Text → Sources
unfolding task_head strip join_lines
cards_from current block cards [] = close_card current block cards
cards_from current block cards (line ∷ lines) = elim (task_head line) [
  | none ↦ cards_from current (extended current block line) cards lines
  | some task_id ↦ cards_from (some task_id) (line ∷ []) (close_card current block cards) lines
]

unfoldable pub task_cards : Text → Sources
unfolding cards_from split_lines
task_cards text = cards_from none [] [] (split_lines text)
