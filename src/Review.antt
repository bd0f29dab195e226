-- ===== src/Review.antt =====
-- core/review_coverage.py: which plan tokens of an issue no completed task claims, and what a review
-- may apply. The files beside an issue are read through the source file that names its workspace.
pub mod Cards
pub mod Coverage
pub mod Members
pub mod Claims
mod Examples
use deviatdd.Prelude.{
  ℕ, String, Bool, true, false, not, ◌&&◌, ◌||◌, Option, none, some, List, [], ◌∷◌, ◌++◌, map, any,
  select, str_eq, leb, ◌==◌, if◌then◌else◌,
}
use deviatdd.Prelude.Text.{Text, codes, strip, upper, lower, text_eq, is_empty}
use deviatdd.Ledger.Rows.{
  Row, Json, Items, null, boolean, integer, str, array, object, nil, cons, end, field, get, json_eq,
  truthy,
}
use deviatdd.Ledger.Unblocked.{put, nonempty}
use deviatdd.Judge.Evidence.{member}
use deviatdd.Judge.Evidence.Diff.{Sources, find_source}
use deviatdd.Judge.Tokens.{unique_ac_tokens, resolve_task_ac_tokens, field_of}
use deviatdd.Review.Cards.{task_cards}

pub record ReviewCoverage : Type 0 where
  pub issue_id : Option String
  pub plan_tokens : List Text
  pub claimed : List Text
  pub uncovered : List Text

-- specs/issues.jsonl, and plan.md, tasks.md and tasks.jsonl beside the source file of an issue.
pub record Workspace : Type 0 where
  pub issues : List Row
  pub plan_md : String → Option Text
  pub tasks_md : String → Option Text
  pub tasks_jsonl : String → List Row

unfoldable pub complete : ReviewCoverage → Bool
complete coverage = elim coverage.uncovered [ [] ↦ true | _ ∷ _ ↦ false ]

abbrev later_source : Option String → Option String → Option String
later_source source none = source
later_source source (some s) = some s

-- `_latest_source_file`
unfoldable pub latest_source_file : String → List Row → Option String
latest_source_file issue_id [] = none
latest_source_file issue_id (rec ∷ recs) =
    later_source
      (if json_eq (get "issue_id" rec) (str issue_id)
        then nonempty (get "source_file" rec)
        else none)
      (latest_source_file issue_id recs)

-- `latest[task_id] = rec`
abbrev pub put_row : Option String → Row → List (String × Row) → List (String × Row)
put_row none rec latest = latest
put_row (some task_id) rec latest = put task_id rec latest

abbrev pub task_id_of : Row → Option String
task_id_of rec = nonempty (get "id" rec)

unfoldable pub rows_from : List (String × Row) → List Row → List (String × Row)
unfolding put
rows_from latest [] = latest
rows_from latest (rec ∷ recs) = rows_from (put_row (task_id_of rec) rec latest) recs

-- `_latest_rows`, each with its key
unfoldable pub latest_rows : List Row → List (String × Row)
unfolding rows_from
latest_rows recs = rows_from [] recs

abbrev add_text : Json → List Text → List Text
add_text (str s) found = if str_eq s "" then found else codes s ∷ found
add_text _ found = found

-- `item.get("ac") or item.get("criterion_id")`, or the item itself if it is a text
abbrev cited_token : Json → Json
cited_token (object fields) =
    if truthy (field_of "ac" fields) then field_of "ac" fields else field_of "criterion_id" fields
cited_token (str s) = str s
cited_token _ = null

unfoldable pub evidence_texts : Items → List Text
unfolding field_of
evidence_texts nil = []
evidence_texts (cons item items) = add_text (cited_token item) (evidence_texts items)

abbrev items_of : Json → Items
items_of (array items) = items
items_of _ = nil

abbrev evidence_items : Json → Items
evidence_items (object fields) = items_of (field_of "items" fields)
evidence_items evidence = items_of evidence

-- " ".join(found)
unfoldable pub join_words : List Text → Text
join_words [] = []
join_words (w ∷ []) = w
join_words (w ∷ v ∷ ws) = w ++ (32 ∷ join_words (v ∷ ws))

unfoldable pub persisted_evidence_tokens : Row → List Text
unfolding field_of evidence_texts join_words unique_ac_tokens
persisted_evidence_tokens row =
    unique_ac_tokens (join_words (evidence_texts (evidence_items (get "evidence" row))))

abbrev or_no_card : Option Text → Text
or_no_card none = []
or_no_card (some card) = card

abbrev cards_of : Option Text → Sources
cards_of none = []
cards_of (some text) = task_cards text

-- What one row adds to `claimed`; only a COMPLETED row of this issue adds anything.
unfoldable pub row_tokens : String → Sources → String → Row → List Text
unfolding resolve_task_ac_tokens persisted_evidence_tokens
row_tokens issue_id cards task_id row =
    if json_eq (get "issue_id" row) (str issue_id) && json_eq (get "status" row) (str "COMPLETED")
    then resolve_task_ac_tokens row (or_no_card (find_source (codes task_id) cards))
      ++ persisted_evidence_tokens row
    else []

unfoldable pub tokens_of : String → Sources → List (String × Row) → List Text
unfolding row_tokens
tokens_of issue_id cards [] = []
tokens_of issue_id cards ((task_id, row) ∷ latest) =
    row_tokens issue_id cards task_id row ++ tokens_of issue_id cards latest

-- `_claimed_tokens`
unfoldable pub claimed_tokens : Workspace → String → String → List Text
unfolding task_cards tokens_of latest_rows
claimed_tokens ws issue_id source =
    tokens_of issue_id (cards_of (ws.tasks_md source)) (latest_rows (ws.tasks_jsonl source))

abbrev pub nothing_planned : String → ReviewCoverage
nothing_planned issue_id = record {
  issue_id = some issue_id;
  plan_tokens = [];
  claimed = [];
  uncovered = [];
}

abbrev pub divide : String → List Text → List Text → ReviewCoverage
divide issue_id [] claimed = nothing_planned issue_id
divide issue_id (t ∷ ts) claimed = record {
  issue_id = some issue_id;
  plan_tokens = t ∷ ts;
  claimed = select (λ token. member token claimed) (t ∷ ts);
  uncovered = select (λ token. not (member token claimed)) (t ∷ ts);
}

abbrev pub on_plan : Workspace → String → String → Option Text → ReviewCoverage
on_plan ws issue_id source none = nothing_planned issue_id
on_plan ws issue_id source (some plan) =
    divide issue_id (unique_ac_tokens plan) (claimed_tokens ws issue_id source)

abbrev pub on_source : Workspace → String → Option String → ReviewCoverage
on_source ws issue_id none = nothing_planned issue_id
on_source ws issue_id (some source) = on_plan ws issue_id source (ws.plan_md source)

-- The empty id stands for None as well.
unfoldable pub evaluate_review_coverage : Workspace → String → ReviewCoverage
unfolding latest_source_file unique_ac_tokens claimed_tokens
evaluate_review_coverage ws issue_id =
    if str_eq issue_id ""
    then record { issue_id = none; plan_tokens = []; claimed = []; uncovered = [] }
    else on_source ws issue_id (latest_source_file issue_id ws.issues)

-- `_normalize_apply_category`
abbrev underscore : ℕ → ℕ
underscore c = if c == b'-' || c == 32 then b'_' else c

unfoldable pub normalize_apply_category : Text → Text
unfolding strip lower
normalize_apply_category category = map underscore (lower (strip category))

-- APPLY_CRITICAL_CATEGORIES
abbrev pub apply_critical_categories : List Text
apply_critical_categories =
    codes "security" ∷ codes "data_loss" ∷ codes "broken_build" ∷ codes "named_check_fail" ∷ []

unfoldable pub may_apply_finding : Bool → Text → Text → Bool → Bool
unfolding strip upper normalize_apply_category
may_apply_finding apply severity category has_concrete_fix =
    if not apply
    then false
    else if not (text_eq (upper (strip severity)) (codes "CRITICAL"))
    then false
    else if not has_concrete_fix
    then false
    else member (normalize_apply_category category) apply_critical_categories

unfoldable pub should_commit_review_fixes : Bool → ℕ → Bool
should_commit_review_fixes apply applied_critical = apply && not (leb applied_critical 0)
