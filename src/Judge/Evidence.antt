-- ===== src/Judge/Evidence.antt =====
-- core/judge_evidence.py: whether the citations of a JUDGE manifest stand up against the diff or HEAD.
pub mod Diff
pub mod Passes
use deviatdd.Prelude.{
  ℕ, suc, Bool, true, false, not, ◌&&◌, ◌||◌, Option, none, some, List, [], ◌∷◌, ◌++◌, map, any,
  select, leb, if◌then◌else◌,
}
use deviatdd.Prelude.Text.{Text, codes, strip, contains, text_eq, is_empty, is_space}
use deviatdd.Judge.Evidence.Diff.{
  Sources, find_source, map_diff_hunks, added_line_bodies, stripped_source_lines,
}

-- An item of `evidence`; a field that is absent or null is the empty text.
pub record Item : Type 0 where
  pub ac : Text
  pub test_path : Text
  pub test_quote : Text
  pub impl_path : Text
  pub impl_quote : Text

pub data Side : Type 0 where
  test impl : Side

-- The feedback that the runner writes, with what its text names.
pub data Failure : Type 0 where
  missing_tokens : List Text → Failure
  empty_quote : Side → Failure
  unknown_path quote_not_in_source quote_too_generic : Side → Text → Failure

abbrev pub member : Text → List Text → Bool
member t ts = any (text_eq t) ts

-- list(dict.fromkeys(...)): the first of equal texts stays.
unfoldable pub unique : List Text → List Text → List Text
unique seen [] = []
unique seen (t ∷ ts) =
    let rest = unique (t ∷ seen) ts in
    let same = unique seen ts in if member t seen then same else t ∷ rest

unfoldable pub normalized_paths : List Text → List Text
unfolding unique
normalized_paths values = unique [] (select (λ t. not (is_empty t)) (map strip values))

abbrev pub has_source : Sources → Text → Bool
has_source sources path = elim (find_source path sources) [ none ↦ false | some _ ↦ true ]

-- The first path of a list that no source has.
unfoldable pub first_unknown : Sources → Sources → List Text → Option Failure
first_unknown hunks head [] = none
first_unknown hunks head (path ∷ paths) =
    let rest = first_unknown hunks head paths in
    if has_source hunks path || has_source head path then rest else some (unknown_path test path)

unfoldable pub missing_declared_path : List Text → List Item → Sources → Sources → Option Failure
unfolding first_unknown normalized_paths
missing_declared_path declared evidence hunks head =
    first_unknown hunks head (normalized_paths (declared ++ map (λ i. i.test_path) evidence))

unfoldable pub uncovered_tokens : List Text → List Item → List Text
uncovered_tokens tokens evidence = select (λ t. not (member t (map (λ i. i.ac) evidence))) tokens

unfoldable pub non_ws_len : Text → ℕ
non_ws_len [] = 0
non_ws_len (c ∷ s) = let n = non_ws_len s in if is_space c then n else suc n

unfoldable pub meets_uniqueness_floor : Text → Text → Bool → Bool
unfolding non_ws_len added_line_bodies stripped_source_lines
meets_uniqueness_floor quote source added_only =
    if leb 12 (non_ws_len quote)
    then true
    else member quote
        (if added_only then added_line_bodies source else stripped_source_lines source)

-- `_resolve_source`; the kind of the source is `diff` exactly if HEAD is not used.
unfoldable pub resolve_source : Text → Sources → Sources → Bool → Option Text
resolve_source path hunks head use_head =
    if is_empty path then none else find_source path (if use_head then head else hunks)

abbrev pub check_source : Side → Text → Text → Bool → Option Text → Option Failure
check_source side path quote use_head none = some (unknown_path side path)
check_source side path quote use_head (some source) =
    if not (contains source quote)
    then some (quote_not_in_source side path)
    else if not (meets_uniqueness_floor quote source (not use_head))
    then some (quote_too_generic side path)
    else none

unfoldable pub check_quote : Side → Text → Text → Sources → Sources → Bool → Option Failure
unfolding resolve_source meets_uniqueness_floor
check_quote side path quote hunks head use_head =
    if is_empty (strip quote)
    then some (empty_quote side)
    else check_source side path quote use_head (resolve_source path hunks head use_head)

abbrev pub and_then : Option Failure → Option Failure → Option Failure
and_then none next = next
and_then (some f) next = some f

unfoldable pub check_citation : Item → Sources → Sources → Bool → Bool → Option Failure
unfolding check_quote
check_citation i hunks head use_head impl_required =
    and_then (check_quote test i.test_path i.test_quote hunks head use_head) (
      if impl_required then check_quote impl i.impl_path i.impl_quote hunks head use_head else none)

-- The loop over `evidence`.
unfoldable pub check_items :
    List Text → List Item → Sources → Sources → Bool → Bool → Option Failure
unfolding check_citation
check_items tokens [] hunks head use_head impl_required = none
check_items tokens (i ∷ items) hunks head use_head impl_required =
    let rest = check_items tokens items hunks head use_head impl_required in
    if member i.ac tokens
    then and_then (check_citation i hunks head use_head impl_required) rest
    else rest

abbrev required_token_set : Option (List Text) → List Text → List Text
required_token_set none plan_tokens = plan_tokens
required_token_set (some tokens) plan_tokens = unique [] tokens

abbrev or_default : Option Bool → Bool → Bool
or_default none other = other
or_default (some b) other = b

abbrev action_is : Text → Option Text → Bool
action_is name none = false
action_is name (some action) = text_eq action name

-- The keyword arguments of `evaluate_judge_evidence`; `plan_tokens` are the tokens of the plan
-- contract, which `_extract_ac_plan_tokens` gives.
pub record Request : Type 0 where
  pub plan_tokens : List Text
  pub injected_diff : Text
  pub evidence : List Item
  pub next_action : Option Text
  pub head_contents : Sources
  pub declared_paths : List Text
  pub required_tokens : Option (List Text)
  pub use_head : Option Bool

abbrev pub tokens_of : Request → List Text
tokens_of q = required_token_set q.required_tokens q.plan_tokens

abbrev pub head_mode : Request → Bool
head_mode q = or_default q.use_head (action_is (codes "skip_refactor") q.next_action)

abbrev pub impl_required : Request → Bool
impl_required q = not (action_is (codes "proceed_to_refactor_no_diff") q.next_action)

abbrev pub check_tokens : List Text → List Text → Option Failure → Option Failure
check_tokens [] uncovered next = none
check_tokens (_ ∷ _) [] next = next
check_tokens (_ ∷ _) (t ∷ ts) next = some (missing_tokens (t ∷ ts))

-- `none` is a pass.
unfoldable pub evaluate_judge_evidence : Request → Option Failure
unfolding missing_declared_path uncovered_tokens check_items unique
evaluate_judge_evidence q =
    let hunks = map_diff_hunks q.injected_diff in
    let tokens = tokens_of q in
    and_then (missing_declared_path q.declared_paths q.evidence hunks q.head_contents) (
      check_tokens tokens (uncovered_tokens tokens q.evidence)
        (check_items tokens q.evidence hunks q.head_contents (head_mode q) (impl_required q)))
