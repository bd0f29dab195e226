-- ===== src/Micro/Evidence.antt =====
-- `_completed_evidence_bundle` and `_require_tdd_completed_evidence` of cli/micro/surface.py: the proof
-- that a COMPLETED row of a test-driven task carries.
pub mod Gate
mod Examples
use deviatdd.Prelude.{
  ℕ, String, Bool, true, false, not, ◌&&◌, ◌||◌, Option, none, some, List, [], ◌∷◌, ◌++◌, map, any,
  select, str_eq, ◌==◌, ◌>>=◌, if◌then◌else◌,
}
use deviatdd.Prelude.Text.{Text, codes, strip, starts_with, text_eq, is_empty}
use deviatdd.Ledger.Rows.{
  Row, Json, Items, Fields, str, array, object, nil, cons, end, field, get, lookup, truthy,
}
use deviatdd.Judge.Evidence.{Item, member}
use deviatdd.Judge.Tokens.{field_of, resolve_task_ac_tokens}
use deviatdd.Micro.Session.{Session}
use deviatdd.Micro.Action.{State, phase_failed, other_error, Result, ok, raise}
use deviatdd.Micro.Task.{Task}
use deviatdd.Micro.Verdict.Rules.{is_nil, is_test_bearing_tdd, is_no_failing_test}

-- `TaskEvidenceBundle`
pub record Bundle : Type 0 where
  pub items : List Item
  pub red : Text
  pub green : Text
  pub head : Text

-- The dict of a task, its card, HEAD, the work tree, and the JSON value of a bundle.
pub record Proof (W : Type 0) : Type 0 where
  pub task_row : Task → Row
  pub task_card_text : Task → State W → Text
  pub rev_parse_head : State W → Text
  pub is_file : Text → State W → Bool
  pub bundle_json : Bundle → Json

-- The exceptions, with what their texts name.
pub data Refusal : Type 0 where
  missing_evidence : List Text → Refusal
  empty_test_path : Refusal
  test_path_not_found : Text → Refusal

abbrev row_of : Fields → Row
row_of end = []
row_of (field k v fields) = (k, v) ∷ row_of fields

abbrev text_or_empty : Option Json → Option Text
text_or_empty none = some []
text_or_empty (some (str t)) = some (codes t)
text_or_empty (some _) = none

abbrev required : Option Json → Option Text
required (some (str t)) = some (codes t)
required _ = none

-- `TaskEvidenceItem`: the validation of an item, where none is ValidationError.
unfoldable pub validate_item : Row → Option Item
unfolding lookup
validate_item row = do
  ac ← required (lookup "ac" row)
  test_path ← text_or_empty (lookup "test_path" row)
  test_quote ← text_or_empty (lookup "test_quote" row)
  impl_path ← text_or_empty (lookup "impl_path" row)
  impl_quote ← text_or_empty (lookup "impl_quote" row)
  some (record {
    ac = ac;
    test_path = test_path;
    test_quote = test_quote;
    impl_path = impl_path;
    impl_quote = impl_quote;
  })

unfoldable pub validate_rows : List Row → Option (List Item)
unfolding validate_item
validate_rows [] = some []
validate_rows (row ∷ rows) = do
  item ← validate_item row
  items ← validate_rows rows
  some (item ∷ items)

-- An item that is no object is refused.
unfoldable pub validate_items : Items → Option (List Item)
unfolding validate_item
validate_items nil = some []
validate_items (cons (object fields) json) = do
  item ← validate_item (row_of fields)
  items ← validate_items json
  some (item ∷ items)
validate_items (cons _ json) = none

-- `list(existing.get("items") or [])`: of other values that are not empty, `list` or the validation
-- raises.
abbrev items_field : Json → Option (List Item)
items_field (array json) = validate_items json
items_field j = if truthy j then none else some []

abbrev existing_items : Json → Option (List Item)
existing_items (object fields) = items_field (field_of "items" fields)
existing_items (array json) = validate_items json
existing_items _ = some []

abbrev or_existing : List Row → Row → Option (List Item)
or_existing [] task_data = existing_items (get "evidence" task_data)
or_existing (r ∷ rs) task_data = validate_rows (r ∷ rs)

abbrev bundle_with : Text → Text → Option (List Item) → Option (Option Bundle)
bundle_with red head none = none
bundle_with red head (some items) =
    if is_nil items && (is_empty red && is_empty head)
    then some none
    else some (some (record { items = items; red = red; green = head; head = head }))

-- The outer `none` is ValidationError, or TypeError.
unfoldable pub completed_evidence_bundle : Row → Session → Text → Option (Option Bundle)
unfolding field_of validate_rows validate_items
completed_evidence_bundle task_data session head =
    bundle_with session.red_commit_sha head (or_existing session.validated_evidence task_data)

-- The items pass `EvidenceItem.model_validate` as well.
abbrev pub items_of_bundle : Option Bundle → List Item
items_of_bundle none = []
items_of_bundle (some bundle) = bundle.items

abbrev slash : ℕ → ℕ
slash c = if c == b'\\' then b'/' else c

-- lstrip("./")
unfoldable strip_dots : Text → Text
strip_dots [] = []
strip_dots (c ∷ s) = let rest = strip_dots s in if c == b'.' || c == b'/' then rest else c ∷ s

unfoldable pub normalize_repo_relpath : Text → Text
unfolding strip_dots
normalize_repo_relpath path = strip_dots (map slash path)

-- `_is_test_path`
unfoldable pub is_test_path : Text → Bool
unfolding normalize_repo_relpath text_eq starts_with
is_test_path path =
    let posix = normalize_repo_relpath path in
    text_eq posix (codes "tests")
    || (starts_with posix (codes "tests/")
        || (text_eq posix (codes "test") || starts_with posix (codes "test/")))

abbrev push : ℕ → List Text → List Text
push c [] = (c ∷ []) ∷ []
push c (part ∷ parts) = (c ∷ part) ∷ parts

-- The parts of a path; empty ones and single dots do not matter here.
unfoldable pub path_parts : Text → List Text
path_parts [] = [] ∷ []
path_parts (c ∷ s) = let rest = path_parts s in if c == b'/' then [] ∷ rest else push c rest

abbrev is_absolute : Text → Bool
is_absolute path = starts_with path (codes "/")

-- `".." in candidate.parts`, or absolute
abbrev pub leaves_root : Text → Bool
leaves_root path = is_absolute path || member (codes "..") (path_parts path)

abbrev pub cites : Text → Item → Bool
cites token item = text_eq token (strip item.ac)

abbrev pub uncited : List Text → List Item → List Text
uncited tokens items = select (λ token. not (any (cites token) items)) tokens

abbrev pub or_later : Option Refusal → Option Refusal → Option Refusal
or_later none later = later
or_later (some r) later = some r

module _ {W : Type 0} (proof : Proof W) where
  open proof use {task_row, task_card_text, rev_parse_head, is_file, bundle_json}

  abbrev pub check_path : State W → Text → Option Refusal
  check_path s path =
      if is_empty path
      then some empty_test_path
      else if leaves_root path
      then some (test_path_not_found path)
      else if not (is_test_path path)
      then some (test_path_not_found path)
      else if not (is_file path s)
      then some (test_path_not_found path)
      else none

  -- The loop over the items: the first refusal.
  unfoldable pub check_paths : State W → List Item → Option Refusal
  unfolding strip is_test_path path_parts
  check_paths s [] = none
  check_paths s (item ∷ items) =
      or_later (check_path s (strip item.test_path)) (check_paths s items)

  unfoldable pub required_tokens : Task → State W → List Text
  unfolding resolve_task_ac_tokens
  required_tokens task s =
      let tokens = resolve_task_ac_tokens (task_row task) (task_card_text task s) in
      if is_no_failing_test s.session.failure_kind then [] else tokens

  abbrev pub refuse_uncited : State W → List Item → List Text → Option Refusal
  refuse_uncited s items [] = check_paths s items
  refuse_uncited s items (t ∷ ts) = some (missing_evidence (t ∷ ts))

  abbrev pub check_items : State W → List Text → List Item → Option Refusal
  check_items s [] items = none
  check_items s (t ∷ ts) [] = some (missing_evidence (t ∷ ts))
  check_items s (t ∷ ts) (i ∷ is) = refuse_uncited s (i ∷ is) (uncited (t ∷ ts) (i ∷ is))

  -- `none` is the return.
  unfoldable pub require_tdd_completed_evidence : Task → Option Bundle → State W → Option Refusal
  unfolding is_test_bearing_tdd required_tokens check_paths
  require_tdd_completed_evidence task bundle s =
      if is_test_bearing_tdd task
      then check_items s (required_tokens task s) (items_of_bundle bundle)
      else none

  abbrev pub bundle_of : Task → State W → Option (Option Bundle)
  bundle_of task s = completed_evidence_bundle (task_row task) s.session (rev_parse_head s)

  abbrev pub json_of : Option Bundle → Option Json
  json_of none = none
  json_of (some bundle) = some (bundle_json bundle)

  abbrev pub unless_refused : Option Refusal → Option Bundle → Result (Option Json)
  unless_refused (some r) bundle = raise phase_failed
  unless_refused none bundle = ok (json_of bundle)

  abbrev pub with_bundle : Task → State W → Option (Option Bundle) → Result (Option Json)
  with_bundle task s none = raise other_error
  with_bundle task s (some bundle) =
      unless_refused (require_tdd_completed_evidence task bundle s) bundle

  -- The two calls of `_append_status_transition`.
  unfoldable pub completed_evidence : Task → State W → Result (Option Json)
  unfolding completed_evidence_bundle require_tdd_completed_evidence
  completed_evidence task s = with_bundle task s (bundle_of task s)
