-- ===== src/Ledger/Issues.antt =====
-- `IssueRecord`, its validation, and `resolve_issue_record` of state/ledger.py.
pub mod Resolve
pub mod Valid
use deviatdd.Prelude.{
  ℕ, ◌+◌, String, Bool, true, false, not, ◌&&◌, ◌||◌, Option, none, some, List, [], ◌∷◌, ◌++◌, all,
  any, select, ◌==◌, str_eq, if◌then◌else◌, ◌>>=◌, ◌≡◌,
}
use deviatdd.Ledger.Rows.{
  Json, Items, Row, get, lookup, json_eq, null, boolean, integer, str, array, object, nil, cons,
}

pub data IssueStatus : Type 0 where
  draft backlog specified sharded completed : IssueStatus

pub record IssueRecord : Type 0 where
  pub issue_id : String
  pub type : String
  pub title : String
  pub status : IssueStatus
  pub source_file : String
  pub blocked_by : List String
  pub coordinates_with : List String
  pub timestamp : Option ℕ
  pub created_at : ℕ

-- What pydantic and `datetime` give: a time read from a JSON value, a time as `model_dump` returns
-- it, and the clock. Times are ordered, and only their order is used.
pub record Clock : Type 0 where
  pub parse_time : Json → Option ℕ
  pub print_time : ℕ → Json
  pub now : ℕ
  pub parse-print : (t : ℕ) → parse_time (print_time t) ≡ some t

abbrev pub parse_status : String → Option IssueStatus
parse_status s =
    if str_eq s "DRAFT"
    then some draft
    else if str_eq s "BACKLOG"
    then some backlog
    else if str_eq s "SPECIFIED"
    then some specified
    else if str_eq s "SHARDED"
    then some sharded
    else if str_eq s "COMPLETED"
    then some completed
    else none

abbrev pub print_status : IssueStatus → String
print_status draft = "DRAFT"
print_status backlog = "BACKLOG"
print_status specified = "SPECIFIED"
print_status sharded = "SHARDED"
print_status completed = "COMPLETED"

abbrev is_retired : String × Json → Bool
is_retired (k, v) = str_eq k "flow_refs" || (str_eq k "seq" || str_eq k "envelope_id")

-- `_drop_retired_flow_refs`
unfoldable pub drop_retired_flow_refs : Row → Row
drop_retired_flow_refs row = select (λ f. not (is_retired f)) row

abbrev pub known_field : String × Json → Bool
known_field (k, v) = any (str_eq k) (
    "issue_id" ∷ "type" ∷ "title" ∷ "status" ∷ "source_file" ∷ "blocked_by" ∷ "coordinates_with"
    ∷ "timestamp" ∷ "created_at" ∷ [])

abbrev pub required_text : Option Json → Option String
required_text (some (str s)) = some s
required_text _ = none

abbrev pub title_field : Option Json → Option String
title_field (some (str s)) = if str_eq s "" then none else some s
title_field _ = none

abbrev pub status_field : Option Json → Option IssueStatus
status_field none = some draft
status_field (some (str s)) = parse_status s
status_field (some _) = none

abbrev pub texts : Items → Option (List String)
texts nil = some []
texts (cons (str s) vs) = do rest ← texts vs; some (s ∷ rest)
texts (cons _ vs) = none

abbrev pub list_field : Option Json → Option (List String)
list_field none = some []
list_field (some (array vs)) = texts vs
list_field (some _) = none

abbrev pub texts_json : List String → Items
texts_json [] = nil
texts_json (s ∷ ss) = cons (str s) (texts_json ss)

abbrev pub is_issue : String → Row → Bool
is_issue issue_id row = json_eq (get "issue_id" row) (str issue_id)

abbrev pub or_else : Option IssueRecord → Option IssueRecord → Option IssueRecord
or_else (some r) other = some r
or_else none other = other

abbrev pub is_completed : IssueStatus → Bool
is_completed completed = true
is_completed _ = false

-- A record from its fields; one that is refused refuses the record.
unfoldable pub assemble :
    Bool
    → Option String
    → Option String
    → Option String
    → Option IssueStatus
    → Option String
    → Option (List String)
    → Option (List String)
    → Option (Option ℕ)
    → Option ℕ
    → Option IssueRecord
assemble true (some i) (some t) (some n) (some s) (some f) (some b) (some c) (some ts) (some cr) =
    some (record {
      issue_id = i;
      type = t;
      title = n;
      status = s;
      source_file = f;
      blocked_by = b;
      coordinates_with = c;
      timestamp = ts;
      created_at = cr;
    })
assemble _ _ _ _ _ _ _ _ _ _ = none

-- One round of the loop over the reversed records: an early return, or the new `fallback` and `base`.
pub data Round : Type 0 where
  stop : IssueRecord → Round
  next : (fallback base : Option IssueRecord) → Round

module _ (clock : Clock) where
  abbrev timestamp_field : Option Json → Option (Option ℕ)
  timestamp_field none = some none
  timestamp_field (some null) = some none
  timestamp_field (some j) = do t ← clock.parse_time j; some (some t)

  abbrev created_field : Option Json → Option ℕ
  created_field none = some clock.now
  created_field (some j) = clock.parse_time j

  -- `IssueRecord.model_validate`: `none` where pydantic raises ValidationError.
  unfoldable pub validate_issue : Row → Option IssueRecord
  unfolding drop_retired_flow_refs assemble
  validate_issue old =
      let row = drop_retired_flow_refs old in
      assemble (all known_field row) (required_text (lookup "issue_id" row))
        (required_text (lookup "type" row)) (title_field (lookup "title" row))
        (status_field (lookup "status" row)) (required_text (lookup "source_file" row))
        (list_field (lookup "blocked_by" row)) (list_field (lookup "coordinates_with" row))
        (timestamp_field (lookup "timestamp" row)) (created_field (lookup "created_at" row))

  abbrev timestamp_json : Option ℕ → Json
  timestamp_json none = null
  timestamp_json (some t) = clock.print_time t

  -- `base.model_dump()`
  unfoldable pub model_dump : IssueRecord → Row
  model_dump r =
      ("issue_id", str r.issue_id)
      ∷ ("type", str r.type)
      ∷ ("title", str r.title)
      ∷ ("status", str (print_status r.status))
      ∷ ("source_file", str r.source_file)
      ∷ ("blocked_by", array (texts_json r.blocked_by))
      ∷ ("coordinates_with", array (texts_json r.coordinates_with))
      ∷ ("timestamp", timestamp_json r.timestamp)
      ∷ ("created_at", clock.print_time r.created_at)
      ∷ []

  -- `{**base.model_dump(), **data}`: the first entry of a key counts, so those of the row come first.
  unfoldable pub merged : IssueRecord → Row → Row
  unfolding model_dump
  merged base row = row ++ model_dump base

  -- `_resolve_base(exclude)`, over the reversed records; identity is that of the position.
  unfoldable pub resolve_base : String → ℕ → List (ℕ × Row) → Option IssueRecord
  resolve_base issue_id exclude [] = none
  resolve_base issue_id exclude ((i, prev) ∷ rest) =
      let later = resolve_base issue_id exclude rest in
      if not (is_issue issue_id prev) || i == exclude
      then later
      else elim (validate_issue prev) [ some r ↦ some r | none ↦ later ]

  abbrev from_base : Row → Option IssueRecord → Option IssueRecord
  from_base row none = none
  from_base row (some b) = validate_issue (merged b row)

  -- The candidate of one row of the issue, and `base` after it.
  unfoldable pub candidate :
      String
      → List (ℕ × Row)
      → Option IssueRecord
      → ℕ
      → Row
      → Option IssueRecord × Option IssueRecord
  unfolding resolve_base merged
  candidate issue_id everything base i row = elim (validate_issue row) [
    | some r ↦ (some r, base)
    | none ↦
        let base' = or_else base (resolve_base issue_id i everything) in
        (from_base row base', base')
  ]

  unfoldable pub judge_candidate :
      Option IssueRecord → Option IssueRecord × Option IssueRecord → Round
  judge_candidate fallback (none, base) = next fallback base
  judge_candidate fallback (some c, base) =
      if is_completed c.status then stop c else next (or_else fallback (some c)) base

  unfoldable pub resolve_round :
      String → List (ℕ × Row) → Option IssueRecord → Option IssueRecord → ℕ → Row → Round
  unfolding candidate judge_candidate
  resolve_round issue_id everything fallback base i row =
      if is_issue issue_id row
      then judge_candidate fallback (candidate issue_id everything base i row)
      else next fallback base

  unfoldable pub resolve_loop :
      String
      → List (ℕ × Row)
      → Option IssueRecord
      → Option IssueRecord
      → List (ℕ × Row)
      → Option IssueRecord
  resolve_loop issue_id everything fallback base [] = fallback
  resolve_loop issue_id everything fallback base ((i, row) ∷ rest) =
      elim (resolve_round issue_id everything fallback base i row) [
        | stop c ↦ some c
        | next fallback' base' ↦ resolve_loop issue_id everything fallback' base' rest
      ]

-- `reversed(records)`, each row with its position.
unfoldable pub reversed_onto : ℕ → List Row → List (ℕ × Row) → List (ℕ × Row)
reversed_onto i [] acc = acc
reversed_onto i (r ∷ rs) acc = reversed_onto (i + 1) rs ((i, r) ∷ acc)

unfoldable pub resolve_issue_record : Clock → String → List Row → Option IssueRecord
unfolding resolve_loop resolve_round reversed_onto
resolve_issue_record clock issue_id records =
    let everything = reversed_onto 0 records [] in
    resolve_loop clock issue_id everything none none everything
