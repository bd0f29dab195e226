-- ===== src/Ledger/Issues/Valid.antt =====
-- What a valid record says of its row.
use deviatdd.Prelude.{
  ℕ, String, ◌≡◌, refl, ◌∙◌, sym, ap, Bool, true, Option, some, List, [], ◌∷◌, arith, str_eq,
  str_eq→eq, select, Bool-cases, inl, inr, some_inj, none, false, all, ◌>>=◌, if◌then◌else◌,
}
use deviatdd.Ledger.Rows.{Json, Items, Row, str, array, nil, cons, lookup}
use deviatdd.Ledger.Issues.{
  IssueStatus, IssueRecord, Clock, assemble, required_text, status_field, list_field,
  drop_retired_flow_refs, validate_issue, draft, backlog, specified, sharded, completed,
  parse_status, print_status, title_field, known_field, texts, texts_json,
}

lookup-select :
    (p : String × Json → Bool) (k : String)
    → ((v : Json) → p (k, v) ≡ true)
    → (row : Row) → lookup k (select p row) ≡ lookup k row
unfolding lookup
lookup-select p k keeps [] = refl
lookup-select p k keeps ((j, v) ∷ row) = elim (Bool-cases (str_eq j k)) [
  | inl same ↦
      let kept : p (j, v) ≡ true = rw (str_eq→eq j k same) (keeps v) in
      ground (arith, lookup-select p k keeps row)
  | inr differ ↦ ground (arith, lookup-select p k keeps row)
]

-- The fields of a valid record that the other functions use, as they stand in the row.
pub record Agrees (row : Row) (c : IssueRecord) : Type 0 where
  pub issue_id : required_text (lookup "issue_id" row) ≡ some c.issue_id
  pub status : status_field (lookup "status" row) ≡ some c.status
  pub blocked_by : list_field (lookup "blocked_by" row) ≡ some c.blocked_by

assemble-fields :
    (known : Bool) (i t n : Option String) (s : Option IssueStatus) (f : Option String)
    (b d : Option (List String)) (ts : Option (Option ℕ)) (cr : Option ℕ) (c : IssueRecord)
    → assemble known i t n s f b d ts cr ≡ some c
    → ((i ≡ some c.issue_id) × (s ≡ some c.status) × (b ≡ some c.blocked_by))
      × (t ≡ some c.type)
      × (n ≡ some c.title)
      × (f ≡ some c.source_file)
      × (d ≡ some c.coordinates_with)
      × (known ≡ true)
unfolding assemble
assemble-fields true (some i) (some t) (some n) (some s) (some f) (some b) (some d) (some ts)
      (some cr) c h =
    ground arith
assemble-fields _ _ _ _ _ _ _ _ _ _ c h = cc

-- A record that `model_validate` accepts agrees with its row.
pub validate_issue-Agrees :
    (clock : Clock) (row : Row) (c : IssueRecord) → validate_issue clock row ≡ some c → Agrees row c
unfolding validate_issue drop_retired_flow_refs
validate_issue-Agrees clock row c h =
    let (i, s, b) = (assemble-fields _ _ _ _ _ _ _ _ _ _ c h).0 in
    record {
      issue_id = ap required_text (sym (lookup-select _ "issue_id" (λ v. refl) row)) ∙ i;
      status = ap status_field (sym (lookup-select _ "status" (λ v. refl) row)) ∙ s;
      blocked_by = ap list_field (sym (lookup-select _ "blocked_by" (λ v. refl) row)) ∙ b;
    }

-- The status that a row has: its text, or DRAFT without one.
abbrev pub StatusIn : Option Json → IssueStatus → Type 0
StatusIn none status = status ≡ draft
StatusIn (some j) status = j ≡ str (print_status status)

-- The list of texts that a row has, or the empty one.
abbrev pub ListIn : Option Json → List String → Type 0
ListIn none texts = texts ≡ []
ListIn (some j) texts = j ≡ array (texts_json texts)

abbrev pub TextIn : Option Json → String → Type 0
TextIn o text = o ≡ some (str text)

-- A row that is a valid record: its fields in JSON, and no other key but the retired ones.
pub record IsIssue (row : Row) (c : IssueRecord) : Type 0 where
  pub issue_id : TextIn (lookup "issue_id" row) c.issue_id
  pub type : TextIn (lookup "type" row) c.type
  pub title : TextIn (lookup "title" row) c.title
  pub has_title : str_eq c.title "" ≡ false
  pub status : StatusIn (lookup "status" row) c.status
  pub source_file : TextIn (lookup "source_file" row) c.source_file
  pub blocked_by : ListIn (lookup "blocked_by" row) c.blocked_by
  pub coordinates_with : ListIn (lookup "coordinates_with" row) c.coordinates_with
  pub known : all known_field (drop_retired_flow_refs row) ≡ true

required_text→TextIn : (o : Option Json) (s : String) → required_text o ≡ some s → TextIn o s
required_text→TextIn (some (str t)) s h = ap (λ x. some (str x)) (some_inj h)
required_text→TextIn none s h = cc
required_text→TextIn (some _) s h = cc

title_field→TextIn :
    (o : Option Json) (s : String) → title_field o ≡ some s → TextIn o s × (str_eq s "" ≡ false)
title_field→TextIn (some (str t)) s h = branches (str_eq t "") refl h
  where
    branches :
        (b : Bool)
        → str_eq t "" ≡ b
        → (if b then none else some t) ≡ some s
        → TextIn (some (str t)) s × (str_eq s "" ≡ false)
    branches true e k = cc
    branches false e k =
        (ap (λ x. some (str x)) (some_inj k), ap (λ x. str_eq x "") (sym (some_inj k)) ∙ e)
title_field→TextIn none s h = cc
title_field→TextIn (some _) s h = cc

-- One branch of the table of statuses.
named :
    (t name : String) (status found : IssueStatus) (rest : Option IssueStatus)
    → name ≡ print_status status
    → (rest ≡ some found → t ≡ print_status found)
    → (if str_eq t name then some status else rest) ≡ some found
    → t ≡ print_status found
named t name status found rest printed later h = branches (str_eq t name) refl h
  where
    branches :
        (b : Bool)
        → str_eq t name ≡ b
        → (if b then some status else rest) ≡ some found
        → t ≡ print_status found
    branches true same k = str_eq→eq t name same ∙ printed ∙ ap print_status (some_inj k)
    branches false other k = later k

parse_status→print_status :
    (t : String) (found : IssueStatus) → parse_status t ≡ some found → t ≡ print_status found
parse_status→print_status t found = named t "DRAFT" draft found _ refl (
    named t "BACKLOG" backlog found _ refl (
      named t "SPECIFIED" specified found _ refl (
        named t "SHARDED" sharded found _ refl
          (named t "COMPLETED" completed found none refl (λ h. cc)))))

status_field→StatusIn :
    (o : Option Json) (found : IssueStatus) → status_field o ≡ some found → StatusIn o found
status_field→StatusIn none found h = sym (some_inj h)
status_field→StatusIn (some (str t)) found h = ap str (parse_status→print_status t found h)
status_field→StatusIn (some _) found h = cc

texts→texts_json : (vs : Items) (ss : List String) → texts vs ≡ some ss → vs ≡ texts_json ss
texts→texts_json nil ss h = ap texts_json (some_inj h)
texts→texts_json (cons (str s) vs) ss h = rest (texts vs) (texts→texts_json vs) h
  where
    rest :
        (o : Option (List String))
        → ((tail : List String) → o ≡ some tail → vs ≡ texts_json tail)
        → (o >>= (λ tail. some (s ∷ tail))) ≡ some ss
        → cons (str s) vs ≡ texts_json ss
    rest none e k = cc
    rest (some tail) e k = ap (λ x. cons (str s) x) (e tail refl) ∙ ap texts_json (some_inj k)
texts→texts_json (cons _ vs) ss h = cc

list_field→ListIn : (o : Option Json) (ss : List String) → list_field o ≡ some ss → ListIn o ss
list_field→ListIn none ss h = sym (some_inj h)
list_field→ListIn (some (array vs)) ss h = ap array (texts→texts_json vs ss h)
list_field→ListIn (some _) ss h = cc

-- A record that `model_validate` accepts has the fields that its row states: the texts, with a title
-- that is not empty, the status by its name, or DRAFT where the row has none, and the two lists, or
-- empty ones. The row has no other keys than those of a record and the retired ones.
pub validate_issue-IsIssue :
    (clock : Clock) (row : Row) (c : IssueRecord)
    → validate_issue clock row ≡ some c
    → IsIssue row c
unfolding validate_issue drop_retired_flow_refs
validate_issue-IsIssue clock row c h =
    let ((i, s, b), t, n, f, d, known) = assemble-fields _ _ _ _ _ _ _ _ _ _ c h in
    let titled =
      title_field→TextIn _ c.title
        (ap title_field (sym (lookup-select _ "title" (λ v. refl) row)) ∙ n) in
    record {
      issue_id =
          required_text→TextIn _ c.issue_id
            (ap required_text (sym (lookup-select _ "issue_id" (λ v. refl) row)) ∙ i);
      type =
          required_text→TextIn _ c.type
            (ap required_text (sym (lookup-select _ "type" (λ v. refl) row)) ∙ t);
      title = titled.0;
      has_title = titled.1;
      status =
          status_field→StatusIn _ c.status
            (ap status_field (sym (lookup-select _ "status" (λ v. refl) row)) ∙ s);
      source_file =
          required_text→TextIn _ c.source_file
            (ap required_text (sym (lookup-select _ "source_file" (λ v. refl) row)) ∙ f);
      blocked_by =
          list_field→ListIn _ c.blocked_by
            (ap list_field (sym (lookup-select _ "blocked_by" (λ v. refl) row)) ∙ b);
      coordinates_with =
          list_field→ListIn _ c.coordinates_with
            (ap list_field (sym (lookup-select _ "coordinates_with" (λ v. refl) row)) ∙ d);
      known = known;
    }
