-- ===== src/Converge/Payload.antt =====
-- `parse_findings_payload` of core/converge.py. The decoding of JSON and Python's `str` on its values
-- are parameters.
use deviatdd.Prelude.{
  String, Bool, true, false, not, ◌&&◌, Option, none, some, List, [], ◌∷◌, all, str_eq,
  if◌then◌else◌, ◌≡◌, refl, if-cases, &&-intro, &&-true, some_inj, subst,
}
use deviatdd.Prelude.Text.{Text, strip, is_empty}
use deviatdd.Ledger.Rows.{Json, Items, Fields, array, object, nil, cons, end, field, truthy}
use deviatdd.Judge.Evidence.{member}
use deviatdd.Converge.{ConvergenceFinding, taxonomies, insert_finding, sort_findings}

-- `item.get(key)`, which tells a missing key from a null
unfoldable pub find_field : String → Fields → Option Json
find_field key end = none
find_field key (field k v fields) =
    let later = find_field key fields in
    if str_eq k key then elim later [ none ↦ some v | some w ↦ some w ] else later

module _ (loads : Text → Option Json) (str_of : Json → Text) where
  abbrev text_at : Option Json → Text
  text_at none = []
  text_at (some j) = strip (str_of j)

  abbrev severity_at : Option Json → Option Text
  severity_at none = none
  severity_at (some j) = if truthy j then some (str_of j) else none

  abbrev finding_of : Fields → ConvergenceFinding
  finding_of fields = record {
    taxonomy = text_at (find_field "taxonomy" fields);
    source_ref = text_at (find_field "source_ref" fields);
    summary = text_at (find_field "summary" fields);
    severity = severity_at (find_field "severity" fields);
  }

  -- What is asked of a finding.
  abbrev pub is_finding : ConvergenceFinding → Bool
  is_finding x =
      member x.taxonomy taxonomies && (not (is_empty x.source_ref) && not (is_empty x.summary))

  abbrev pub add_finding :
      ConvergenceFinding → Option (List ConvergenceFinding) → Option (List ConvergenceFinding)
  add_finding x none = none
  add_finding x (some xs) = if is_finding x then some (x ∷ xs) else none

  -- The loop; none is ValueError.
  unfoldable pub parse_items : Items → Option (List ConvergenceFinding)
  unfolding find_field strip
  parse_items nil = some []
  parse_items (cons (object fields) items) = add_finding (finding_of fields) (parse_items items)
  parse_items (cons _ items) = none

  abbrev sorted : Option (List ConvergenceFinding) → Option (List ConvergenceFinding)
  sorted none = none
  sorted (some xs) = some (sort_findings xs)

  abbrev parse_list : Json → Option (List ConvergenceFinding)
  parse_list (array items) = sorted (parse_items items)
  parse_list _ = none

  abbrev parse_entry : Option Json → Option (List ConvergenceFinding)
  parse_entry none = sorted (parse_items nil)
  parse_entry (some j) = parse_list j

  abbrev parse_data : Option Json → Option (List ConvergenceFinding)
  parse_data (some (array items)) = sorted (parse_items items)
  parse_data (some (object fields)) = parse_entry (find_field "findings" fields)
  parse_data _ = none

  unfoldable pub parse_findings_payload : Option Text → Option (List ConvergenceFinding)
  unfolding strip sort_findings parse_items
  parse_findings_payload none = some []
  parse_findings_payload (some raw) =
      if is_empty (strip raw) then some [] else parse_data (loads raw)

  abbrev Good : Option (List ConvergenceFinding) → Type 0
  Good result = (xs : List ConvergenceFinding) → result ≡ some xs → all is_finding xs ≡ true

  add_finding-Good :
      (x : ConvergenceFinding) (r : Option (List ConvergenceFinding))
      → Good r
      → Good (add_finding x r)
  add_finding-Good x none h xs e = cc
  add_finding-Good x (some ys) h xs e = branches (is_finding x) refl e
    where
      branches :
          (b : Bool)
          → is_finding x ≡ b
          → (if b then some (x ∷ ys) else none) ≡ some xs
          → all is_finding xs ≡ true
      branches false p e = cc
      branches true p e =
          subst (λ zs. all is_finding zs ≡ true) (some_inj e) (&&-intro p (h ys refl))

  parse_items-Good : (items : Items) → Good (parse_items items)
  unfolding parse_items
  parse_items-Good nil xs e = subst (λ zs. all is_finding zs ≡ true) (some_inj e) refl
  parse_items-Good (cons (object fields) items) xs e =
      add_finding-Good (finding_of fields) (parse_items items) (parse_items-Good items) xs e
  parse_items-Good (cons _ items) xs e = cc

  insert_finding-all :
      (x : ConvergenceFinding) (ys : List ConvergenceFinding)
      → is_finding x ≡ true
      → all is_finding ys ≡ true
      → all is_finding (insert_finding x ys) ≡ true
  unfolding insert_finding
  insert_finding-all x [] h k = &&-intro h refl
  insert_finding-all x (y ∷ ys) h k =
      let parts = &&-true (is_finding y) (all is_finding ys) k in
      if-cases (λ zs. all is_finding zs ≡ true) _ (x ∷ y ∷ ys) (y ∷ insert_finding x ys)
        (λ e. &&-intro h k) (λ e. &&-intro parts.0 (insert_finding-all x ys h parts.1))

  sort_findings-all :
      (xs : List ConvergenceFinding)
      → all is_finding xs ≡ true
      → all is_finding (sort_findings xs) ≡ true
  unfolding sort_findings
  sort_findings-all [] h = refl
  sort_findings-all (x ∷ xs) h =
      let parts = &&-true (is_finding x) (all is_finding xs) h in
      insert_finding-all x (sort_findings xs) parts.0 (sort_findings-all xs parts.1)

  sorted-Good : (r : Option (List ConvergenceFinding)) → Good r → Good (sorted r)
  sorted-Good none h xs e = cc
  sorted-Good (some ys) h xs e =
      subst (λ zs. all is_finding zs ≡ true) (some_inj e) (sort_findings-all ys (h ys refl))

  parse_list-Good : (j : Json) → Good (parse_list j)
  parse_list-Good (array items) xs e = sorted-Good (parse_items items) (parse_items-Good items) xs e
  parse_list-Good _ xs e = cc

  parse_entry-Good : (o : Option Json) → Good (parse_entry o)
  parse_entry-Good none xs e = sorted-Good (parse_items nil) (parse_items-Good nil) xs e
  parse_entry-Good (some j) xs e = parse_list-Good j xs e

  parse_data-Good : (o : Option Json) → Good (parse_data o)
  parse_data-Good (some (array items)) xs e =
      sorted-Good (parse_items items) (parse_items-Good items) xs e
  parse_data-Good (some (object fields)) xs e = parse_entry-Good (find_field "findings" fields) xs e
  parse_data-Good _ xs e = cc

  -- Each finding of a payload that is read has a known taxonomy, a source and a summary.
  pub parse_findings_payload-is_finding :
      (raw : Option Text) (xs : List ConvergenceFinding)
      → parse_findings_payload raw ≡ some xs
      → all is_finding xs ≡ true
  unfolding parse_findings_payload
  parse_findings_payload-is_finding none xs e =
      subst (λ zs. all is_finding zs ≡ true) (some_inj e) refl
  parse_findings_payload-is_finding (some raw) xs e = branches (is_empty (strip raw)) e
    where
      branches :
          (b : Bool)
          → (if b then some [] else parse_data (loads raw)) ≡ some xs
          → all is_finding xs ≡ true
      branches true e = subst (λ zs. all is_finding zs ≡ true) (some_inj e) refl
      branches false e = parse_data-Good (loads raw) xs e
