-- ===== src/Judge/Evidence/Passes.antt =====
-- When `evaluate_judge_evidence` of core/judge_evidence.py passes.
use deviatdd.Prelude.{
  Bool, true, false, not, ◌&&◌, ◌||◌, Option, none, some, List, [], ◌∷◌, ◌++◌, map, all, select,
  arith, if◌then◌else◌, ◌≡◌, refl, ◌∙◌,
}
use deviatdd.Prelude.Text.{Text, strip, contains, is_empty}
use deviatdd.Judge.Evidence.Diff.{Sources, map_diff_hunks}
use deviatdd.Judge.Evidence.{
  Item, Side, test, impl, Failure, Request, member, normalized_paths, has_source, first_unknown,
  missing_declared_path, uncovered_tokens, meets_uniqueness_floor, resolve_source, check_source,
  check_quote, and_then, check_citation, check_items, check_tokens, tokens_of, head_mode,
  impl_required, evaluate_judge_evidence,
}

abbrev pub passes : Option Failure → Bool
passes none = true
passes (some _) = false

-- A quote that is not blank, of a text that is there, is found in it and is not too generic.
abbrev quoted_in : Text → Bool → Option Text → Bool
quoted_in quote use_head none = false
quoted_in quote use_head (some source) =
    contains source quote && meets_uniqueness_floor quote source (not use_head)

abbrev pub quoted : Text → Text → Sources → Sources → Bool → Bool
quoted path quote hunks head use_head =
    not (is_empty (strip quote))
    && quoted_in quote use_head (resolve_source path hunks head use_head)

abbrev pub supported : Item → Sources → Sources → Bool → Bool → Bool
supported i hunks head use_head impl_needed =
    quoted i.test_path i.test_quote hunks head use_head
    && (not impl_needed || quoted i.impl_path i.impl_quote hunks head use_head)

abbrev pub covered : List Item → Text → Bool
covered evidence token = member token (map (λ i. i.ac) evidence)

abbrev pub is_nil : List Text → Bool
is_nil [] = true
is_nil (_ ∷ _) = false

module _ (hunks head : Sources) where
  abbrev pub present : Text → Bool
  present path = has_source hunks path || has_source head path

  passes-first_unknown :
      (paths : List Text) → passes (first_unknown hunks head paths) ≡ all present paths
  unfolding first_unknown
  passes-first_unknown [] = refl
  passes-first_unknown (path ∷ paths) = ground (arith, passes-first_unknown paths)

  passes-check_source :
      (side : Side) (path quote : Text) (use_head : Bool) (source : Option Text)
      → passes (check_source side path quote use_head source) ≡ quoted_in quote use_head source
  passes-check_source side path quote use_head none = refl
  passes-check_source side path quote use_head (some source) = ground arith

  passes-check_quote :
      (side : Side) (path quote : Text) (use_head : Bool)
      → passes (check_quote side path quote hunks head use_head)
        ≡ quoted path quote hunks head use_head
  unfolding check_quote
  passes-check_quote side path quote use_head = ground (
    arith,
    passes-check_source side path quote use_head (resolve_source path hunks head use_head),
  )

  passes-and_then : (a b : Option Failure) → passes (and_then a b) ≡ (passes a && passes b)
  passes-and_then none b = refl
  passes-and_then (some f) b = refl

  passes-check_citation :
      (i : Item) (use_head impl_needed : Bool)
      → passes (check_citation i hunks head use_head impl_needed)
        ≡ supported i hunks head use_head impl_needed
  unfolding check_citation
  passes-check_citation i use_head true =
      passes-and_then (check_quote test i.test_path i.test_quote hunks head use_head) _
      ∙ rw
          (
            passes-check_quote test i.test_path i.test_quote use_head,
            passes-check_quote impl i.impl_path i.impl_quote use_head,
          )
          refl
  passes-check_citation i use_head false =
      passes-and_then (check_quote test i.test_path i.test_quote hunks head use_head) _
      ∙ rw (passes-check_quote test i.test_path i.test_quote use_head) refl

  passes-check_items :
      (tokens : List Text) (items : List Item) (use_head impl_needed : Bool)
      → passes (check_items tokens items hunks head use_head impl_needed)
        ≡ all (λ i. not (member i.ac tokens) || supported i hunks head use_head impl_needed) items
  unfolding check_items
  passes-check_items tokens [] use_head impl_needed = refl
  passes-check_items tokens (i ∷ items) use_head impl_needed =
      step (member i.ac tokens) (check_citation i hunks head use_head impl_needed)
        (check_items tokens items hunks head use_head impl_needed) _ _
        (passes-check_citation i use_head impl_needed)
        (passes-check_items tokens items use_head impl_needed)
    where
      step :
          (b : Bool) (c rest : Option Failure) (x y : Bool)
          → passes c ≡ x
          → passes rest ≡ y
          → passes (if b then and_then c rest else rest) ≡ ((not b || x) && y)
      step true none rest x y h k = ground arith
      step true (some f) rest x y h k = ground arith
      step false c rest x y h k = k

passes-check_tokens :
    (tokens uncovered : List Text) (next : Option Failure)
    → passes (check_tokens tokens uncovered next)
      ≡ (is_nil tokens || (is_nil uncovered && passes next))
passes-check_tokens [] uncovered next = refl
passes-check_tokens (_ ∷ _) [] next = refl
passes-check_tokens (_ ∷ _) (_ ∷ _) next = refl

uncovered-covered :
    (evidence : List Item) (tokens : List Text)
    → is_nil (uncovered_tokens tokens evidence) ≡ all (covered evidence) tokens
unfolding uncovered_tokens
uncovered-covered evidence [] = refl
uncovered-covered evidence (t ∷ tokens) =
    step (covered evidence t) (select (λ u. not (covered evidence u)) tokens) _
      (uncovered-covered evidence tokens)
  where
    step :
        (b : Bool) (rest : List Text) (y : Bool)
        → is_nil rest ≡ y
        → is_nil (if not b then t ∷ rest else rest) ≡ (b && y)
    step true rest y h = h
    step false rest y h = refl

-- The citations of a manifest pass exactly if every declared path, and every test path that an item
-- names, is in the diff or in HEAD, and either no token is required, or each required token is cited
-- and each item that cites one is supported: its test quote, and unless the action is
-- `proceed_to_refactor_no_diff` its implementation quote, is not blank, stands in the text of its
-- path, in the diff or, for `skip_refactor` or on request, in HEAD, and is long enough or a whole line.
pub evaluate_judge_evidence-passes :
    (q : Request)
    → passes (evaluate_judge_evidence q) ≡ (
        all
          (present (map_diff_hunks q.injected_diff) q.head_contents)
          (normalized_paths (q.declared_paths ++ map (λ i. i.test_path) q.evidence))
        && (is_nil (tokens_of q)
            || (all (covered q.evidence) (tokens_of q)
                && all
                    (λ i.
                      not (member i.ac (tokens_of q))
                      || supported i
                          (map_diff_hunks q.injected_diff)
                          q.head_contents
                          (head_mode q)
                          (impl_required q))
                    q.evidence)))
unfolding evaluate_judge_evidence missing_declared_path
evaluate_judge_evidence-passes q =
    let hunks = map_diff_hunks q.injected_diff in
    let tokens = tokens_of q in
    let head = q.head_contents in
    let items = check_items tokens q.evidence hunks head (head_mode q) (impl_required q) in
    passes-and_then hunks head
      (first_unknown hunks head
        (normalized_paths (q.declared_paths ++ map (λ i. i.test_path) q.evidence)))
      _
    ∙ rw
        (
          passes-first_unknown hunks head
              (normalized_paths (q.declared_paths ++ map (λ i. i.test_path) q.evidence)),
          passes-check_tokens tokens (uncovered_tokens tokens q.evidence) items,
          uncovered-covered q.evidence tokens,
          passes-check_items hunks head tokens q.evidence (head_mode q) (impl_required q),
        )
        refl
