-- ===== src/Converge/Fresh.antt =====
-- The ids of new tasks do not occur in the text that they are made for.
use deviatdd.Prelude.{
  ℕ, zero, suc, Bool, true, false, ◌||◌, Option, none, some, List, [], ◌∷◌, ◌++◌, map, all, drop,
  length, ◌==◌, ◌<◌, ◌≤◌, ◌≡◌, refl, sym, ap, ◌∙◌, arith, Bool-cases, inl, inr, &&-true, ==_iff,
  some_inj,
}
use deviatdd.Prelude.Text.{Text, codes, starts_with, contains, text_eq, text_eq→eq}
use deviatdd.Judge.Evidence.{member}
use deviatdd.Converge.Ids.{
  task_issue_ordinal, two_digits, format_task_id, add_number, used_numbers, max_of, first_free,
  range_from, next_task_ids,
}
use deviatdd.Ledger.TaskId.{number_at, number_here, is_task_id}
use deviatdd.Converge.Numbers.{number_here-format_task_id}

starts_with-append : (s p : Text) → starts_with s p ≡ true → s ≡ p ++ drop (length p) s
unfolding starts_with
starts_with-append s [] h = refl
starts_with-append [] (d ∷ p) h = cc
starts_with-append (c ∷ s) (d ∷ p) h =
    let parts = &&-true (c == d) (starts_with s p) h in
    λ i. (==_iff c d).0 parts.0 i ∷ starts_with-append s p parts.1 i

number_at-append : (x r : Text) (n : ℕ) → number_at x ≡ some n → number_at (x ++ r) ≡ some n
number_at-append [] r n h = cc
number_at-append (a ∷ []) r n h = cc
number_at-append (a ∷ b ∷ []) r n h = cc
number_at-append (a ∷ b ∷ c ∷ []) r n h = cc
number_at-append (a ∷ b ∷ c ∷ d ∷ []) r n h = cc
number_at-append (a ∷ b ∷ c ∷ d ∷ e ∷ []) r n h = cc
number_at-append (a ∷ b ∷ c ∷ d ∷ e ∷ f ∷ s) r n h = h

number_here-starts :
    (s x : Text) (n : ℕ)
    → number_at x ≡ some n
    → starts_with s (codes "TSK-" ++ x) ≡ true
    → number_here s ≡ some n
unfolding number_here
number_here-starts s x n h starts =
    ap number_here (starts_with-append s (codes "TSK-" ++ x) starts)
    ∙ number_at-append x (drop (length (codes "TSK-" ++ x)) s) n h

max_of-add : (o : Option ℕ) (n : ℕ) (ns : List ℕ) → o ≡ some n → n ≤ max_of (add_number o ns)
unfolding max_of
max_of-add none n ns h = cc
max_of-add (some m) n ns h = ground arith

max_of-later : (o : Option ℕ) (ns : List ℕ) → max_of ns ≤ max_of (add_number o ns)
unfolding max_of
max_of-later none ns = omega arith
max_of-later (some m) ns = ground arith

-- A number that stands in the text as part of a task id is counted.
contains-max :
    (text x : Text) (n : ℕ)
    → number_at x ≡ some n
    → contains text (codes "TSK-" ++ x) ≡ true
    → n ≤ max_of (used_numbers text)
unfolding contains used_numbers
contains-max [] x n h k = let no : true ≡ false = sym k in cc
contains-max (c ∷ s) x n h k = elim (Bool-cases (starts_with (c ∷ s) (codes "TSK-" ++ x))) [
  | inl p ↦ max_of-add (number_here (c ∷ s)) n (used_numbers s) (number_here-starts (c ∷ s) x n h p)
  | inr p ↦
      let rest = contains-max s x n h (ap (λ b. b || contains s (codes "TSK-" ++ x)) (sym p) ∙ k) in
      let later = max_of-later (number_here (c ∷ s)) (used_numbers s) in omega arith
]

below_free : (ns : List ℕ) → max_of ns < first_free ns
unfolding max_of
below_free [] = omega arith
below_free (n ∷ ns) = ground arith

not_in : (b : Bool) → (b ≡ true → true ≡ false) → b ≡ false
not_in true h = h refl
not_in false h = refl

too_small : (m n : ℕ) → m ≤ n → n < m → true ≡ false
too_small m n h k = ground arith

format_task_id-not_in :
    (issue_id text : Text) (n : ℕ)
    → first_free (used_numbers text) ≤ n
    → is_task_id (format_task_id issue_id n) ≡ true
    → contains text (format_task_id issue_id n) ≡ false
unfolding format_task_id
format_task_id-not_in issue_id text n h valid =
    not_in (contains text (format_task_id issue_id n)) (λ k.
      let low =
        contains-max text (task_issue_ordinal issue_id ++ b'-' ∷ two_digits n) n
          (unfold number_here in number_here-format_task_id issue_id n valid) k in
      let free = below_free (used_numbers text) in
      too_small n (max_of (used_numbers text)) low (omega arith))

-- No id of the list occurs in the text or again in the list.
unfoldable pub FreshIds : Text → List Text → Type 0
FreshIds text [] = Unit {0}
FreshIds text (id ∷ ids) = (contains text id ≡ false) × (member id ids ≡ false) × FreshIds text ids

module _ (issue_id : Text) where
  abbrev ids_from : ℕ → ℕ → List Text
  ids_from start count = map (format_task_id issue_id) (range_from start count)

  differ :
      (m n : ℕ)
      → m < n
      → is_task_id (format_task_id issue_id m) ≡ true
      → is_task_id (format_task_id issue_id n) ≡ true
      → text_eq (format_task_id issue_id m) (format_task_id issue_id n) ≡ false
  differ m n less valid_m valid_n =
      not_in (text_eq (format_task_id issue_id m) (format_task_id issue_id n)) (λ e.
        let same = some_inj (
          sym (number_here-format_task_id issue_id m valid_m)
          ∙ ap number_here (text_eq→eq _ _ e)
          ∙ number_here-format_task_id issue_id n valid_n) in
        too_small n m (omega arith) less)

  not_later :
      (m start count : ℕ)
      → m < start
      → is_task_id (format_task_id issue_id m) ≡ true
      → all is_task_id (ids_from start count) ≡ true
      → member (format_task_id issue_id m) (ids_from start count) ≡ false
  unfolding range_from
  not_later m start zero less valid valid_all = refl
  not_later m start (suc count) less valid valid_all =
      let parts = &&-true _ _ valid_all in
      rw (differ m start less valid parts.0)
        (not_later m (suc start) count (omega arith) valid parts.1)

  range_from-FreshIds :
      (text : Text) (start count : ℕ)
      → first_free (used_numbers text) ≤ start
      → all is_task_id (ids_from start count) ≡ true
      → FreshIds text (ids_from start count)
  unfolding range_from FreshIds
  range_from-FreshIds text start zero h valid = tt
  range_from-FreshIds text start (suc count) h valid =
      let parts = &&-true _ _ valid in
      (
        format_task_id-not_in issue_id text start h parts.0,
        not_later start (suc start) count (omega arith) parts.0 parts.1,
        range_from-FreshIds text (suc start) count (omega arith) parts.1,
      )

  pub next_task_ids-FreshIds :
      (text : Text) (count : ℕ)
      → all is_task_id (next_task_ids issue_id text count) ≡ true
      → FreshIds text (next_task_ids issue_id text count)
  unfolding next_task_ids
  next_task_ids-FreshIds text count valid =
      range_from-FreshIds text (first_free (used_numbers text)) count (omega arith) valid
