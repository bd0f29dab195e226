-- ===== src/Review/Claims.antt =====
-- What the coverage of an issue promises: which planned tokens are open.
use deviatdd.Prelude.{
  String, Bool, true, false, not, ◌&&◌, ◌||◌, Option, none, some, List, [], ◌∷◌, any, all, str_eq,
  if◌then◌else◌, ◌≡◌, refl, sym, ap, ◌∙◌, arith, subst,
}
use deviatdd.Prelude.Text.{Text, text_eq_refl}
use deviatdd.Ledger.Rows.{Row}
use deviatdd.Judge.Evidence.{member}
use deviatdd.Judge.Evidence.Diff.{Sources}
use deviatdd.Judge.Tokens.{find_ac_tokens, unique_ac_tokens}
use deviatdd.Review.{
  Workspace, ReviewCoverage, complete, latest_source_file, latest_rows, row_tokens, tokens_of,
  cards_of, claimed_tokens, nothing_planned, divide, on_plan, on_source, evaluate_review_coverage,
}
use deviatdd.Review.Members.{
  member-append, member-select, member-unique_ac_tokens, all-member, member-all, bool_ext,
}
use deviatdd.Review.Coverage.{some_latest, any-latest_rows}

abbrev tokens_in : Option Text → List Text
tokens_in none = []
tokens_in (some plan) = find_ac_tokens plan

abbrev plan_of : Workspace → Option String → Option Text
plan_of ws none = none
plan_of ws (some source) = ws.plan_md source

-- The tokens that the plan of the issue names, as often as it names them.
unfoldable pub planned_tokens : Workspace → String → List Text
unfolding latest_source_file find_ac_tokens
planned_tokens ws issue_id =
    if str_eq issue_id ""
    then []
    else tokens_in (plan_of ws (latest_source_file issue_id ws.issues))

abbrev claims : Workspace → String → Text → String → String → Row → Bool
claims ws issue_id token source task_id row =
    member token (row_tokens issue_id (cards_of (ws.tasks_md source)) task_id row)

abbrev claimed_at : Workspace → String → Text → Option String → Bool
claimed_at ws issue_id token none = false
claimed_at ws issue_id token (some source) =
    some_latest (claims ws issue_id token source) (ws.tasks_jsonl source)

-- The last row of some task is a COMPLETED row of the issue and claims the token.
unfoldable pub settled : Workspace → String → Text → Bool
unfolding latest_source_file some_latest row_tokens
settled ws issue_id token = claimed_at ws issue_id token (latest_source_file issue_id ws.issues)

member-tokens_of :
    (t : Text) (issue_id : String) (cards : Sources) (latest : List (String × Row))
    → member t (tokens_of issue_id cards latest)
      ≡ any (λ e. member t (row_tokens issue_id cards e.0 e.1)) latest
unfolding tokens_of
member-tokens_of t issue_id cards [] = refl
member-tokens_of t issue_id cards ((task_id, row) ∷ latest) =
    member-append t (row_tokens issue_id cards task_id row) (tokens_of issue_id cards latest)
    ∙ ap (λ b. member t (row_tokens issue_id cards task_id row) || b)
        (member-tokens_of t issue_id cards latest)

member-claimed_tokens :
    (ws : Workspace) (issue_id source : String) (t : Text)
    → member t (claimed_tokens ws issue_id source) ≡ claimed_at ws issue_id t (some source)
unfolding claimed_tokens
member-claimed_tokens ws issue_id source t =
    member-tokens_of t issue_id (cards_of (ws.tasks_md source))
      (latest_rows (ws.tasks_jsonl source))
    ∙ any-latest_rows (claims ws issue_id t source) (ws.tasks_jsonl source)

-- A coverage that tells the tokens with `p` apart by `c`.
unfoldable pub Splits : Text → Bool → Bool → ReviewCoverage → Type 0
Splits t p c coverage =
    (member t coverage.plan_tokens ≡ p)
    × (member t coverage.uncovered ≡ p && not c)
    × (member t coverage.claimed ≡ p && c)

nothing_planned-Splits :
    (issue_id : String) (t : Text) (c : Bool) → Splits t false c (nothing_planned issue_id)
unfolding Splits
nothing_planned-Splits issue_id t c = (refl, refl, refl)

divide-Splits :
    (issue_id : String) (t : Text) (tokens claimed : List Text)
    → Splits t (member t tokens) (member t claimed) (divide issue_id tokens claimed)
unfolding Splits
divide-Splits issue_id t [] claimed = (refl, refl, refl)
divide-Splits issue_id t (u ∷ us) claimed = (
  refl,
  member-select t (λ token. not (member token claimed)) (u ∷ us),
  member-select t (λ token. member token claimed) (u ∷ us),
)

on_plan-Splits :
    (ws : Workspace) (issue_id source : String) (t : Text) (plan : Option Text)
    → Splits t
        (member t (tokens_in plan))
        (claimed_at ws issue_id t (some source))
        (on_plan ws issue_id source plan)
on_plan-Splits ws issue_id source t none = nothing_planned-Splits issue_id t _
on_plan-Splits ws issue_id source t (some plan) =
    subst
      (λ p.
        Splits t p (claimed_at ws issue_id t (some source))
          (divide issue_id (unique_ac_tokens plan) (claimed_tokens ws issue_id source)))
      (member-unique_ac_tokens t plan)
      (subst
        (λ c.
          Splits t (member t (unique_ac_tokens plan)) c
            (divide issue_id (unique_ac_tokens plan) (claimed_tokens ws issue_id source)))
        (member-claimed_tokens ws issue_id source t)
        (divide-Splits issue_id t (unique_ac_tokens plan) (claimed_tokens ws issue_id source)))

on_source-Splits :
    (ws : Workspace) (issue_id : String) (t : Text) (source : Option String)
    → Splits t
        (member t (tokens_in (plan_of ws source)))
        (claimed_at ws issue_id t source)
        (on_source ws issue_id source)
on_source-Splits ws issue_id t none = nothing_planned-Splits issue_id t false
on_source-Splits ws issue_id t (some source) =
    on_plan-Splits ws issue_id source t (ws.plan_md source)

-- A token is a plan token of the coverage exactly if the plan of the issue names it. It is uncovered
-- if, besides, no task has a COMPLETED row of this issue as its last row that claims the token, and
-- claimed if some task has. Without an issue, a source file or a plan there is no plan token.
pub evaluate_review_coverage-Splits :
    (ws : Workspace) (issue_id : String) (t : Text)
    → Splits t
        (member t (planned_tokens ws issue_id))
        (settled ws issue_id t)
        (evaluate_review_coverage ws issue_id)
unfolding evaluate_review_coverage planned_tokens settled Splits
evaluate_review_coverage-Splits ws issue_id t = branches (str_eq issue_id "")
  where
    branches :
        (b : Bool)
        → Splits t
            (member t
              (if b then [] else tokens_in (plan_of ws (latest_source_file issue_id ws.issues))))
            (settled ws issue_id t)
            (if b
              then record { issue_id = none; plan_tokens = []; claimed = []; uncovered = [] }
              else on_source ws issue_id (latest_source_file issue_id ws.issues))
    branches true = (refl, refl, refl)
    branches false = on_source-Splits ws issue_id t (latest_source_file issue_id ws.issues)

complete-none : (c : ReviewCoverage) (t : Text) → complete c ≡ true → member t c.uncovered ≡ false
unfolding complete
complete-none c t h = none_left c.uncovered h
  where
    none_left :
        (ts : List Text) → elim ts [ [] ↦ true | _ ∷ _ ↦ false ] ≡ true → member t ts ≡ false
    none_left [] h = refl
    none_left (u ∷ us) h = cc

none-complete :
    (c : ReviewCoverage) → ((t : Text) → member t c.uncovered ≡ false) → complete c ≡ true
unfolding complete
none-complete c h = all_left c.uncovered h
  where
    all_left :
        (ts : List Text)
        → ((t : Text) → member t ts ≡ false)
        → elim ts [ [] ↦ true | _ ∷ _ ↦ false ] ≡ true
    all_left [] h = refl
    all_left (u ∷ us) h = let p = h u in let q = text_eq_refl u in ground arith

-- The coverage of an issue is complete exactly if each token that its plan names is claimed by a task
-- whose last row is a COMPLETED row of the issue.
pub complete-evaluate_review_coverage :
    (ws : Workspace) (issue_id : String)
    → complete (evaluate_review_coverage ws issue_id)
      ≡ all (settled ws issue_id) (planned_tokens ws issue_id)
unfolding Splits
complete-evaluate_review_coverage ws issue_id =
    bool_ext (complete (evaluate_review_coverage ws issue_id))
      (all (settled ws issue_id) (planned_tokens ws issue_id))
      (λ h. member-all (settled ws issue_id) (planned_tokens ws issue_id) (λ t p.
        must_claim (member t (planned_tokens ws issue_id)) (settled ws issue_id t) p (
          sym (evaluate_review_coverage-Splits ws issue_id t).1
          ∙ complete-none (evaluate_review_coverage ws issue_id) t h)))
      (λ h. none-complete (evaluate_review_coverage ws issue_id) (λ t.
        (evaluate_review_coverage-Splits ws issue_id t).1
        ∙ open_lem (member t (planned_tokens ws issue_id)) (settled ws issue_id t)
            (all-member (settled ws issue_id) (planned_tokens ws issue_id) t h)))
  where
    must_claim : (p c : Bool) → p ≡ true → p && not c ≡ false → c ≡ true
    must_claim true true h q = refl
    must_claim true false h q = cc
    must_claim false c h q = cc

    open_lem : (p c : Bool) → (p ≡ true → c ≡ true) → p && not c ≡ false
    open_lem true c h = rw (h refl) refl
    open_lem false c h = refl
