-- ===== src/Converge.antt =====
-- core/converge.py: the findings of a convergence pass, and the tasks that are appended for them. The
-- ledger and its JSON, the commit and the clean-up are parameters.
pub mod Ids
pub mod Numbers
pub mod Fresh
pub mod Applied
pub mod Payload
pub mod Sorted
mod Examples
use deviatdd.Prelude.{
  ℕ, String, Bool, true, false, not, ◌&&◌, ◌||◌, Option, none, some, List, [], ◌∷◌, ◌++◌, length,
  drop, suc, ◌==◌, str_eq, leb, if◌then◌else◌, ◌+◌,
}
use deviatdd.Prelude.Text.{Text, codes, strip, upper, starts_with, text_eq, is_empty}
use deviatdd.Ledger.Rows.{Json, Items, Fields, str, array, object, nil, cons, end, field}
use deviatdd.Judge.Evidence.{member}
use deviatdd.Ledger.TaskId.{is_task_id}
use deviatdd.Converge.Ids.{next_task_ids, max_phase_number, decimal}

pub record ConvergenceFinding : Type 0 where
  pub taxonomy : Text
  pub source_ref : Text
  pub summary : Text
  pub severity : Option Text

abbrev or_empty : Option Text → Text
or_empty none = []
or_empty (some s) = s

unfoldable pub is_critical : ConvergenceFinding → Bool
unfolding upper
is_critical finding = text_eq (upper (or_empty finding.severity)) (codes "CRITICAL")

-- The key of the sort.
abbrev key : ConvergenceFinding → ℕ
key finding = if is_critical finding then 0 else 1

-- `sorted(findings, key=...)`, which is stable
unfoldable pub insert_finding :
    ConvergenceFinding → List ConvergenceFinding → List ConvergenceFinding
unfolding is_critical
insert_finding x [] = x ∷ []
insert_finding x (y ∷ ys) =
    let rest = insert_finding x ys in if leb (key x) (key y) then x ∷ y ∷ ys else y ∷ rest

unfoldable pub sort_findings : List ConvergenceFinding → List ConvergenceFinding
unfolding insert_finding
sort_findings [] = []
sort_findings (x ∷ xs) = insert_finding x (sort_findings xs)

-- TAXONOMY
abbrev pub taxonomies : List Text
taxonomies = codes "missing" ∷ codes "partial" ∷ codes "contradicts" ∷ codes "unrequested" ∷ []

-- A task record as `apply_findings` makes it: PENDING, in TDD mode, with unit tests.
pub record GapTask : Type 0 where
  pub id : Text
  pub issue_id : Text
  pub description : Text

abbrev describe : ConvergenceFinding → Text
describe finding = finding.taxonomy ++ (32 ∷ finding.source_ref ++ (codes ": " ++ finding.summary))

abbrev pub gap_task : Text → Text → ConvergenceFinding → GapTask
gap_task issue_id id finding = record {
  id = id;
  issue_id = issue_id;
  description = describe finding;
}

-- The loop that makes the records; none is the exception of their validation. The ids are as many
-- as the findings.
unfoldable pub gap_tasks : Text → List Text → List ConvergenceFinding → Option (List GapTask)
unfolding is_task_id
gap_tasks issue_id [] findings = some []
gap_tasks issue_id (id ∷ ids) [] = some []
gap_tasks issue_id (id ∷ ids) (finding ∷ findings) =
    let rest = gap_tasks issue_id ids findings in
    if is_task_id id
    then elim rest [ none ↦ none | some tasks ↦ some (gap_task issue_id id finding ∷ tasks) ]
    else none

abbrev justify : ConvergenceFinding → Text
justify finding =
    if text_eq finding.taxonomy (codes "unrequested")
    then codes " Review, justify, or remove — do not auto-delete code."
    else []

unfoldable pub task_card : Text → ConvergenceFinding → Text
task_card task_id finding =
    codes "- "
    ++ (task_id
        ++ (codes ": "
            ++ (finding.summary
                ++ (codes
                      "\n  - **Type**: Feature\n  - **Mode**: TDD\n  - **Test Strategy**: unit\n"
                    ++ (codes "  - **Rationale**: "
                        ++ (finding.taxonomy
                            ++ (codes " — "
                                ++ (finding.source_ref
                                    ++ (codes "." ++ (justify finding ++ codes "\n"))))))))))

unfoldable pub cards : List Text → List ConvergenceFinding → Text
unfolding task_card
cards (id ∷ ids) (finding ∷ findings) = task_card id finding ++ cards ids findings
cards _ _ = []

unfoldable pub section : ℕ → List Text → List ConvergenceFinding → Text
unfolding decimal cards
section phase ids findings =
    codes "\n## Phase "
    ++ (decimal (suc phase) phase
        ++ (codes ": Convergence\n**Goal**: Close present-state gaps against this issue brief, "
            ++ (codes "plan AC-PLAN, and constitution MUST\n\n### Tasks\n\n"
                ++ cards ids findings)))

-- What `append_record` does: it answers, or raises OSError, or raises something else.
pub data Append (L : Type 0) : Type 0 where
  answered : Bool → L → Append L
  os_error stopped : L → Append L

-- tasks.md and the ledger of the issue.
pub record Files (L : Type 0) : Type 0 where
  pub tasks_md : Option Text
  pub ledger : L

pub record Setting (L : Type 0) : Type 0 where
  pub append_record : GapTask → L → Append L
  pub ledger_text : L → Text
  pub finalize : Files L → Option (Files L)
  pub commit_works : Files L → Bool

pub data ConvergeError : Type 0 where
  missing_tasks missing_source append_failed : ConvergeError

-- `raised` is an exception; the others are the ConvergeApplyResult.
pub data Outcome : Type 0 where
  raised converged : Outcome
  refused : ConvergeError → Outcome
  appended : List Text → ℕ → Outcome

pub data Appends (L : Type 0) : Type 0 where
  all_in failed thrown : L → Appends L

module _ {L : Type 0} (setting : Setting L) where
  open setting use {append_record, ledger_text, finalize, commit_works}

  unfoldable pub append_all : List GapTask → L → Appends L
  append_all [] ledger = all_in ledger
  append_all (task ∷ tasks) ledger = elim (append_record task ledger) [
    | answered true after ↦ append_all tasks after
    | answered false after ↦ failed after
    | os_error after ↦ failed after
    | stopped after ↦ thrown after
  ]

  abbrev pub extended : Text → List Text → List ConvergenceFinding → ℕ → L → Files L
  extended text ids findings phase ledger = record {
    tasks_md = some (text ++ section phase ids findings);
    ledger = ledger;
  }

  abbrev pub written : Text → List Text → List ConvergenceFinding → ℕ → L → Outcome × Files L
  written text ids findings phase ledger = (
    if commit_works (extended text ids findings phase ledger) then appended ids phase else raised,
    extended text ids findings phase ledger,
  )

  abbrev pub after_appends :
      Text → List Text → List ConvergenceFinding → ℕ → Appends L → Outcome × Files L
  after_appends text ids findings phase (all_in ledger) = written text ids findings phase ledger
  after_appends text ids findings phase (failed ledger) =
      (refused append_failed, record { tasks_md = some text; ledger = ledger })
  after_appends text ids findings phase (thrown ledger) =
      (raised, record { tasks_md = some text; ledger = ledger })

  abbrev pub after_records :
      Text → List Text → List ConvergenceFinding → L → Option (List GapTask) → Outcome × Files L
  after_records text ids findings ledger none =
      (raised, record { tasks_md = some text; ledger = ledger })
  after_records text ids findings ledger (some tasks) =
      after_appends text ids findings (max_phase_number text + 1) (append_all tasks ledger)

  abbrev pub with_ids : Text → Text → List ConvergenceFinding → L → List Text → Outcome × Files L
  with_ids issue_id text findings ledger ids =
      after_records text ids findings ledger (gap_tasks issue_id ids findings)

  abbrev pub on_text : Text → Bool → List ConvergenceFinding → Text → L → Outcome × Files L
  on_text issue_id has_source findings text ledger =
      if not has_source
      then (refused missing_source, record { tasks_md = some text; ledger = ledger })
      else with_ids issue_id text findings ledger
          (next_task_ids issue_id (text ++ 10 ∷ ledger_text ledger) (length findings))

  abbrev pub on_findings :
      Text → Bool → List ConvergenceFinding → Option Text → L → Outcome × Files L
  on_findings issue_id has_source findings none ledger =
      (refused missing_tasks, record { tasks_md = none; ledger = ledger })
  on_findings issue_id has_source findings (some text) ledger =
      if is_empty issue_id
      then (refused missing_tasks, record { tasks_md = some text; ledger = ledger })
      else on_text issue_id has_source findings text ledger

  abbrev pub after_finalize : Files L → Option (Files L) → Outcome × Files L
  after_finalize files none = (raised, files)
  after_finalize files (some after) = (converged, after)

  abbrev pub dispatch : Text → Bool → List ConvergenceFinding → Files L → Outcome × Files L
  dispatch issue_id has_source [] files = after_finalize files (finalize files)
  dispatch issue_id has_source (x ∷ xs) files =
      on_findings issue_id has_source (x ∷ xs) files.tasks_md files.ledger

  -- An empty issue id stands for None.
  unfoldable pub apply_findings :
      Text → Bool → List ConvergenceFinding → Files L → Outcome × Files L
  unfolding sort_findings next_task_ids gap_tasks append_all max_phase_number section
  apply_findings issue_id has_source findings files =
      dispatch issue_id has_source (sort_findings findings) files
