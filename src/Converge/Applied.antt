-- ===== src/Converge/Applied.antt =====
-- What `apply_findings` has done when it returns.
use deviatdd.Prelude.{
  ℕ, zero, suc, Bool, true, false, ◌&&◌, Option, none, some, List, [], ◌∷◌, ◌++◌, map, all, length,
  if◌then◌else◌, ◌+◌, ◌≡◌, refl, ap, arith,
}
use deviatdd.Prelude.Text.{Text}
use deviatdd.Converge.Ids.{
  format_task_id, used_numbers, range_from, next_task_ids, max_phase_number, first_free,
}
use deviatdd.Converge.{
  ConvergenceFinding, sort_findings, GapTask, gap_task, gap_tasks, section, Files, Setting, Appends,
  all_in, failed, thrown, missing_tasks, missing_source, append_failed, Outcome, raised, converged,
  refused, appended, append_all, extended, after_appends, after_records, on_text, on_findings,
  after_finalize, dispatch, apply_findings,
}
use deviatdd.Ledger.TaskId.{is_task_id}
use deviatdd.Converge.Fresh.{FreshIds, next_task_ids-FreshIds}

gap_tasks-valid :
    (issue_id : Text) (ids : List Text) (findings : List ConvergenceFinding) (tasks : List GapTask)
    → length ids ≡ length findings
    → gap_tasks issue_id ids findings ≡ some tasks
    → all is_task_id ids ≡ true
unfolding gap_tasks
gap_tasks-valid issue_id [] findings tasks same h = refl
gap_tasks-valid issue_id (id ∷ ids) [] tasks same h = ground arith
gap_tasks-valid issue_id (id ∷ ids) (x ∷ xs) tasks same h =
    by_id (is_task_id id) (gap_tasks issue_id ids xs)
      (λ tasks. gap_tasks-valid issue_id ids xs tasks (omega arith)) h
  where
    by_id :
        (b : Bool) (rest : Option (List GapTask))
        → ((tasks : List GapTask) → rest ≡ some tasks → all is_task_id ids ≡ true)
        → (if b
            then elim rest [ none ↦ none | some ts ↦ some (gap_task issue_id id x ∷ ts) ]
            else none)
          ≡ some tasks
        → b && all is_task_id ids ≡ true
    by_id false rest more h = cc
    by_id true none more h = cc
    by_id true (some ts) more h = more ts refl

length-range_from :
    (f : ℕ → Text) (start count : ℕ) → length (map f (range_from start count)) ≡ count
unfolding range_from
length-range_from f start zero = refl
length-range_from f start (suc count) = ap suc (length-range_from f (suc start) count)

length-next_task_ids :
    (issue_id text : Text) (count : ℕ) → length (next_task_ids issue_id text count) ≡ count
unfolding next_task_ids
length-next_task_ids issue_id text count =
    length-range_from (format_task_id issue_id) (first_free (used_numbers text)) count

module _ {L : Type 0} (setting : Setting L) where
  open setting use {append_record, ledger_text, finalize, commit_works}

  -- All ids are new, each sorted finding has one, its row is in the ledger, and its card in tasks.md.
  abbrev IsAppended : Text → Text → L → List ConvergenceFinding → List Text → ℕ → Files L → Type 0
  IsAppended issue_id text ledger findings ids phase after =
      FreshIds (text ++ 10 ∷ ledger_text ledger) ids
      × (length ids ≡ length findings)
      × (phase ≡ max_phase_number text + 1)
      × (after.tasks_md ≡ some (text ++ section phase ids findings))
      × (tasks : List GapTask) × (gap_tasks issue_id ids findings ≡ some tasks)
      × (append_all setting tasks ledger ≡ all_in after.ledger)

  unfoldable pub Applied : Text → Files L → List ConvergenceFinding → Outcome × Files L → Type 0
  unfolding FreshIds max_phase_number section gap_tasks append_all
  Applied issue_id files findings (appended ids phase, after) =
      (text : Text) × (files.tasks_md ≡ some text)
      × IsAppended issue_id text files.ledger findings ids phase after
  Applied issue_id files findings (refused append_failed, after) = after.tasks_md ≡ files.tasks_md
  Applied issue_id files findings (refused missing_tasks, after) = after ≡ files
  Applied issue_id files findings (refused missing_source, after) = after ≡ files
  Applied issue_id files findings (converged, after) =
      (findings ≡ []) × (finalize files ≡ some after)
  Applied issue_id files findings (raised, after) = Unit {0}

  after_appends-Applied :
      (issue_id text : Text) (ids : List Text) (findings : List ConvergenceFinding) (ledger : L)
      (tasks : List GapTask) (result : Appends L)
      → FreshIds (text ++ 10 ∷ ledger_text ledger) ids
      → length ids ≡ length findings
      → gap_tasks issue_id ids findings ≡ some tasks
      → append_all setting tasks ledger ≡ result
      → Applied issue_id
          (record { tasks_md = some text; ledger = ledger })
          findings
          (after_appends setting text ids findings (max_phase_number text + 1) result)
  unfolding Applied
  after_appends-Applied issue_id text ids findings ledger tasks (all_in after) new same made went =
      committed
        (commit_works (extended setting text ids findings (max_phase_number text + 1) after))
    where
      committed :
          (b : Bool)
          → Applied issue_id
              (record { tasks_md = some text; ledger = ledger })
              findings
              (
                if b then appended ids (max_phase_number text + 1) else raised,
                extended setting text ids findings (max_phase_number text + 1) after,
              )
      committed false = tt
      committed true = (text, refl, (new, same, refl, refl, tasks, made, went))
  after_appends-Applied issue_id text ids findings ledger tasks (failed after) new same made went =
      refl
  after_appends-Applied issue_id text ids findings ledger tasks (thrown after) new same made went =
      tt

  after_records-Applied :
      (issue_id text : Text) (ids : List Text) (findings : List ConvergenceFinding) (ledger : L)
      (made : Option (List GapTask))
      → (all is_task_id ids ≡ true → FreshIds (text ++ 10 ∷ ledger_text ledger) ids)
      → length ids ≡ length findings
      → gap_tasks issue_id ids findings ≡ made
      → Applied issue_id
          (record { tasks_md = some text; ledger = ledger })
          findings
          (after_records setting text ids findings ledger made)
  after_records-Applied issue_id text ids findings ledger none new same h = unfold Applied in tt
  after_records-Applied issue_id text ids findings ledger (some tasks) new same h =
      after_appends-Applied issue_id text ids findings ledger tasks
        (append_all setting tasks ledger) (new (gap_tasks-valid issue_id ids findings tasks same h))
        same h refl

  on_text-Applied :
      (issue_id : Text) (has_source : Bool) (findings : List ConvergenceFinding) (text : Text)
      (ledger : L)
      → Applied issue_id
          (record { tasks_md = some text; ledger = ledger })
          findings
          (on_text setting issue_id has_source findings text ledger)
  on_text-Applied issue_id false findings text ledger = unfold Applied in refl
  on_text-Applied issue_id true findings text ledger =
      after_records-Applied issue_id text
        (next_task_ids issue_id (text ++ 10 ∷ ledger_text ledger) (length findings)) findings ledger
        _ (next_task_ids-FreshIds issue_id (text ++ 10 ∷ ledger_text ledger) (length findings))
        (length-next_task_ids issue_id (text ++ 10 ∷ ledger_text ledger) (length findings)) refl

  on_findings-Applied :
      (issue_id : Text) (has_source : Bool) (findings : List ConvergenceFinding)
      (tasks_md : Option Text) (ledger : L)
      → Applied issue_id
          (record { tasks_md = tasks_md; ledger = ledger })
          findings
          (on_findings setting issue_id has_source findings tasks_md ledger)
  on_findings-Applied issue_id has_source findings none ledger = unfold Applied in refl
  on_findings-Applied [] has_source findings (some text) ledger = unfold Applied in refl
  on_findings-Applied (c ∷ issue_id) has_source findings (some text) ledger =
      on_text-Applied (c ∷ issue_id) has_source findings text ledger

  finished :
      (issue_id : Text) (files : Files L) (o : Option (Files L))
      → finalize files ≡ o
      → Applied issue_id files [] (after_finalize setting files o)
  unfolding Applied
  finished issue_id files none h = tt
  finished issue_id files (some after) h = (refl, h)

  dispatch-Applied :
      (issue_id : Text) (has_source : Bool) (findings : List ConvergenceFinding) (files : Files L)
      → Applied issue_id files findings (dispatch setting issue_id has_source findings files)
  dispatch-Applied issue_id has_source [] files = finished issue_id files (finalize files) refl
  dispatch-Applied issue_id has_source (x ∷ xs) files =
      on_findings-Applied issue_id has_source (x ∷ xs) files.tasks_md files.ledger

  -- When a convergence pass reports that it has appended tasks, each finding, CRITICAL ones first, has
  -- got an id that occurs neither in tasks.md nor in the text of the ledger nor twice in the list; a
  -- record for each has been appended in this order, and each append has answered True; and tasks.md
  -- has got the section of the next phase at its end. When it reports an error, tasks.md is unchanged,
  -- and so is the ledger unless it is an append that failed. It reports that it has converged, without
  -- an error, only if there is no finding and the clean-up has worked.
  pub apply_findings-Applied :
      (issue_id : Text) (has_source : Bool) (findings : List ConvergenceFinding) (files : Files L)
      → Applied issue_id files
          (sort_findings findings)
          (apply_findings setting issue_id has_source findings files)
  unfolding apply_findings
  apply_findings-Applied issue_id has_source findings files =
      dispatch-Applied issue_id has_source (sort_findings findings) files
