-- ===== src/Micro/Statuses/Reading.antt =====
-- `_latest_task_statuses` of cli/micro/pending.py, for one issue.
use deviatdd.Prelude.{
  String, Bool, true, false, Option, none, some, List, [], ◌∷◌, str_eq, if◌then◌else◌, ◌≡◌, refl,
  sym, ap, ◌∙◌, subst, Bool-cases, inl, inr, some_inj, str_eq→eq, str_eq_refl,
}
use deviatdd.Ledger.Rows.{Row, Json, str, get, lookup, json_eq}
use deviatdd.Ledger.Append.View.{none-or_later}
use deviatdd.Ledger.Unblocked.{put, find, nonempty}
use deviatdd.Ledger.Unblocked.Statuses.{find-put}
use deviatdd.Ledger.Unblocked.Selection.{lookup-get, lookup-none}
use deviatdd.Micro.Statuses.{
  Key, same_key, key_of, or_blank, with_issue, in_scope, status_text, collect_from, statuses_from,
  latest_task_statuses,
}
use deviatdd.Micro.Statuses.Latest.{
  find_latest, last_with, IsMap, same_key→eq, find-collect_from, collect_from-IsMap,
}

abbrev pub status_of : Option Row → Option String
status_of none = none
status_of (some rec) = some (status_text (get "status" rec))

abbrev or_status : Option String → Option String → Option String
or_status s none = s
or_status s (some t) = some t

module _ (issue_id : String) (named : str_eq issue_id "" ≡ false) where
  blank_differs : str_eq "" issue_id ≡ false
  blank_differs = elim (Bool-cases (str_eq "" issue_id)) [
    | inl p ↦
        let q =
          sym (str_eq_refl issue_id)
          ∙ ap (λ x. str_eq issue_id x) (sym (str_eq→eq "" issue_id p))
          ∙ named in
        cc
    | inr p ↦ p
  ]

  blank_lem :
      (rec : Row) (l : Option Json)
      → lookup "issue_id" rec ≡ l
      → json_eq (get "issue_id" rec) (str issue_id) ≡ json_eq (or_blank l) (str issue_id)
  unfolding json_eq
  blank_lem rec none h = rw (lookup-none "issue_id" rec h) (sym blank_differs)
  blank_lem rec (some j) h = rw (lookup-get "issue_id" rec h) refl

  scope_lem :
      (k : Key) (rec : Row)
      → key_of rec ≡ some k
      → in_scope (some issue_id) rec ≡ json_eq k.0 (str issue_id)
  scope_lem k rec h =
      blank_lem rec (lookup "issue_id" rec) refl
      ∙ ap (λ x. json_eq x (str issue_id)) (with_lem _ (nonempty (get "id" rec)) k h)
    where
      with_lem : (j : Json) (t : Option String) (k : Key) → with_issue j t ≡ some k → j ≡ k.0
      with_lem j none k h = cc
      with_lem j (some t) k h = ap (λ x. x.0) (some_inj h)

  abbrev the_key : String → Key
  the_key tid = (str issue_id, tid)

  -- One record: in scope it gives its task its status, out of scope it changes nothing.
  step :
      (tid : String) (k : Key) (rec : Row) (statuses : List (String × String)) (rest : Option Row)
      (scoped : Bool)
      → scoped ≡ json_eq k.0 (str issue_id)
      → (same_key k (the_key tid) ≡ true → rest ≡ none)
      → or_status
          (find tid
            (if scoped then put k.1 (status_text (get "status" rec)) statuses else statuses))
          (status_of rest)
        ≡ or_status
            (find tid statuses)
            (status_of (if same_key k (the_key tid) then some rec else rest))
  step tid k rec statuses rest false h alone = rw (sym h) refl
  step tid k rec statuses rest true h alone =
      rw (sym h, find-put) (cases (str_eq k.1 tid) (λ e. alone (rw (sym h, e) refl)))
    where
      cases :
          (b : Bool)
          → (b ≡ true → rest ≡ none)
          → or_status
              (if b then some (status_text (get "status" rec)) else find tid statuses)
              (status_of rest)
            ≡ or_status (find tid statuses) (status_of (if b then some rec else rest))
      cases false e = refl
      cases true e = rw (e refl) refl

  find-statuses_from :
      (tid : String) (latest : List (Key × Row)) (statuses : List (String × String))
      → IsMap latest
      → find tid (statuses_from (some issue_id) statuses latest)
        ≡ or_status (find tid statuses) (status_of (find_latest (the_key tid) latest))
  unfolding statuses_from find_latest
  find-statuses_from tid [] statuses m = refl
  find-statuses_from tid ((k, rec) ∷ latest) statuses (own, fresh, m) =
      find-statuses_from tid latest _ m
      ∙ step tid k rec statuses (find_latest (the_key tid) latest) (in_scope (some issue_id) rec)
          (scope_lem k rec own)
          (λ e. subst (λ x. find_latest x latest ≡ none) (same_key→eq k (the_key tid) e) fresh)

  none-or_status : (s : Option String) → or_status none s ≡ s
  none-or_status none = refl
  none-or_status (some s) = refl

  -- Read for one issue, with an id that is not empty, the status of a task is that of the last record,
  -- in the order of the ledger files and of their lines, that has this issue id and this task id, and
  -- there is none if no record has them: the records of other issues, which reuse the task ids, do not
  -- count.
  pub latest_task_statuses_lem :
      (tid : String) (recs : List Row)
      → find tid (latest_task_statuses (some issue_id) recs)
        ≡ status_of (last_with (the_key tid) recs)
  unfolding latest_task_statuses find
  latest_task_statuses_lem tid recs =
      find-statuses_from tid (collect_from [] recs) [] (collect_from-IsMap [] recs tt)
      ∙ none-or_status (status_of (find_latest (the_key tid) (collect_from [] recs)))
      ∙ ap status_of (
          find-collect_from (the_key tid) [] recs
          ∙ unfold find_latest in none-or_later (last_with (the_key tid) recs))
