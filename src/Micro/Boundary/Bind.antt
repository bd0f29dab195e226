-- ===== src/Micro/Boundary/Bind.antt =====
-- Which RED commit belongs to a task, and its recovery from the ledger and the history.
use deviatdd.Prelude.{
  String, Bool, true, false, not, ◌&&◌, ◌||◌, List, [], ◌∷◌, select, str_eq, if◌then◌else◌,
}
use deviatdd.Prelude.Text.{Text, codes, strip, lower, contains, is_empty}
use deviatdd.Prelude.Regex.{Regex, search, exactly, digit, chain}
use deviatdd.Ledger.Rows.{Row, str, get, json_eq}
use deviatdd.Micro.Statuses.{Key, collect_from, status_text}
use deviatdd.Micro.Session.{Session, invalidate_stale_forward_route}
use deviatdd.Micro.Boundary.Git.{
  Git, head, git_commit_subject, is_ancestor, is_red_subject, is_red_phase_failing_test_sha,
}
use deviatdd.Micro.Boundary.Anchor.{or_else, resolve_rewritten_sha, refresh_session_commit_anchors}

-- What `_recover_red_commit_boundary` returns: the empty text, or one of its messages.
pub data Recovery : Type 0 where
  recovered no_red_state ambiguous no_red_commit : Recovery

abbrev pub is_recovered : Recovery → Bool
is_recovered recovered = true
is_recovered _ = false

-- `TSK-\d{3}-\d{2}`
abbrev task_id_re : Regex
task_id_re =
    chain
      (exactly (codes "TSK-") ∷ digit ∷ digit ∷ digit ∷ exactly (codes "-") ∷ digit ∷ digit ∷ [])

-- The status of the first of the latest records with this task id.
unfoldable pub latest_status_of : String → List (Key × Row) → String
latest_status_of task_id [] = ""
latest_status_of task_id ((k, rec) ∷ latest) =
    let later = latest_status_of task_id latest in
    if json_eq (get "id" rec) (str task_id) then status_text (get "status" rec) else later

abbrev pub has_red_state : String → Bool
has_red_state status = str_eq status "RED" || (str_eq status "GREEN" || str_eq status "JUDGE")

module _ (git : Git) where
  unfoldable pub red_boundary_belongs_to_task : Text → String → Bool
  unfolding git_commit_subject
  red_boundary_belongs_to_task sha task_id =
      let tid = strip (codes task_id) in
      let subject = git_commit_subject git (strip sha) in
      if is_empty (strip sha) || is_empty tid
      then false
      else if is_empty subject
      then true
      else if contains subject tid
      then true
      else not (search task_id_re subject)

  unfoldable pub is_foreign_on_branch_boundary : Text → String → Bool
  unfolding red_boundary_belongs_to_task is_ancestor
  is_foreign_on_branch_boundary sha task_id =
      if is_empty (strip sha) || red_boundary_belongs_to_task (strip sha) task_id
      then false
      else is_ancestor git (strip sha) head

  abbrev set_red : Text → Session → Session
  set_red sha s = record s { red_commit_sha = sha }

  abbrev pub accepts : Text → Bool
  accepts sha = is_ancestor git sha head && is_red_phase_failing_test_sha git sha

  -- The one candidate is left.
  unfoldable pub adopt : String → Text → Session → Recovery × Session
  unfolding resolve_rewritten_sha is_ancestor is_red_phase_failing_test_sha
      refresh_session_commit_anchors invalidate_stale_forward_route
  adopt task_id sha s =
      let resolved = or_else (resolve_rewritten_sha git sha) sha in
      if accepts resolved
      then (
        recovered,
        (refresh_session_commit_anchors git
            (invalidate_stale_forward_route task_id (set_red resolved s)).1).1,
      )
      else (no_red_commit, s)

  abbrev pub is_red_like : Text × Text → Bool
  is_red_like (sha, subject) = is_red_subject subject || contains (lower subject) (codes "red")

  abbrev pub adopt_only : String → List (Text × Text) → Session → Recovery × Session
  adopt_only task_id ((sha, subject) ∷ []) s = adopt task_id sha s
  adopt_only task_id _ s = (ambiguous, s)

  abbrev pub adopt_candidate : String → List (Text × Text) → Session → Recovery × Session
  adopt_candidate task_id [] s = (no_red_commit, s)
  adopt_candidate task_id ((sha, subject) ∷ []) s = adopt task_id sha s
  adopt_candidate task_id (a ∷ b ∷ rows) s =
      adopt_only task_id (select is_red_like (a ∷ b ∷ rows)) s

  -- `ledgers` are the records of the ledger files, in their order.
  unfoldable pub recover_from_ledger : List Row → String → Session → Recovery × Session
  unfolding collect_from latest_status_of adopt is_red_subject
  recover_from_ledger ledgers task_id s =
      if not (has_red_state (latest_status_of task_id (collect_from [] ledgers)))
      then (no_red_state, s)
      else adopt_candidate task_id
          (select (λ (row : Text × Text). contains row.1 (codes task_id)) git.train) s

  -- `_recover_red_commit_boundary`
  unfoldable pub recover_red_commit_boundary : List Row → String → Session → Recovery × Session
  unfolding is_red_phase_failing_test_sha red_boundary_belongs_to_task is_ancestor
      recover_from_ledger refresh_session_commit_anchors
  recover_red_commit_boundary ledgers task_id s =
      if is_red_phase_failing_test_sha git s.red_commit_sha
      then (if red_boundary_belongs_to_task s.red_commit_sha task_id
          then (recovered, (refresh_session_commit_anchors git s).1)
          else if not (is_ancestor git s.red_commit_sha head)
          then (recovered, s)
          else recover_from_ledger ledgers task_id (set_red [] s))
      else recover_from_ledger ledgers task_id s

  -- A recovery that succeeded is kept if the commit is the task's, and one that failed leaves a commit
  -- of the task as it is.
  abbrev pub keep_own : String → Recovery × Session → Text × Session
  keep_own task_id (recovered, s) =
      if not (is_empty (strip s.red_commit_sha))
        && not (red_boundary_belongs_to_task s.red_commit_sha task_id)
      then ([], set_red [] s)
      else (strip s.red_commit_sha, s)
  keep_own task_id (_, s) =
      if not (is_empty (strip s.red_commit_sha))
        && red_boundary_belongs_to_task (strip s.red_commit_sha) task_id
      then (strip s.red_commit_sha, s)
      else ([], set_red [] s)

  -- `_bind_session_red_boundary`: what it returns, and the session after it.
  unfoldable pub bind_session_red_boundary : List Row → String → Session → Text × Session
  unfolding is_foreign_on_branch_boundary red_boundary_belongs_to_task recover_red_commit_boundary
  bind_session_red_boundary ledgers task_id s =
      let stored = strip s.red_commit_sha in
      if not (is_empty stored) && is_foreign_on_branch_boundary stored task_id
      then keep_own task_id (recover_red_commit_boundary ledgers task_id (set_red [] s))
      else if not (is_empty stored) && not (red_boundary_belongs_to_task stored task_id)
      then (stored, s)
      else keep_own task_id (recover_red_commit_boundary ledgers task_id s)
