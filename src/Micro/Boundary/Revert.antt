-- ===== src/Micro/Boundary/Revert.antt =====
-- The commits that `revert_red` and `revert_green` reset to, and what GREEN asks of the boundary.
use deviatdd.Prelude.{
  String, Bool, true, false, not, ◌&&◌, ◌||◌, Option, none, some, List, [], str_eq, if◌then◌else◌,
}
use deviatdd.Prelude.Text.{Text, strip, is_empty}
use deviatdd.Ledger.Rows.{Row}
use deviatdd.Micro.Session.{Session}
use deviatdd.Micro.Boundary.Git.{
  Git, git_capture, head, git_full_sha, is_ancestor, is_red_phase_failing_test_sha,
}
use deviatdd.Micro.Boundary.Anchor.{
  Anchor, current, rewritten, already_reverted, missing, or_else, red_anchor_kind,
  refresh_session_commit_anchors, resolve_pre_red_sha,
}
use deviatdd.Micro.Boundary.Bind.{recover_red_commit_boundary, bind_session_red_boundary}

-- The exceptions of `_require_revert_green_boundary` and of `_require_green_entry_red_sha`.
pub data Refusal : Type 0 where
  boundary_missing stale_red_sha boundary_unusable green_entry_refused : Refusal

pub data Answer : Type 0 where
  reset_to : Text → Answer
  refuse : Refusal → Answer

module _ (git : Git) (ledgers : List Row) where
  abbrev pub pre_red_or_head : Text → Text
  pre_red_or_head pre_red =
      if not (is_empty pre_red) && is_ancestor git pre_red head
      then pre_red
      else git_full_sha git head

  abbrev pub pre_red_after_rewrite : Session → Text × Session
  pre_red_after_rewrite s = (resolve_pre_red_sha git (strip s.red_commit_sha), s)

  unfoldable pub revert_red_to : Anchor → Session → Text × Session
  unfolding resolve_pre_red_sha refresh_session_commit_anchors is_ancestor git_full_sha
  revert_red_to rewritten s = pre_red_after_rewrite (refresh_session_commit_anchors git s).1
  revert_red_to already_reverted s = (git_full_sha git head, s)
  revert_red_to current s = (resolve_pre_red_sha git (strip s.red_commit_sha), s)
  revert_red_to missing s =
      if is_empty (strip s.red_commit_sha)
      then ([], s)
      else (pre_red_or_head (resolve_pre_red_sha git (strip s.red_commit_sha)), s)

  -- The stored commit is classified after the boundary is bound to the task.
  unfoldable pub resolve_revert_red_boundary : String → Session → Text × Session
  unfolding bind_session_red_boundary red_anchor_kind revert_red_to
  resolve_revert_red_boundary task_id s =
      let bound =
        if str_eq task_id "" then s else (bind_session_red_boundary git ledgers task_id s).1 in
      revert_red_to (red_anchor_kind git (strip bound.red_commit_sha)) bound

  -- `_resolve_tasks_md_boundary`
  abbrev pub tasks_md_boundary : Text
  tasks_md_boundary = git_capture git.tasks_commit

  abbrev pub tasks_safe : Bool
  tasks_safe = is_empty tasks_md_boundary || is_ancestor git tasks_md_boundary head

  abbrev on_tasks_md : Answer
  on_tasks_md =
      if not (is_empty tasks_md_boundary) && is_ancestor git tasks_md_boundary head
      then reset_to tasks_md_boundary
      else refuse stale_red_sha

  abbrev is_current : Anchor → Bool
  is_current current = true
  is_current _ = false

  abbrev is_reverted : Anchor → Bool
  is_reverted already_reverted = true
  is_reverted _ = false

  -- `sha` and its class after the remapping.
  unfoldable pub green_anchor : Anchor → Text → Answer
  unfolding is_ancestor git_full_sha
  green_anchor kind sha =
      if is_current kind && is_ancestor git sha head
      then reset_to (or_else (git_full_sha git sha) sha)
      else if is_reverted kind
          && (not (is_empty (git_full_sha git sha))
              && (tasks_safe && not (is_empty (git_full_sha git head))))
      then reset_to (git_full_sha git head)
      else on_tasks_md

  abbrev classified : Session → Answer × Session
  classified s = let sha = strip s.red_commit_sha in (green_anchor (red_anchor_kind git sha) sha, s)

  unfoldable pub revert_green_to : Anchor → Session → Answer × Session
  unfolding green_anchor red_anchor_kind refresh_session_commit_anchors
  revert_green_to rewritten s = classified (refresh_session_commit_anchors git s).1
  revert_green_to kind s = (green_anchor kind (strip s.red_commit_sha), s)

  -- `_require_revert_green_boundary`
  unfoldable pub require_revert_green_boundary : String → Session → Answer × Session
  unfolding bind_session_red_boundary red_anchor_kind revert_green_to
  require_revert_green_boundary task_id s =
      let bound = (bind_session_red_boundary git ledgers task_id s).1 in
      if is_empty (strip bound.red_commit_sha)
      then (refuse boundary_missing, bound)
      else revert_green_to (red_anchor_kind git (strip bound.red_commit_sha)) bound

  -- `_require_green_entry_red_sha`: none is the return.
  unfoldable pub require_green_entry_red_sha : Session → Option Refusal
  unfolding is_red_phase_failing_test_sha
  require_green_entry_red_sha s =
      if is_red_phase_failing_test_sha git s.red_commit_sha
      then none
      else if is_empty (strip s.red_commit_sha)
      then some green_entry_refused
      else some boundary_unusable

  -- `_ensure_green_entry_red_sha`
  unfoldable pub ensure_green_entry_red_sha : String → Session → Option Refusal × Session
  unfolding is_red_phase_failing_test_sha recover_red_commit_boundary require_green_entry_red_sha
  ensure_green_entry_red_sha task_id s =
      let entered =
        if is_red_phase_failing_test_sha git s.red_commit_sha
        then s
        else (recover_red_commit_boundary git ledgers task_id s).1 in
      (require_green_entry_red_sha entered, entered)
