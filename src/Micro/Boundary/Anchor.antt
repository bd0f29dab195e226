-- ===== src/Micro/Boundary/Anchor.antt =====
-- `_red_anchor_kind` and the remapping of a stored RED commit after the branch was rewritten.
use deviatdd.Prelude.{Bool, true, false, not, ◌&&◌, ◌||◌, List, [], ◌∷◌, if◌then◌else◌}
use deviatdd.Prelude.Text.{Text, strip, text_eq, is_empty}
use deviatdd.Micro.Session.{Session}
use deviatdd.Micro.Boundary.Git.{
  Git, head, git_commit_subject, git_parent_sha, git_full_sha, is_ancestor, is_red_subject,
  resolve_judge_diff_base,
}

pub data Anchor : Type 0 where
  current rewritten already_reverted missing : Anchor

abbrev pub or_else : Text → Text → Text
or_else [] other = other
or_else (c ∷ s) other = c ∷ s

-- The first commit of a log whose subject passes a test, or the empty text.
unfoldable pub first_commit : (Text → Bool) → List (Text × Text) → Text
first_commit p [] = []
first_commit p ((sha, subject) ∷ rows) =
    let later = first_commit p rows in if p subject then sha else later

module _ (git : Git) where
  unfoldable pub resolve_rewritten_sha : Text → Text
  unfolding git_full_sha git_commit_subject is_ancestor first_commit
  resolve_rewritten_sha stored_sha =
      let full = or_else (git_full_sha git (strip stored_sha)) (strip stored_sha) in
      if is_empty (strip stored_sha)
      then []
      else if is_ancestor git full head
      then or_else (git_full_sha git full) full
      else if not (is_empty (git_commit_subject git full))
      then first_commit (λ subject. text_eq subject (git_commit_subject git full)) git.train
      else first_commit is_red_subject git.train

  abbrev pub is_rewritten : Text → Text → Bool
  is_rewritten full new_sha =
      not (is_empty new_sha)
      && ((is_empty full || not (text_eq new_sha full)) && is_ancestor git new_sha head)

  unfoldable pub red_anchor_kind : Text → Anchor
  unfolding git_full_sha git_parent_sha is_ancestor resolve_rewritten_sha
  red_anchor_kind stored_sha =
      let full = git_full_sha git (strip stored_sha) in
      let parent = if is_empty full then [] else git_parent_sha git full in
      if is_empty (strip stored_sha)
      then missing
      else if not (is_empty full) && is_ancestor git full head
      then current
      else if is_rewritten full (resolve_rewritten_sha (strip stored_sha))
      then rewritten
      else if not (is_empty full) && is_ancestor git head full
      then already_reverted
      else if not (is_empty parent) && is_ancestor git parent head
      then already_reverted
      else if is_empty full
      then already_reverted
      else missing

  abbrev differs : Text → Text → Bool
  differs resolved old = not (is_empty resolved) && not (text_eq resolved old)

  abbrev move_red : Text → Text → Session → Session
  move_red resolved old s = record s {
    red_commit_sha = resolved;
    judge_red_commit_sha =
        if text_eq (strip s.judge_red_commit_sha) old then resolved else s.judge_red_commit_sha;
  }

  unfoldable pub refresh_red : Session → Bool × Session
  unfolding resolve_rewritten_sha
  refresh_red s =
      let old = strip s.red_commit_sha in
      let resolved = resolve_rewritten_sha old in
      if not (is_empty old) && differs resolved old
      then (true, move_red resolved old s)
      else (false, s)

  unfoldable pub refresh_judge : Bool × Session → Bool × Session
  unfolding resolve_rewritten_sha
  refresh_judge (changed, s) =
      let judge = strip s.judge_red_commit_sha in
      let resolved = resolve_rewritten_sha judge in
      if not (is_empty judge)
        && not (text_eq judge (strip s.red_commit_sha))
        && differs resolved judge
      then (true, record s { judge_red_commit_sha = resolved })
      else (changed, s)

  -- `_refresh_session_commit_anchors`: what it returns, and the session after it.
  unfoldable pub refresh_session_commit_anchors : Session → Bool × Session
  unfolding refresh_red refresh_judge
  refresh_session_commit_anchors s = refresh_judge (refresh_red s)

  unfoldable pub resolve_pre_red_sha : Text → Text
  unfolding resolve_judge_diff_base git_parent_sha
  resolve_pre_red_sha red_sha =
      if is_empty (strip red_sha)
      then []
      else git_parent_sha git (resolve_judge_diff_base git (strip red_sha))
