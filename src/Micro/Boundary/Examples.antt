-- ===== src/Micro/Boundary/Examples.antt =====
-- Runs of the search for the boundary.
use deviatdd.Prelude.{
  Bool, true, false, not, ◌&&◌, Option, none, some, List, [], ◌∷◌, String, ◌≡◌, refl, sym, ◌∙◌, ap,
  arith, if◌then◌else◌,
}
use deviatdd.Prelude.Text.{Text, codes, strip, is_empty, text_eq, contains, strip-strip}
use deviatdd.Prelude.Regex.{matches}
use deviatdd.Ledger.Rows.{Row, str}
use deviatdd.Micro.Session.{Session}
use deviatdd.Micro.Fixtures.{blank}
use deviatdd.Micro.Boundary.Fixtures.{sample}
use deviatdd.Micro.Boundary.Git.{
  git_capture, head, git_full_sha, git_parent_sha, is_ancestor, feedback_sha_rests_on_red_phase,
  is_red_subject, is_green_subject, is_feedback_subject, is_walkable_docs_subject,
}
use deviatdd.Micro.Boundary.Bind.{bind_session_red_boundary, is_foreign_on_branch_boundary}
use deviatdd.Micro.Boundary.Revert.{
  reset_to, resolve_revert_red_boundary, require_revert_green_boundary,
}
use deviatdd.Micro.Boundary.Safe.{
  GitLaws, resolve_revert_red_boundary-OnBranch, require_revert_green_boundary-OnBranch,
}
use deviatdd.Micro.Boundary.Own.{bind_session_red_boundary-IsOwn}

-- Every text that is not blank names a commit of this branch.
on_branch : (sha : Text) → is_empty (strip sha) ≡ false → is_ancestor sample sha head ≡ true
unfolding is_ancestor
on_branch sha h = rw h refl

captured_on_branch :
    (out : Option Text)
    → is_empty (git_capture out) ≡ false
    → is_ancestor sample (git_capture out) head ≡ true
captured_on_branch none h = cc
captured_on_branch (some text) h = on_branch (strip text) (ap is_empty (strip-strip text) ∙ h)

same_commit :
    (sha : Text)
    → is_empty (git_full_sha sample sha) ≡ false
    → is_ancestor sample (git_full_sha sample sha) head ≡ is_ancestor sample sha head
unfolding git_full_sha
same_commit sha h =
    captured_on_branch (sample.rev_parse sha) h
    ∙ sym (on_branch sha (named (is_empty (strip sha)) h))
  where
    named :
        (blank_name : Bool)
        → is_empty (git_capture (if blank_name then none else some (codes "c"))) ≡ false
        → blank_name ≡ false
    named true h = cc
    named false h = refl

sample_laws : GitLaws sample
sample_laws = record {
  same_commit = same_commit;
  head_on_branch = unfold git_full_sha in captured_on_branch (sample.rev_parse head);
  train_on_branch =
      unfold is_ancestor strip deviatdd.Prelude.Text.lstrip deviatdd.Prelude.Text.rstrip in
      (refl, (refl, (refl, tt)));
  parent_on_branch =
      λ sha on. unfold git_parent_sha in captured_on_branch (sample.first_parent sha);
}

rests : feedback_sha_rests_on_red_phase sample (codes "c") ≡ true
unfolding feedback_sha_rests_on_red_phase strip is_red_subject matches text_eq is_green_subject
rests = refl

-- The rows of the task's ledger, and a session at the feedback commit.
abbrev ledger_rows : List Row
ledger_rows = (("id", str "TSK-001-01") ∷ ("status", str "RED") ∷ []) ∷ []

abbrev at_feedback : Session
at_feedback = record blank { red_commit_sha = codes "c" }

bind_session_red_boundary-IsOwn_example :
    let (sha, after) = bind_session_red_boundary sample ledger_rows "TSK-001-02" at_feedback in
    (sha ≡ strip after.red_commit_sha)
    × (is_foreign_on_branch_boundary sample after.red_commit_sha "TSK-001-02" ≡ false)
bind_session_red_boundary-IsOwn_example =
    bind_session_red_boundary-IsOwn sample ledger_rows "TSK-001-02" at_feedback

revert_red_target :
    (resolve_revert_red_boundary sample ledger_rows "TSK-001-01" at_feedback).0 ≡ codes "a"
unfolding resolve_revert_red_boundary strip text_eq contains is_feedback_subject matches
    is_green_subject is_walkable_docs_subject
revert_red_target = refl

resolve_revert_red_boundary-OnBranch_example :
    is_ancestor sample
      (resolve_revert_red_boundary sample ledger_rows "TSK-001-01" at_feedback).0
      head
    ≡ true
resolve_revert_red_boundary-OnBranch_example =
    resolve_revert_red_boundary-OnBranch sample sample_laws ledger_rows "TSK-001-01" at_feedback
      (ap is_empty revert_red_target)

abbrev after_green : Session
after_green = (require_revert_green_boundary sample ledger_rows "TSK-001-01" at_feedback).1

revert_green_target :
    require_revert_green_boundary sample ledger_rows "TSK-001-01" at_feedback
    ≡ (reset_to (codes "c"), after_green)
unfolding require_revert_green_boundary strip text_eq contains is_feedback_subject matches
    is_green_subject is_walkable_docs_subject
revert_green_target = refl

require_revert_green_boundary-OnBranch_example : is_ancestor sample (codes "c") head ≡ true
require_revert_green_boundary-OnBranch_example =
    require_revert_green_boundary-OnBranch sample sample_laws ledger_rows "TSK-001-01" (codes "c")
      at_feedback after_green revert_green_target
