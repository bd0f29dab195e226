-- ===== src/Micro/Boundary/Fixtures.antt =====
-- A branch with a RED commit of a task and the feedback of JUDGE on it.
use deviatdd.Prelude.{true, ◌||◌, Option, none, some, [], ◌∷◌, if◌then◌else◌}
use deviatdd.Prelude.Text.{Text, codes, strip, is_empty, text_eq}
use deviatdd.Micro.Boundary.Git.{Git}

abbrev pub subject_of : Text → Option Text
subject_of sha =
    if text_eq sha (codes "c")
    then some (codes "docs(TSK-001-01): add judge feedback for retry")
    else if text_eq sha (codes "b")
    then some (codes "test(TSK-001-01): RED phase")
    else if text_eq sha (codes "a")
    then some (codes "chore: seed")
    else none

-- A commit has more names than its id.
abbrev pub parent_of : Text → Option Text
parent_of sha =
    if text_eq sha (codes "c") || text_eq sha (codes "HEAD")
    then some (codes "b")
    else if text_eq sha (codes "b")
    then some (codes "a")
    else none

abbrev pub sample : Git
sample = record {
  rev_parse = λ rev. if is_empty (strip rev) then none else some (codes "c");
  first_parent = parent_of;
  log_subject = subject_of;
  merge_base = λ sha descendant. true;
  train =
      (codes "c", codes "docs(TSK-001-01): add judge feedback for retry")
      ∷ (codes "b", codes "test(TSK-001-01): RED phase")
      ∷ (codes "a", codes "chore: seed")
      ∷ [];
  tasks_commit = none;
  store = codes "c" ∷ codes "b" ∷ codes "a" ∷ [];
}
