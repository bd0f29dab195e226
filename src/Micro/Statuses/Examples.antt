-- ===== src/Micro/Statuses/Examples.antt =====
-- Two issues that use the same task id.
use deviatdd.Prelude.{String, some, List, [], ◌∷◌, ◌≡◌, refl}
use deviatdd.Ledger.Rows.{Row, str, get, json_eq, lookup}
use deviatdd.Ledger.Unblocked.{find}
use deviatdd.Micro.Statuses.{latest_task_statuses}
use deviatdd.Micro.Statuses.Latest.{last_with}
use deviatdd.Micro.Statuses.Reading.{status_of, latest_task_statuses_lem}

abbrev task_row : String → String → Row
task_row issue status =
    ("id", str "TSK-001-01") ∷ ("issue_id", str issue) ∷ ("status", str status) ∷ []

abbrev rows : List Row
rows =
    task_row "ISS-001" "PENDING" ∷ task_row "ISS-001" "GREEN" ∷ task_row "ISS-002" "COMPLETED" ∷ []

latest_task_statuses_lem_example :
    find "TSK-001-01" (latest_task_statuses (some "ISS-001") rows)
    ≡ status_of (last_with (str "ISS-001", "TSK-001-01") rows)
latest_task_statuses_lem_example = latest_task_statuses_lem "ISS-001" refl "TSK-001-01" rows

test_statuses : find "TSK-001-01" (latest_task_statuses (some "ISS-001") rows) ≡ some "GREEN"
unfolding latest_task_statuses find get json_eq lookup
test_statuses = refl
