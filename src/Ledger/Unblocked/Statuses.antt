-- ===== src/Ledger/Unblocked/Statuses.antt =====
-- The status map holds, for each issue, the status of the last row that gives one.
use deviatdd.Prelude.{
  String, ◌≡◌, refl, ap, ◌∙◌, Option, none, some, List, [], ◌∷◌, arith, str_eq, eq_iff,
  if◌then◌else◌,
}
use deviatdd.Ledger.Rows.{Row}
use deviatdd.Ledger.Unblocked.{put, find, status_entry, put_entry, status_map_from, status_map}

abbrev later : Option String → Option String → Option String
later s none = s
later s (some t) = some t

abbrev status_at : String → Option (String × String) → Option String
status_at issue_id none = none
status_at issue_id (some (k, s)) = if str_eq k issue_id then some s else none

-- The status of the last row that gives one for the issue.
abbrev pub latest_status : String → List Row → Option String
latest_status issue_id [] = none
latest_status issue_id (row ∷ rows) =
    later (status_at issue_id (status_entry row)) (latest_status issue_id rows)

pub find-put {ℓ} :
    {V : Type ℓ} (k j : String) (v : V) (m : List (String × V))
    → find j (put k v m) ≡ (if str_eq k j then some v else find j m)
unfolding find put
find-put k j v [] = refl
find-put k j v ((i, w) ∷ m) = ground (arith, eq_iff k j, eq_iff i k, eq_iff i j, find-put k j v m)

later_assoc : (a b c : Option String) → later (later a b) c ≡ later a (later b c)
later_assoc a b none = refl
later_assoc a b (some c) = refl

find-put_entry :
    (j : String) (e : Option (String × String)) (m : List (String × String))
    → find j (put_entry e m) ≡ later (find j m) (status_at j e)
find-put_entry j none m = refl
find-put_entry j (some (k, v)) m = rw find-put (ground arith)

find-status_map_from :
    (j : String) (m : List (String × String)) (rows : List Row)
    → find j (status_map_from m rows) ≡ later (find j m) (latest_status j rows)
unfolding status_map_from
find-status_map_from j m [] = refl
find-status_map_from j m (row ∷ rows) =
    find-status_map_from j (put_entry (status_entry row) m) rows
    ∙ ap (λ (o : Option String). later o (latest_status j rows))
        (find-put_entry j (status_entry row) m)
    ∙ later_assoc (find j m) (status_at j (status_entry row)) (latest_status j rows)

none-later : (a : Option String) → later none a ≡ a
none-later none = refl
none-later (some a) = refl

pub find-status_map :
    (j : String) (rows : List Row) → find j (status_map rows) ≡ latest_status j rows
unfolding status_map
find-status_map j rows =
    find-status_map_from j [] rows ∙ (unfold find in none-later (latest_status j rows))
