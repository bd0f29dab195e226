-- ===== src/Ledger/Filter.antt =====
-- `filter_tasks` of state/ledger.py, up to the validation of the rows that it selects.
pub mod Selected
use deviatdd.Prelude.{
  ℕ, String, Bool, true, false, ◌&&◌, ◌||◌, Option, none, some, List, [], ◌∷◌, any, select, take,
  drop, str_eq, ltb, ◌==◌, if◌then◌else◌,
}
use deviatdd.Prelude.Text.{Text, codes}
use deviatdd.Ledger.Rows.{Row, Json, str, get, json_eq}
use deviatdd.Ledger.Unblocked.{nonempty}

pub data SortKey : Type 0 where
  by_created_at by_timestamp by_status : SortKey

-- The empty status filter stands for None.
pub record LedgerFilter : Type 0 where
  pub status_filter : String
  pub limit : ℕ
  pub offset : ℕ
  pub sort_by : SortKey
  pub sort_desc : Bool

abbrev seen_before : Option String → List String → Bool
seen_before none seen = false
seen_before (some task_id) seen = any (str_eq task_id) seen

abbrev add_seen : Option String → List String → List String
add_seen none seen = seen
add_seen (some task_id) seen = task_id ∷ seen

-- The first row of each task id stays, and each row without one.
unfoldable pub deduped_from : List String → List Row → List Row
deduped_from seen [] = []
deduped_from seen (rec ∷ recs) =
    let rest = deduped_from seen recs in
    let kept = rec ∷ deduped_from (add_seen (nonempty (get "id" rec)) seen) recs in
    if seen_before (nonempty (get "id" rec)) seen then rest else kept

abbrev pub has_status : String → Row → Bool
has_status status rec = json_eq (get "status" rec) (str status)

abbrev pub with_status : String → List Row → List Row
with_status status rows = if str_eq status "" then rows else select (has_status status) rows

abbrev field_name : SortKey → String
field_name by_created_at = "created_at"
field_name by_timestamp = "timestamp"
field_name by_status = "status"

abbrev text_or_empty : Json → Text
text_or_empty (str s) = codes s
text_or_empty _ = []

-- `<=` on texts
unfoldable pub text_leb : Text → Text → Bool
text_leb [] t = true
text_leb (c ∷ s) [] = false
text_leb (c ∷ s) (d ∷ t) = ltb c d || (c == d && text_leb s t)

abbrev sort_text : SortKey → Row → Text
sort_text key rec = text_or_empty (get (field_name key) rec)

-- Whether the first row, which stood before, stays before the second.
abbrev stays : LedgerFilter → Row → Row → Bool
stays f r s =
    if f.sort_desc
    then text_leb (sort_text f.sort_by s) (sort_text f.sort_by r)
    else text_leb (sort_text f.sort_by r) (sort_text f.sort_by s)

unfoldable pub insert_row : LedgerFilter → Row → List Row → List Row
unfolding text_leb
insert_row f r [] = r ∷ []
insert_row f r (s ∷ rows) =
    let rest = insert_row f r rows in if stays f r s then r ∷ s ∷ rows else s ∷ rest

unfoldable pub sort_rows : LedgerFilter → List Row → List Row
unfolding insert_row
sort_rows f [] = []
sort_rows f (r ∷ rows) = insert_row f r (sort_rows f rows)

unfoldable pub filter_rows : LedgerFilter → List Row → List Row
unfolding deduped_from sort_rows
filter_rows f records =
    take f.limit
      (drop f.offset (sort_rows f (with_status f.status_filter (deduped_from [] records))))
