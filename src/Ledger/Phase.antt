-- ===== src/Ledger/Phase.antt =====
-- `_phase_already_done` of cli/micro/surface.py: which of a task's rows count for a resumed run.
use deviatdd.Prelude.{
  ℕ, suc, ◌+◌, String, ◌≡◌, refl, Bool, true, false, not, ◌&&◌, ◌||◌, List, [], ◌∷◌, arith, any,
  drop, if◌then◌else◌,
}
use deviatdd.Ledger.Rows.{Row, get, json_eq, str}

-- `rec.get("id") == task_id and rec.get("status") == status`
unfoldable pub is_at : String → String → Row → Bool
is_at task_id status rec =
    json_eq (get "id" rec) (str task_id) && json_eq (get "status" rec) (str status)

-- `last_pending_idx + 1` after the first loop; `i` is the index that `enumerate` gives next.
unfoldable pub after_last_pending : String → ℕ → ℕ → List Row → ℕ
unfolding is_at
after_last_pending task_id start i [] = start
after_last_pending task_id start i (rec ∷ recs) =
    after_last_pending task_id (if is_at task_id "PENDING" rec then i + 1 else start) (i + 1) recs

unfoldable pub phase_already_done : List Row → String → String → Bool
unfolding after_last_pending
phase_already_done records task_id phase =
    any (is_at task_id phase) (drop (after_last_pending task_id 0 0 records) records)

-- The independent reading, from the end of the file: some row records the phase, and neither that
-- row nor a later one puts the task back to PENDING.
abbrev pub done_since_pending : String → String → List Row → Bool
done_since_pending task_id phase [] = false
done_since_pending task_id phase (rec ∷ recs) =
    (is_at task_id phase rec && not (any (is_at task_id "PENDING") (rec ∷ recs)))
    || done_since_pending task_id phase recs

module _ (task_id phase : String) where
  -- Without a PENDING row the index stays, and with one it lies beyond all the rows seen before.
  no_pending :
      (start i : ℕ) (recs : List Row)
      → any (is_at task_id "PENDING") recs ≡ false
      → after_last_pending task_id start i recs ≡ start
  unfolding after_last_pending
  no_pending start i [] h = refl
  no_pending start i (rec ∷ recs) h = ground (arith, no_pending start (i + 1) recs)

  pending_start :
      (start start' i : ℕ) (recs : List Row)
      → any (is_at task_id "PENDING") recs ≡ true
      → after_last_pending task_id start i recs ≡ after_last_pending task_id start' i recs
  unfolding after_last_pending
  pending_start start start' i [] h = cc
  pending_start start start' i (rec ∷ recs) h =
      ground (arith, pending_start start start' (i + 1) recs)

  shift :
      (start i : ℕ) (recs : List Row)
      → after_last_pending task_id (suc start) (suc i) recs
        ≡ suc (after_last_pending task_id start i recs)
  unfolding after_last_pending
  shift start i [] = refl
  shift start i (rec ∷ recs) = ground (arith, shift start (i + 1) recs, shift (i + 1) (i + 1) recs)

  not_pending :
      (recs : List Row)
      → any (is_at task_id "PENDING") recs ≡ false
      → done_since_pending task_id phase recs ≡ any (is_at task_id phase) recs
  not_pending [] h = refl
  not_pending (rec ∷ recs) h = ground (arith, not_pending recs)

  done_step :
      (rec : Row) (recs : List Row)
      → phase_already_done recs task_id phase ≡ done_since_pending task_id phase recs
      → phase_already_done (rec ∷ recs) task_id phase
        ≡ done_since_pending task_id phase (rec ∷ recs)
  unfolding phase_already_done after_last_pending
  done_step rec recs ih = ground (
    arith,
    no_pending (if is_at task_id "PENDING" rec then 1 else 0) 1 recs,
    pending_start (if is_at task_id "PENDING" rec then 1 else 0) 1 1 recs,
    shift 0 0 recs,
    not_pending recs,
  )

-- `_phase_already_done` is true exactly if some row records the phase for the task and neither that
-- row nor a later one puts the task back to PENDING.
pub phase_already_done_lem :
    (records : List Row) (task_id phase : String)
    → phase_already_done records task_id phase ≡ done_since_pending task_id phase records
phase_already_done_lem [] task_id phase = unfold phase_already_done after_last_pending in refl
phase_already_done_lem (rec ∷ recs) task_id phase =
    done_step task_id phase rec recs (phase_already_done_lem recs task_id phase)
