-- ===== src/Micro/Queue/Trace.antt =====
-- What `_run_all` of cli/micro/surface.py dispatches, and when it stops.
use deviatdd.Prelude.{
  String, Bool, true, false, not, ◌&&◌, ◌||◌, Option, List, [], ◌∷◌, any, all, All, str_eq, ◌≡◌,
  ◌⊎◌, refl, arith, &&-intro, Bool-cases, inl, inr,
}
use deviatdd.Micro.Phases.{Phases}
use deviatdd.Micro.Action.{State, Result, ok, raise, Action}
use deviatdd.Micro.Queue.{
  Queued, Entry, Outcome, is_completed, incomplete, unmet_prerequisite_ids, if_ready, settle,
  exit_code, execute_task_with_retry, run_queue, run_all,
}

-- All prerequisites are COMPLETED, or the task is a FAILED one, which is resumed without them.
abbrev pub ready : Queued → (String → Option String) → Bool
ready q latest = str_eq q.status "FAILED" || all (λ dep. is_completed (latest dep)) q.depends_on

incomplete-none :
    (latest : String → Option String) (deps : List String)
    → incomplete latest deps ≡ []
    → all (λ dep. is_completed (latest dep)) deps ≡ true
unfolding incomplete
incomplete-none latest [] h = refl
incomplete-none latest (dep ∷ deps) h = elim (Bool-cases (is_completed (latest dep))) [
  | inl c ↦ &&-intro c (incomplete-none latest deps (ground arith))
  | inr c ↦ ground arith
]

unmet-ready :
    (q : Queued) (latest : String → Option String)
    → unmet_prerequisite_ids q latest ≡ []
    → ready q latest ≡ true
unfolding unmet_prerequisite_ids
unmet-ready q latest h = elim (Bool-cases (str_eq q.status "FAILED")) [
  | inl f ↦ rw f refl
  | inr f ↦ rw f (incomplete-none latest q.depends_on (ground arith))
]

-- Only the last dispatch may have failed.
abbrev pub halts : {W : Type 0} → List (Entry W) → Bool
halts [] = true
halts (e ∷ []) = true
halts (e ∷ f ∷ es) = e.succeeded && halts (f ∷ es)

abbrev pub some_failed : {W : Type 0} → List (Entry W) → Bool
some_failed es = any (λ e. not e.succeeded) es

abbrev pub Reported : {W : Type 0} → Result Bool → List (Entry W) → Type 0
Reported (raise e) es = Unit {0}
Reported (ok failed) es = failed ≡ some_failed es

module _ {W : Type 0} (latest : State W → String → Option String) where
  abbrev pub AllReady : List (Entry W) → Type 0
  AllReady es = All (λ e. ready e.queued (latest e.before) ≡ true) es

  abbrev Sound : Outcome W → Type 0
  Sound o = AllReady o.trace × (halts o.trace ≡ true) × Reported o.result o.trace

  halts-success :
      (e : Entry W) (es : List (Entry W))
      → e.succeeded ≡ true
      → halts es ≡ true
      → halts (e ∷ es) ≡ true
  halts-success e [] h k = refl
  halts-success e (f ∷ es) h k = &&-intro h k

  Reported-success :
      (r : Result Bool) (e : Entry W) (es : List (Entry W))
      → e.succeeded ≡ true
      → Reported r es
      → Reported r (e ∷ es)
  Reported-success (raise x) e es h k = tt
  Reported-success (ok failed) e es h k = rw h k

  abbrev success : Queued → State W → Entry W
  success q s = record { queued = q; before = s; succeeded = true }

  settle-Sound :
      (q : Queued) (s : State W) (next : State W → Outcome W) (r : Result Bool × State W)
      → ready q (latest s) ≡ true
      → ((t : State W) → Sound (next t))
      → Sound (settle q s next r)
  settle-Sound q s next (raise e, t) h k = ((h, tt), refl, tt)
  settle-Sound q s next (ok false, t) h k = ((h, tt), refl, refl)
  settle-Sound q s next (ok true, t) h k =
      let e = success q s in
      let (all_ready, halted, reported) = k t in
      (
        (h, all_ready),
        halts-success e (next t).trace refl halted,
        Reported-success (next t).result e (next t).trace refl reported,
      )

  if_ready-Sound :
      (q : Queued) (s : State W) (unmet : List String) (run skip : Outcome W)
      → unmet_prerequisite_ids q (latest s) ≡ unmet
      → (ready q (latest s) ≡ true → Sound run)
      → Sound skip
      → Sound (if_ready unmet run skip)
  if_ready-Sound q s [] run skip e hr hs = hr (unmet-ready q (latest s) e)
  if_ready-Sound q s (dep ∷ deps) run skip e hr hs = hs

  module _ (phases : Phases W) (prepare : Queued → Action W String)
      (dispatch : Queued → String → Action W (Unit {0})) where
    run_queue-Sound :
        (qs : List Queued) (s : State W) → Sound (run_queue phases prepare dispatch latest qs s)
    unfolding run_queue
    run_queue-Sound [] s = (tt, refl, refl)
    run_queue-Sound (q ∷ qs) s =
        if_ready-Sound q s (unmet_prerequisite_ids q (latest s)) _ _ refl
          (λ h.
            settle-Sound q s _ (execute_task_with_retry phases prepare dispatch q s) h
              λ t. run_queue-Sound qs t)
          (run_queue-Sound qs s)

    -- Every task that the queue dispatches is ready in the state in which it is dispatched; after a
    -- dispatch that failed there is no other; and if the run exits with a code, it is 0 exactly if no
    -- dispatch failed and there was one, or the queue was empty.
    pub run_all_lem :
        (qs : List Queued) (s : State W)
        → let (result, o) = run_all phases prepare dispatch latest qs s in
          AllReady o.trace
          × (halts o.trace ≡ true)
          × ((result ≡ exit_code o) ⊎ ((qs ≡ []) × (result ≡ ok 0)))
          × Reported o.result o.trace
    unfolding run_all
    run_all_lem [] s = (tt, refl, inr (refl, refl), refl)
    run_all_lem (q ∷ qs) s =
        let (all_ready, halted, reported) = run_queue-Sound (q ∷ qs) s in
        (all_ready, halted, inl refl, reported)
