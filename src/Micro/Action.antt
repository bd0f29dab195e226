-- ===== src/Micro/Action.antt =====
-- The state that the runner threads through its phases, and actions that change it and may raise.
use deviatdd.Prelude.{List, [], ◌∷◌, ◌++◌}
use deviatdd.Ledger.Rows.{Line}
use deviatdd.Micro.Session.{Session, Phase}

-- `events` are the `phase_change` events pushed to the monitor, the last one last. `session` is the
-- object and session.json at once: every change is saved before the next phase. `world` is the rest:
-- the repository, the work tree, the agents.
pub record State (W : Type 0) : Type 0 where
  pub session : Session
  pub ledger : List Line
  pub events : List Phase
  pub world : W

-- PhaseFailedError with and without its `train_exhausted` flag, and the other exceptions of a phase.
pub data Failure : Type 0 where
  train_exhausted phase_failed hitl_escalation env_not_ready typer_exit other_error : Failure

pub data Result (A : Type 0) : Type 0 where
  ok : A → Result A
  raise : Failure → Result A

abbrev pub Action : Type 0 → Type 0 → Type 0
Action W A = State W → Result A × State W

module _ {W A : Type 0} where
  abbrev pub pure : A → Action W A
  pure a s = (ok a, s)

  abbrev pub throw : Failure → Action W A
  throw e s = (raise e, s)

module _ {W : Type 0} where
  abbrev pub session_of : Action W Session
  session_of s = (ok s.session, s)

  abbrev pub update : (Session → Session) → Action W (Unit {0})
  update f s = (ok tt, record s { session = f s.session })

  -- `_maybe_push_event(monitor, "phase_change", phase=...)`
  abbrev pub push_event : Phase → Action W (Unit {0})
  push_event p s = (ok tt, record s { events = s.events ++ p ∷ [] })

module _ {W A B : Type 0} where
  abbrev pub continue : Result A × State W → (A → Action W B) → Result B × State W
  continue (ok a, s) f = f a s
  continue (raise e, s) f = (raise e, s)

  infixl 5 ◌>>=◌ ◌>>◌
  abbrev pub ◌>>=◌ : Action W A → (A → Action W B) → Action W B
  m >>= f = λ s. continue (m s) f

  abbrev pub ◌>>◌ : Action W A → Action W B → Action W B
  m >> k = m >>= λ _. k
