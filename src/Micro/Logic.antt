-- ===== src/Micro/Logic.antt =====
-- What an action leaves behind when it does not raise: a small logic of postconditions, and the
-- actions that keep the two retry counters.
use deviatdd.Prelude.{ℕ, Bool, true, false, ◌≡◌, refl, sym, subst, ◌∙◌, if◌then◌else◌}
use deviatdd.Micro.Session.{Session, Phase}
use deviatdd.Micro.Action.{
  State, Failure, Result, ok, raise, Action, pure, throw, session_of, update, push_event, continue,
  ◌>>=◌,
}

-- If the action returns, its answer and its state satisfy `Q`.
unfoldable pub Ends : {W A : Type 0} → (A → State W → Type 0) → Result A × State W → Type 0
Ends Q (ok a, s) = Q a s
Ends Q (raise e, s) = Unit {0}

module _ {W A B : Type 0} where
  pub Ends-continue :
      (P : A → State W → Type 0) (Q : B → State W → Type 0) (r : Result A × State W)
      (f : A → Action W B)
      → Ends P r
      → ((a : A) (s : State W) → P a s → Ends Q (f a s))
      → Ends Q (continue r f)
  unfolding Ends
  Ends-continue P Q (ok a, s) f h k = k a s h
  Ends-continue P Q (raise e, s) f h k = tt

module _ {W A : Type 0} where
  pub Ends-weaken :
      (P Q : A → State W → Type 0) (r : Result A × State W)
      → Ends P r
      → ((a : A) (s : State W) → P a s → Q a s)
      → Ends Q r
  unfolding Ends
  Ends-weaken P Q (ok a, s) h k = k a s h
  Ends-weaken P Q (raise e, s) h k = tt

abbrev pub SameCounts : {W : Type 0} → State W → State W → Type 0
SameCounts s t =
    (t.session.green_attempts ≡ s.session.green_attempts)
    × (t.session.red_attempts ≡ s.session.red_attempts)

-- The action changes neither counter, unless it raises.
unfoldable pub KeepsCounts : {W A : Type 0} → Action W A → Type 0
KeepsCounts {W} m = (s : State W) → Ends (λ _ t. SameCounts s t) (m s)

-- A statement about the two counters after an action that returns.
unfoldable pub Counted : {W A : Type 0} → (ℕ → ℕ → Type 0) → Result A × State W → Type 0
unfolding Ends
Counted Q r = Ends (λ _ t. Q t.session.green_attempts t.session.red_attempts) r

abbrev pub KeepsSession : (Session → Session) → Type 0
KeepsSession f =
    (s : Session)
    → ((f s).green_attempts ≡ s.green_attempts) × ((f s).red_attempts ≡ s.red_attempts)

module _ (W : Type 0) where
  pub update-KeepsCounts : (f : Session → Session) → KeepsSession f → KeepsCounts (update {W = W} f)
  unfolding KeepsCounts Ends
  update-KeepsCounts f h s = h s.session

  pub push_event-KeepsCounts : (p : Phase) → KeepsCounts (push_event {W = W} p)
  unfolding KeepsCounts Ends
  push_event-KeepsCounts p s = (refl, refl)

  pub session_of-KeepsCounts : KeepsCounts (session_of {W = W})
  unfolding KeepsCounts Ends
  session_of-KeepsCounts s = (refl, refl)

module _ (W A : Type 0) where
  pub pure-KeepsCounts : (a : A) → KeepsCounts (pure {W = W} a)
  unfolding KeepsCounts Ends
  pure-KeepsCounts a s = (refl, refl)

  pub throw-KeepsCounts : (e : Failure) → KeepsCounts (throw {W = W} {A = A} e)
  unfolding KeepsCounts Ends
  throw-KeepsCounts e s = tt

module _ {W A : Type 0} where
  pub if-KeepsCounts :
      (b : Bool) (m n : Action W A)
      → KeepsCounts m
      → KeepsCounts n
      → KeepsCounts (if b then m else n)
  if-KeepsCounts true m n hm hn = hm
  if-KeepsCounts false m n hm hn = hn

  pub Counted-keep :
      (Q : ℕ → ℕ → Type 0) (m : Action W A) (s : State W)
      → KeepsCounts m
      → Q s.session.green_attempts s.session.red_attempts
      → Counted Q (m s)
  unfolding KeepsCounts Counted
  Counted-keep Q m s keeps q =
      Ends-weaken (λ _ t. SameCounts s t) _ (m s) (keeps s)
        λ a t h.
          subst (λ x. Q x t.session.red_attempts) (sym h.0)
            (subst (λ x. Q s.session.green_attempts x) (sym h.1) q)

module _ {W A B : Type 0} where
  pub bind-KeepsCounts :
      (m : Action W A) (f : A → Action W B)
      → KeepsCounts m
      → ((a : A) → KeepsCounts (f a))
      → KeepsCounts (m >>= f)
  unfolding KeepsCounts
  bind-KeepsCounts m f hm hf s =
      Ends-continue (λ _ t. SameCounts s t) _ (m s) f (hm s)
        λ a t h.
          Ends-weaken (λ _ u. SameCounts t u) _ (f a t) (hf a t) λ b u k. (k.0 ∙ h.0, k.1 ∙ h.1)

  pub Counted-then :
      (Q : ℕ → ℕ → Type 0) (r : Result A × State W) (f : A → Action W B)
      → Counted Q r
      → ((a : A) → KeepsCounts (f a))
      → Counted Q (continue r f)
  unfolding Counted
  Counted-then Q r f h keeps =
      Ends-continue (λ _ t. Q t.session.green_attempts t.session.red_attempts) _ r f h
        λ a t q. Counted-keep Q (f a) t (keeps a) q

  pub Counted-bind :
      (P Q : ℕ → ℕ → Type 0) (r : Result A × State W) (f : A → Action W B)
      → Counted P r
      → ((a : A) (t : State W)
          → P t.session.green_attempts t.session.red_attempts
          → Counted Q (f a t))
      → Counted Q (continue r f)
  unfolding Counted
  Counted-bind P Q r f h k = Ends-continue _ _ r f h k

module _ {W A : Type 0} where
  pub Counted-if :
      (Q : ℕ → ℕ → Type 0) (b : Bool) (m n : Action W A) (s : State W)
      → (b ≡ true → Counted Q (m s))
      → (b ≡ false → Counted Q (n s))
      → Counted Q ((if b then m else n) s)
  Counted-if Q true m n s hm hn = hm refl
  Counted-if Q false m n s hm hn = hn refl

  pub Ends-if :
      (Q : A → State W → Type 0) (b : Bool) (x y : Result A × State W)
      → Ends Q x
      → Ends Q y
      → Ends Q (if b then x else y)
  Ends-if Q true x y hx hy = hx
  Ends-if Q false x y hx hy = hy

  pub Ends-ok :
      (Q : A → State W → Type 0) (x : Result A × State W) (a : A) (s : State W)
      → x ≡ (ok a, s)
      → Ends Q x
      → Q a s
  unfolding Ends
  Ends-ok Q x a s h e = subst (Ends Q) h e
