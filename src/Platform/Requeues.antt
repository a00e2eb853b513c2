-- ===== src/Platform/Requeues.antt =====
-- After how long a run runs again.
use kflared.Base.{ℕ, ◌≡◌, ◌⊎◌, inl, inr, refl, sym, ap, Bool, true, false, if◌then◌else◌}
use kflared.Errors.{Result, ok, err}
use kflared.Platform.{State, M, Outcome, outcome_of, ◌>>=◌, pure}
use kflared.Platform.Chains.{bind-ok, pure-first}

module _ {O : Type 0} where
  -- A run that returns always asks for this requeue.
  pub record Requeues (n : ℕ) (m : M O Outcome) : Type 0 where
    pub at : (s s' : State O) (o : Outcome) → m s ≡ (ok o, s') → o.requeue_after ≡ n

  pub Requeues-pure : (o : Outcome) → Requeues o.requeue_after (pure o)
  Requeues-pure a = record {
    at = λ s s' o e. sym (ap (λ (v : Outcome). v.requeue_after) (pure-first a o s s' e));
  }

  pub Requeues-outcome : {A : Type 0} (n : ℕ) (r : Result A) → Requeues n (pure (outcome_of n r))
  Requeues-outcome {A} n (ok a) = Requeues-pure (outcome_of {A = A} n (ok a))
  Requeues-outcome {A} n (err x) = Requeues-pure (outcome_of {A = A} n (err x))

  pub Requeues-if :
      (n : ℕ) (b : Bool) (m k : M O Outcome)
      → Requeues n m
      → Requeues n k
      → Requeues n (if b then m else k)
  Requeues-if n true m k first second = first
  Requeues-if n false m k first second = second

  pub Requeues-bind :
      {A : Type 0} (n : ℕ) (m : M O A) (f : A → M O Outcome)
      → ((a : A) → Requeues n (f a))
      → Requeues n (m >>= f)
  Requeues-bind n m f rest = record {
    at = λ s s' o e. let (a, t, q) = bind-ok m f s s' o e in (rest a).at t s' o q;
  }

  -- The run ends without an error that it raises, and runs again after two minutes.
  abbrev pub Publishes : M O Outcome → State O → Outcome → State O → Type 0
  Publishes m s o s' = (m s ≡ (ok o, s')) × (o.requeue_after ≡ 120)

  pub either_if :
      (b : Bool) (m n : M O Outcome) (s s' : State O) (o : Outcome)
      → Publishes (if b then m else n) s o s'
      → ((b ≡ true) × Publishes m s o s') ⊎ ((b ≡ false) × Publishes n s o s')
  either_if true m n s s' o e = inl (refl, e)
  either_if false m n s s' o e = inr (refl, e)

  -- A part of a run returned this from some state.
  abbrev pub Returned : {A : Type 0} → M O A → A → Type 0
  Returned m a = (s : State O) × ((m s).0 ≡ ok a)

pub ruleset requeue_rules = (Requeues-pure, Requeues-outcome, Requeues-if, Requeues-bind)
