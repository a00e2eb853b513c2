-- ===== src/Platform/Chains.antt =====
-- Chains that succeed.
use kflared.Base.{
  ◌≡◌, ◌⊎◌, inl, inr, refl, ap, arith, Bool, true, false, Option, none, some, ◌∷◌, if◌then◌else◌,
}
use kflared.Errors.{Err, Result, ok, err}
use kflared.Platform.{
  Platform, Call, Reply, event, State, M, ◌>>=◌, continue, pure, fail, attempt, perform, on_result,
  on_option,
}

module _ {O A B : Type 0} where
  continue-ok :
      (r : Result A) (f : A → M O B) (t s' : State O) (b : B)
      → continue r f t ≡ (ok b, s')
      → (a : A) × (f a t ≡ (ok b, s'))
  continue-ok (ok a) f t s' b e = (a, e)
  continue-ok (err x) f t s' b e = absurd (ground arith)

  -- A chain that succeeds went on after its first part.
  pub bind-ok :
      (m : M O A) (f : A → M O B) (s s' : State O) (b : B)
      → (m >>= f) s ≡ (ok b, s')
      → (a : A) × (t : State O) × (f a t ≡ (ok b, s'))
  unfolding ◌>>=◌
  bind-ok m f s s' b e = let (a, q) = continue-ok (m s).0 f (m s).1 s' b e in (a, (m s).1, q)

  continue-first :
      (r : Result A) (f : A → M O B) (t s' : State O) (b : B)
      → continue r f t ≡ (ok b, s')
      → (a : A) × (r ≡ ok a) × (f a t ≡ (ok b, s'))
  continue-first (ok a) f t s' b e = (a, refl, e)
  continue-first (err x) f t s' b e = absurd (ground arith)

  -- The same, with what the first part returned.
  pub bind-first :
      (m : M O A) (f : A → M O B) (s s' : State O) (b : B)
      → (m >>= f) s ≡ (ok b, s')
      → (a : A) × (t : State O) × ((m s).0 ≡ ok a) × (f a t ≡ (ok b, s'))
  unfolding ◌>>=◌
  bind-first m f s s' b e =
      let (a, o, q) = continue-first (m s).0 f (m s).1 s' b e in (a, (m s).1, o, q)

  -- The same, with the state between the parts.
  pub bind-next :
      (m : M O A) (f : A → M O B) (s s' : State O) (b : B)
      → (m >>= f) s ≡ (ok b, s')
      → (a : A) × (t : State O) × (m s ≡ (ok a, t)) × (f a t ≡ (ok b, s'))
  unfolding ◌>>=◌
  bind-next m f s s' b e =
      let (a, got, q) = continue-first (m s).0 f (m s).1 s' b e in
      (a, (m s).1, ap (λ (r : Result A). (r, (m s).1)) got, q)

-- The state after a call.
abbrev pub asked : {O : Type 0} → Platform → State O → Call → State O
asked p s c = record s { log = event c (p.answer s.log c) ∷ s.log }

module _ {O B : Type 0} where
  pub result-first :
      {A : Type 0} (r : Result A) (f : Err → M O B) (g : A → M O B) (s s' : State O) (b : B)
      → on_result r f g s ≡ (ok b, s')
      → ((v : A) × (r ≡ ok v) × (g v s ≡ (ok b, s')))
        ⊎ ((x : Err) × (r ≡ err x) × (f x s ≡ (ok b, s')))
  unfolding on_result
  result-first (ok v) f g s s' b e = inl (v, refl, e)
  result-first (err x) f g s s' b e = inr (x, refl, e)

module _ (p : Platform) {O B : Type 0} where
  -- A chain that succeeds after a call went on with the answer.
  pub call-first :
      (c : Call) (f : Reply c → M O B) (s s' : State O) (b : B)
      → (perform p c >>= f) s ≡ (ok b, s')
      → (v : Reply c) × (p.answer s.log c ≡ ok v) × (f v (asked p s c) ≡ (ok b, s'))
  unfolding perform ◌>>=◌
  call-first c f s s' b e = continue-first (p.answer s.log c) f (asked p s c) s' b e

  -- The same after a call whose error the code looks at.
  pub read-first :
      (c : Call) (f : Err → M O B) (g : Reply c → M O B) (s s' : State O) (b : B)
      → (attempt (perform p c) >>= λ found. on_result found f g) s ≡ (ok b, s')
      → ((v : Reply c) × (p.answer s.log c ≡ ok v) × (g v (asked p s c) ≡ (ok b, s')))
        ⊎ ((x : Err) × (p.answer s.log c ≡ err x) × (f x (asked p s c) ≡ (ok b, s')))
  unfolding perform ◌>>=◌
  read-first c f g s s' b e = result-first (p.answer s.log c) f g (asked p s c) s' b e

  choice :
      {A C : Type 0} (r : Result A) (w : A → C) (g : C → M O B) (s s' : State O) (b : B)
      → ((λ t. continue r (λ v. pure (w v)) t) >>= g) s ≡ (ok b, s')
      → (v : A) × (r ≡ ok v) × (g (w v) s ≡ (ok b, s'))
  unfolding ◌>>=◌
  choice (ok v) w g s s' b e = (v, refl, e)
  choice (err x) w g s s' b e = absurd (ground arith)

  -- The same after a choice from what a call returned.
  pub choice-first :
      {C : Type 0} (c : Call) (w : Reply c → C) (g : C → M O B) (s s' : State O) (b : B)
      → ((perform p c >>= λ v. pure (w v)) >>= g) s ≡ (ok b, s')
      → (v : Reply c) × (p.answer s.log c ≡ ok v) × (g (w v) (asked p s c) ≡ (ok b, s'))
  unfolding perform ◌>>=◌
  choice-first c w g s s' b e = choice (p.answer s.log c) w g (asked p s c) s' b e

module _ {O B : Type 0} where
  pub if-first :
      (b : Bool) (m n : M O B) (s s' : State O) (v : B)
      → (if b then m else n) s ≡ (ok v, s')
      → ((b ≡ true) × (m s ≡ (ok v, s'))) ⊎ ((b ≡ false) × (n s ≡ (ok v, s')))
  if-first true m n s s' v e = inl (refl, e)
  if-first false m n s s' v e = inr (refl, e)

  pub option-first :
      {A : Type 0} (o : Option A) (m : M O B) (f : A → M O B) (s s' : State O) (b : B)
      → on_option o m f s ≡ (ok b, s')
      → ((o ≡ none) × (m s ≡ (ok b, s'))) ⊎ ((a : A) × (o ≡ some a) × (f a s ≡ (ok b, s')))
  unfolding on_option
  option-first none m f s s' b e = inl (refl, e)
  option-first (some a) m f s s' b e = inr (a, refl, e)

  pub pure-first : (a b : B) (s s' : State O) → pure a s ≡ (ok b, s') → a ≡ b
  unfolding ◌>>=◌
  pure-first a b s s' e = ground arith

  pub fail-first : (x : Err) (b : B) (s s' : State O) → ¬ (fail x s ≡ (ok b, s'))
  unfolding ◌>>=◌
  fail-first x b s s' e = ground arith
