-- ===== src/Platform/Fails.antt =====
-- What is known of the errors of a run, and what follows for the code that looks at them.
use kflared.Base.{◌≡◌, refl, ap, arith, ◌⊎◌, inl, inr, Bool, true, false, if◌then◌else◌}
use kflared.Errors.{Err, Result, ok, err}
use kflared.Platform.{
  Platform, Call, Reply, History, State, M, ◌>>=◌, continue, fail, attempt, current, perform,
}
use kflared.Platform.Gives.{Gives}

module _ {O A : Type 0} where
  -- A run that fails from an object with `J` has an error with `E`, and keeps `J`.
  pub record Fails (J : O → Type 0) (m : M O A) (E : Err → Type 0) : Type 0 where
    pub at : (s s' : State O) (x : Err) → J s.object → m s ≡ (err x, s') → E x × J s'.object

module _ {O A : Type 0} {J : O → Type 0} {E : Err → Type 0} where
  pub Fails-fail : (x : Err) → E x → Fails {A = A} J (fail x) E
  unfolding ◌>>=◌
  Fails-fail x known = record {
    at = λ s s' y j e.
        let same : x ≡ y = ground arith in
        (rw (← same) known, rw (← ap (λ (v : Result A × State O). v.1.object) e) j);
  }

  pub Fails-if :
      (b : Bool) (m n : M O A)
      → (b ≡ true → Fails J m E)
      → (b ≡ false → Fails J n E)
      → Fails J (if b then m else n) E
  Fails-if true m n first second = first refl
  Fails-if false m n first second = second refl

  pub Fails-current :
      (f : O → M O A) → ((o : O) → J o → Fails J (f o) E) → Fails J (current >>= f) E
  unfolding ◌>>=◌
  Fails-current f k = record { at = λ s s' x j e. (k s.object j).at s s' x j e }

module _ (p : Platform) {O : Type 0} {J : O → Type 0} where
  pub Fails-perform :
      {E : Err → Type 0} (c : Call)
      → ((h : History) (x : Err) → p.answer h c ≡ err x → E x)
      → Fails {A = Reply c} J (perform p c) E
  unfolding perform
  Fails-perform c known = record {
    at = λ s s' x j e. (
      known s.log x (ap (λ (v : Result (Reply c) × State O). v.0) e),
      rw (← ap (λ (v : Result (Reply c) × State O). v.1.object) e) j,
    );
  }

module _ {O A B : Type 0} where
  either :
      (r : Result A) (f : A → M O B) (t s' : State O) (x : Err)
      → continue r f t ≡ (err x, s')
      → ((a : A) × (r ≡ ok a) × (f a t ≡ (err x, s'))) ⊎ ((r ≡ err x) × (t ≡ s'))
  either (ok a) f t s' x e = inl (a, refl, e)
  either (err y) f t s' x e = inr (ground arith, ap (λ (v : Result B × State O). v.1) e)

  pub Fails-bind :
      {J : O → Type 0} {R : A → Type 0} {E : Err → Type 0} (m : M O A) (f : A → M O B)
      → Gives J m R
      → Fails J m E
      → ((a : A) → R a → Fails J (f a) E)
      → Fails J (m >>= f) E
  unfolding ◌>>=◌
  Fails-bind m f good bad rest = record {
    at = λ s s' x j e. elim (either (m s).0 f (m s).1 s' x e) [
      | inl (a, got, q) ↦
          let (r, k) = good.at s (m s).1 a j (ap (λ (v : Result A). (v, (m s).1)) got) in
          (rest a r).at (m s).1 s' x k q
      | inr (lost, same) ↦
          let (known, k) = bad.at s (m s).1 x j (ap (λ (v : Result A). (v, (m s).1)) lost) in
          (known, rw (← same) k)
    ];
  }

-- What the result of an attempt says.
abbrev pub Attempted : {A : Type 0} → (A → Type 0) → (Err → Type 0) → Result A → Type 0
Attempted Q E (ok a) = Q a
Attempted Q E (err x) = E x

module _ {O A : Type 0} {J : O → Type 0} where
  attempted :
      {Q : A → Type 0} {E : Err → Type 0} (m : M O A) (s : State O) (r : Result A)
      → Gives J m Q
      → Fails J m E
      → J s.object
      → (m s).0 ≡ r
      → Attempted Q E r × J (m s).1.object
  attempted m s (ok a) good bad j e = good.at s (m s).1 a j (ap (λ (v : Result A). (v, (m s).1)) e)
  attempted m s (err x) good bad j e = bad.at s (m s).1 x j (ap (λ (v : Result A). (v, (m s).1)) e)

  pub Gives-attempt :
      {Q : A → Type 0} {E : Err → Type 0} (m : M O A)
      → Gives J m Q
      → Fails J m E
      → Gives J (attempt m) (Attempted Q E)
  unfolding ◌>>=◌
  Gives-attempt {Q} {E} m good bad = record {
    at = λ s s' v j e.
        let same : (m s).0 ≡ v = ground arith in
        let (known, k) = attempted m s v good bad j same in
        (known, rw (← ap (λ (x : Result (Result A) × State O). x.1.object) e) k);
  }
