-- ===== src/Platform/Gives.antt =====
-- Postconditions of the runs that succeed, from a property of the object in memory that each step
-- keeps.
use kflared.Base.{◌≡◌, refl, ap, arith, Bool, true, false, Option, none, some, if◌then◌else◌}
use kflared.Errors.{Err, Result, ok, err}
use kflared.Platform.{
  Platform, Call, Reply, History, State, M, ◌>>=◌, pure, fail, lift, attempt, current, assign,
  perform, on_result, on_option,
}
use kflared.Platform.Chains.{bind-next}

-- Some answer to the call was this one. What is shown of every platform is shown of the calls of the
-- run, since a platform may fail every other call.
abbrev pub Once : Platform → (c : Call) → Reply c → Type 0
Once p c v = (h : History) × (p.answer h c ≡ ok v)

module _ {O A : Type 0} where
  -- A run that succeeds from an object with `J` returns something with `Q`, and keeps `J`.
  pub record Gives (J : O → Type 0) (m : M O A) (Q : A → Type 0) : Type 0 where
    pub at : (s s' : State O) (a : A) → J s.object → m s ≡ (ok a, s') → Q a × J s'.object

same_object :
    {O A : Type 0} (s s' : State O) (r : Result A) (v : A)
    → ◌≡◌ {A = Result A × State O} (r, s) (ok v, s')
    → s.object ≡ s'.object
same_object {O} {A} s s' r v e = ap (λ (x : Result A × State O). x.1.object) e

-- Nothing is known of the result.
abbrev pub Anything : {A : Type 0} → A → Type 0
Anything a = Unit {0}

pub Gives-assign : {O : Type 0} {J : O → Type 0} (o : O) → J o → Gives J (assign o) Anything
unfolding ◌>>=◌
Gives-assign {O} o j = record {
  at = λ s s' v k e. (tt, rw (← ap (λ (x : Result (Unit {0}) × State O). x.1.object) e) j);
}

module _ {O A : Type 0} {J : O → Type 0} where
  pub Gives-pure : {Q : A → Type 0} (a : A) → Q a → Gives J (pure a) Q
  unfolding ◌>>=◌
  Gives-pure {Q} a q = record {
    at = λ s s' v j e.
        let same : a ≡ v = ground arith in (rw (← same) q, rw (← same_object s s' (ok a) v e) j);
  }

  pub Gives-fail : {Q : A → Type 0} (x : Err) → Gives J (fail x) Q
  unfolding ◌>>=◌
  Gives-fail x = record { at = λ s s' v j e. absurd (ground arith) }

  pub Gives-lift : {Q : A → Type 0} (r : Result A) → ((a : A) → r ≡ ok a → Q a) → Gives J (lift r) Q
  unfolding ◌>>=◌
  Gives-lift r q = record {
    at = λ s s' v j e.
        (q v (ap (λ (x : Result A × State O). x.0) e), rw (← same_object s s' r v e) j);
  }

  pub Gives-if :
      {Q : A → Type 0} (b : Bool) (m n : M O A)
      → (b ≡ true → Gives J m Q)
      → (b ≡ false → Gives J n Q)
      → Gives J (if b then m else n) Q
  Gives-if true m n first second = first refl
  Gives-if false m n first second = second refl

  pub Gives-current :
      {Q : A → Type 0} (f : O → M O A)
      → ((o : O) → J o → Gives J (f o) Q)
      → Gives J (current >>= f) Q
  unfolding ◌>>=◌
  Gives-current f k = record { at = λ s s' v j e. (k s.object j).at s s' v j e }

  pub Gives-weaken :
      {Q R : A → Type 0} (m : M O A) → Gives J m Q → ((a : A) → Q a → R a) → Gives J m R
  Gives-weaken m g w = record { at = λ s s' v j e. let (q, k) = g.at s s' v j e in (w v q, k) }

module _ {O A B : Type 0} {J : O → Type 0} where
  pub Gives-bind :
      {R : A → Type 0} {Q : B → Type 0} (m : M O A) (f : A → M O B)
      → Gives J m R
      → ((a : A) → R a → Gives J (f a) Q)
      → Gives J (m >>= f) Q
  Gives-bind m f first rest = record {
    at = λ s s' v j e.
        let (a, t, got, q) = bind-next m f s s' v e in
        let (r, k) = first.at s t a j got in (rest a r).at t s' v k q;
  }

  pub Gives-result :
      {Q : B → Type 0} (r : Result A) (f : Err → M O B) (g : A → M O B)
      → ((x : Err) → r ≡ err x → Gives J (f x) Q)
      → ((a : A) → r ≡ ok a → Gives J (g a) Q)
      → Gives J (on_result r f g) Q
  unfolding on_result
  Gives-result (ok a) f g bad good = good a refl
  Gives-result (err x) f g bad good = bad x refl

  pub Gives-option :
      {Q : B → Type 0} (o : Option A) (m : M O B) (f : A → M O B)
      → (o ≡ none → Gives J m Q)
      → ((a : A) → o ≡ some a → Gives J (f a) Q)
      → Gives J (on_option o m f) Q
  unfolding on_option
  Gives-option none m f nothing something = nothing refl
  Gives-option (some a) m f nothing something = something a refl

module _ (p : Platform) {O : Type 0} {J : O → Type 0} where
  pub Gives-perform : (c : Call) → Gives J (perform p c) (Once p c)
  unfolding perform
  Gives-perform c = record {
    at = λ s s' v j e. (
      (s.log, ap (λ (x : Result (Reply c) × State O). x.0) e),
      rw (← ap (λ (x : Result (Reply c) × State O). x.1.object) e) j,
    );
  }

  -- A call whose error the code looks at.
  pub Gives-answer :
      (c : Call) → Gives J (attempt (perform p c)) (λ r. (h : History) × (p.answer h c ≡ r))
  unfolding perform ◌>>=◌
  Gives-answer c = record {
    at = λ s s' v j e.
        let same : p.answer s.log c ≡ v = ground arith in
        ((s.log, same), rw (← ap (λ (x : Result (Result (Reply c)) × State O). x.1.object) e) j);
  }
