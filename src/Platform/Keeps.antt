-- ===== src/Platform/Keeps.antt =====
-- Invariants of the runs. A policy says of each call whether it may be made after a history. A run
-- obeys it if each of its calls may, and it keeps a property `J` of the object in memory.
use kflared.Base.{◌≡◌, refl, Bool, true, false, Option, none, some, [], ◌∷◌, if◌then◌else◌}
use kflared.Errors.{Err, Result, ok, err}
use kflared.Platform.{
  continue, on_result, on_option, Platform, Call, Reply, event, History, State, M, ◌>>=◌, pure,
  fail, lift, attempt,
}
use kflared.Platform.{current, assign, perform}

abbrev pub Policy : Type 0
Policy = Call → History → Bool

abbrev pub Obeys : Policy → History → Type 0
Obeys policy [] = Unit
Obeys policy (event c _ ∷ h) = (policy c h ≡ true) × Obeys policy h

module _ (policy : Policy) {O : Type 0} (J : O → Type 0) where
  pub record Inv (s : State O) : Type 0 where
    pub obeys : Obeys policy s.log
    pub holds : J s.object

  pub record Keeps {A : Type 0} (m : M O A) : Type 0 where
    pub at : (s : State O) → Inv s → Inv (m s).1

module _ {policy : Policy} {O : Type 0} {J : O → Type 0} where
  pub Keeps-pure : {A : Type 0} (a : A) → Keeps policy J (pure a)
  unfolding ◌>>=◌
  Keeps-pure a = record { at = λ s h. h }

  pub Keeps-fail : {A : Type 0} (e : Err) → Keeps policy J (fail {A = A} e)
  unfolding ◌>>=◌
  Keeps-fail e = record { at = λ s h. h }

  pub Keeps-lift : {A : Type 0} (r : Result A) → Keeps policy J (lift r)
  unfolding ◌>>=◌
  Keeps-lift r = record { at = λ s h. h }

  pub Keeps-assign : (o : O) → J o → Keeps policy J (assign o)
  unfolding ◌>>=◌
  Keeps-assign o j = record { at = λ s h. record { obeys = h.obeys; holds = j } }

  pub Keeps-attempt : {A : Type 0} (m : M O A) → Keeps policy J m → Keeps policy J (attempt m)
  unfolding ◌>>=◌
  Keeps-attempt m k = record { at = λ s h. k.at s h }

  pub Keeps-current :
      {A : Type 0} (f : O → M O A)
      → ((o : O) → J o → Keeps policy J (f o))
      → Keeps policy J (current >>= f)
  unfolding ◌>>=◌
  Keeps-current f k = record { at = λ s h. (k s.object h.holds).at s h }

  pub Keeps-if :
      {A : Type 0} (b : Bool) (m n : M O A)
      → (b ≡ true → Keeps policy J m)
      → (b ≡ false → Keeps policy J n)
      → Keeps policy J (if b then m else n)
  Keeps-if true m n km kn = km refl
  Keeps-if false m n km kn = kn refl

  pub Keeps-result :
      {A B : Type 0} (r : Result A) (f : Err → M O B) (g : A → M O B)
      → ((e : Err) → Keeps policy J (f e))
      → ((a : A) → Keeps policy J (g a))
      → Keeps policy J (on_result r f g)
  unfolding on_result
  Keeps-result (ok a) f g kf kg = kg a
  Keeps-result (err e) f g kf kg = kf e

  pub Keeps-option :
      {A B : Type 0} (o : Option A) (m : M O B) (g : A → M O B)
      → Keeps policy J m
      → ((a : A) → Keeps policy J (g a))
      → Keeps policy J (on_option o m g)
  unfolding on_option
  Keeps-option none m g kf kg = kf
  Keeps-option (some a) m g kf kg = kg a

  pub continue-Inv :
      {A B : Type 0} (r : Result A) (f : A → M O B) (t : State O)
      → Inv policy J t
      → ((a : A) → r ≡ ok a → Inv policy J (f a t).1)
      → Inv policy J (continue r f t).1
  continue-Inv (ok a) f t i k = k a refl
  continue-Inv (err e) f t i k = i

  pub Keeps-bind :
      {A B : Type 0} (m : M O A) (f : A → M O B)
      → Keeps policy J m
      → ((a : A) → Keeps policy J (f a))
      → Keeps policy J (m >>= f)
  unfolding ◌>>=◌
  Keeps-bind m f km kf = record {
    at = λ s h. continue-Inv (m s).0 f (m s).1 (km.at s h) (λ a _. (kf a).at (m s).1 (km.at s h));
  }

  pub Keeps-perform :
      (p : Platform) (c : Call) → ((h : History) → policy c h ≡ true) → Keeps policy J (perform p c)
  unfolding perform
  Keeps-perform p c always = record {
    at = λ s h. record { obeys = (always s.log, h.obeys); holds = h.holds };
  }

  -- The rest of a run may use what a call has just returned.
  pub Keeps-call :
      {A : Type 0} (p : Platform) (c : Call) (f : Reply c → M O A)
      → ((h : History) → policy c h ≡ true)
      → ((h : History) (a : Reply c) (s : State O)
          → p.answer h c ≡ ok a
          → s.log ≡ event c (ok a) ∷ h
          → Inv policy J s
          → Inv policy J (f a s).1)
      → Keeps policy J (perform p c >>= f)
  unfolding perform ◌>>=◌
  Keeps-call p c f always k = record {
    at = λ s h.
        let t : State O = record s { log = event c (p.answer s.log c) ∷ s.log } in
        let j : Inv policy J t = record { obeys = (always s.log, h.obeys); holds = h.holds } in
        continue-Inv (p.answer s.log c) f t j (λ a e. k s.log a t e (rw e) j);
  }

pub ruleset keeps_rules = (
  Keeps-pure, Keeps-fail, Keeps-lift, Keeps-attempt, Keeps-current, Keeps-if, Keeps-result,
  Keeps-option, Keeps-bind, Keeps-perform,
)
