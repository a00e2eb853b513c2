-- ===== src/Bindings/Validation/Proceeds/Calls.antt =====
-- The calls and the smaller runs in a run that does not end in a rejection: what they returned.
use kflared.Base.{◌≡◌, refl, ap, arith, String}
use kflared.Errors.{Err, wrapped, Result, ok, err}
use kflared.Api.{CloudflareTunnelBinding}
use kflared.Platform.{
  Platform, Call, Reply, State, M, ◌>>=◌, continue, pure, fail, attempt, perform, on_result,
}
use kflared.Bindings.Finalize.{wrapping}
use kflared.Bindings.Origin.{Step, stop, proceed, on_step}
use kflared.Bindings.Validation.Proceeds.{Proceeds, Stops, after, past_result}

abbrev Binding : Type 0
Binding = CloudflareTunnelBinding

module _ {A : Type 0} (p : Platform) where
  -- A read whose error ends the run.
  pub past_read :
      (c : Call) (f : Err → M Binding (Step A)) (g : Reply c → M Binding (Step A))
      (s s' : State Binding) (a : A)
      → ((e : Err) → Stops (f e))
      → Proceeds (attempt (perform p c) >>= λ found. on_result found f g) s a s'
      → (v : Reply c) × (p.answer s.log c ≡ ok v)
        × Proceeds (g v) (after p s c (p.answer s.log c)) a s'
  unfolding perform ◌>>=◌
  past_read c f g s s' a halts e =
      past_result (p.answer s.log c) f g (after p s c (p.answer s.log c)) s' a halts e

  continued :
      {B : Type 0} (r : Result B) (g : B → M Binding (Step A)) (s s' : State Binding) (a : A)
      → continue r g s ≡ (ok (proceed a), s')
      → (v : B) × (r ≡ ok v) × Proceeds (g v) s a s'
  continued (ok v) g s s' a e = (v, refl, e)
  continued (err x) g s s' a e = absurd (ground arith)

  -- A call whose error is raised.
  pub past_call :
      (c : Call) (g : Reply c → M Binding (Step A)) (s s' : State Binding) (a : A)
      → Proceeds (perform p c >>= g) s a s'
      → (v : Reply c) × (p.answer s.log c ≡ ok v)
        × Proceeds (g v) (after p s c (p.answer s.log c)) a s'
  unfolding perform ◌>>=◌
  past_call c g s s' a e = continued (p.answer s.log c) g (after p s c (p.answer s.log c)) s' a e

  chosen :
      {B C : Type 0} (r : Result B) (w : B → C) (g : C → M Binding (Step A)) (s s' : State Binding)
      (a : A)
      → Proceeds ((λ t. continue r (λ v. pure (w v)) t) >>= g) s a s'
      → (v : B) × (r ≡ ok v) × Proceeds (g (w v)) s a s'
  unfolding ◌>>=◌
  chosen (ok v) w g s s' a e = (v, refl, e)
  chosen (err x) w g s s' a e = absurd (ground arith)

  -- A choice from what a call returned.
  pub past_choice :
      {C : Type 0} (c : Call) (w : Reply c → C) (g : C → M Binding (Step A)) (s s' : State Binding)
      (a : A)
      → Proceeds ((perform p c >>= λ v. pure (w v)) >>= g) s a s'
      → (v : Reply c) × (p.answer s.log c ≡ ok v)
        × Proceeds (g (w v)) (after p s c (p.answer s.log c)) a s'
  unfolding perform ◌>>=◌
  past_choice c w g s s' a e = chosen (p.answer s.log c) w g (after p s c (p.answer s.log c)) s' a e

  chosen_wrapped :
      {B C : Type 0} (text : String) (r : Result B) (w : B → C) (g : C → M Binding (Step A))
      (s s' : State Binding) (a : A)
      → Proceeds
          (((λ t. on_result r (λ x. fail (wrapped text x)) pure t) >>= λ v. pure (w v)) >>= g)
          s
          a
          s'
      → (v : B) × (r ≡ ok v) × Proceeds (g (w v)) s a s'
  unfolding ◌>>=◌ on_result
  chosen_wrapped text (ok v) w g s s' a e = (v, refl, e)
  chosen_wrapped text (err x) w g s s' a e = absurd (ground arith)

  -- A choice from what a call returned, with its error wrapped.
  pub past_wrapped :
      {C : Type 0} (text : String) (c : Call) (w : Reply c → C) (g : C → M Binding (Step A))
      (s s' : State Binding) (a : A)
      → Proceeds ((wrapping text (perform p c) >>= λ v. pure (w v)) >>= g) s a s'
      → (v : Reply c) × (p.answer s.log c ≡ ok v)
        × Proceeds (g (w v)) (after p s c (p.answer s.log c)) a s'
  unfolding perform ◌>>=◌ wrapping
  past_wrapped text c w g s s' a e =
      chosen_wrapped text (p.answer s.log c) w g (after p s c (p.answer s.log c)) s' a e

module _ {A B : Type 0} where
  stepped :
      (r : Result (Step B)) (f : B → M Binding (Step A)) (t s' : State Binding) (a : A)
      → continue r (λ x. on_step x f) t ≡ (ok (proceed a), s')
      → (v : B) × (r ≡ ok (proceed v)) × Proceeds (f v) t a s'
  unfolding ◌>>=◌
  stepped (ok (proceed v)) f t s' a e = (v, refl, e)
  stepped (ok (stop o)) f t s' a e = absurd (ground arith)
  stepped (err x) f t s' a e = absurd (ground arith)

  -- A check that is followed by another one.
  pub past_step :
      (m : M Binding (Step B)) (f : B → M Binding (Step A)) (s s' : State Binding) (a : A)
      → Proceeds (m >>= λ x. on_step x f) s a s'
      → (v : B) × (t : State Binding) × Proceeds m s v t × Proceeds (f v) t a s'
  unfolding ◌>>=◌
  past_step m f s s' a e =
      let (v, got, rest) = stepped (m s).0 f (m s).1 s' a e in
      (v, (m s).1, ap (λ (x : Result (Step B)). (x, (m s).1)) got, rest)

module _ {A B : Type 0} where
  bound :
      (r : Result B) (f : B → M Binding (Step A)) (t s' : State Binding) (a : A)
      → continue r f t ≡ (ok (proceed a), s')
      → (v : B) × (r ≡ ok v) × Proceeds (f v) t a s'
  bound (ok v) f t s' a e = (v, refl, e)
  bound (err x) f t s' a e = absurd (ground arith)

  -- Any other run before a check.
  pub past_bind :
      (m : M Binding B) (f : B → M Binding (Step A)) (s s' : State Binding) (a : A)
      → Proceeds (m >>= f) s a s'
      → (v : B) × (t : State Binding) × (m s ≡ (ok v, t)) × Proceeds (f v) t a s'
  unfolding ◌>>=◌
  past_bind m f s s' a e =
      let (v, got, rest) = bound (m s).0 f (m s).1 s' a e in
      (v, (m s).1, ap (λ (x : Result B). (x, (m s).1)) got, rest)
