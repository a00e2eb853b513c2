-- ===== src/Bindings/Validation/Proceeds.antt =====
-- Runs of the validation that do not end in a rejection: what the parts of such a run returned.
pub mod Calls
use kflared.Base.{
  ◌≡◌, refl, ap, sym, ◌⊎◌, inl, inr, arith, Bool, true, false, Option, none, some, ◌∷◌, String,
  Text, if◌then◌else◌,
}
use kflared.Errors.{Err, wrapped, Result, ok, err}
use kflared.Api.{CloudflareTunnelBinding}
use kflared.Platform.{
  Platform, Call, Reply, event, State, M, Outcome, ◌>>=◌, continue, pure, fail, attempt, current,
  perform, on_result, on_option,
}
use kflared.Platform.Chains.{bind-ok}
use kflared.Bindings.Finalize.{wrapping}
use kflared.Bindings.Status.{rejected}
use kflared.Bindings.Origin.{Step, stop, proceed, on_step, reject}

abbrev Binding : Type 0
Binding = CloudflareTunnelBinding

-- The state after a call that was answered so.
abbrev pub after : Platform → State Binding → (c : Call) → Result (Reply c) → State Binding
after p s c r = record s { log = event c r ∷ s.log }

module _ {A : Type 0} where
  -- The run ends in `s'` and goes on with `a`.
  abbrev pub Proceeds : M Binding (Step A) → State Binding → A → State Binding → Type 0
  Proceeds m s a s' = m s ≡ (ok (proceed a), s')

  -- A run that never goes on.
  abbrev pub Stops : M Binding (Step A) → Type 0
  Stops m = (s s' : State Binding) (a : A) → ¬ Proceeds m s a s'

  stopped : (o : Outcome) → Stops (pure (stop o))
  unfolding ◌>>=◌
  stopped o s s' a e = ground arith

  pub reject-Stops :
      (p : Platform) (reason : String) (text : Text) (cause : Option Err)
      → Stops (reject p reason text cause)
  unfolding reject
  reject-Stops p reason text cause s s' a e =
      let (o, t, q) = bind-ok (rejected p reason text cause) _ s s' (proceed a) e in
      stopped o t s' a q

  pub fail-Stops : (x : Err) → Stops (fail x)
  unfolding ◌>>=◌
  fail-Stops x s s' a e = ground arith

  pub past_if :
      (b : Bool) (m n : M Binding (Step A)) (s s' : State Binding) (a : A)
      → Stops m
      → Proceeds (if b then m else n) s a s'
      → (b ≡ false) × Proceeds n s a s'
  past_if true m n s s' a halts e = absurd (halts s s' a e)
  past_if false m n s s' a halts e = (refl, e)

  pub if-Stops :
      (b : Bool) (m n : M Binding (Step A)) → Stops m → Stops n → Stops (if b then m else n)
  if-Stops true m n first second = first
  if-Stops false m n first second = second

  pub either_if :
      (b : Bool) (m n : M Binding (Step A)) (s s' : State Binding) (a : A)
      → Proceeds (if b then m else n) s a s'
      → ((b ≡ true) × Proceeds m s a s') ⊎ ((b ≡ false) × Proceeds n s a s')
  either_if true m n s s' a e = inl (refl, e)
  either_if false m n s s' a e = inr (refl, e)

  pub past_two :
      (b c : Bool) (m₁ m₂ n : M Binding (Step A)) (s s' : State Binding) (a : A)
      → Stops m₁
      → Stops m₂
      → Proceeds (if b then m₁ else if c then m₂ else n) s a s'
      → (b ≡ false) × (c ≡ false) × Proceeds n s a s'
  past_two b c m₁ m₂ n s s' a first second e =
      let (no₁, e₁) = past_if b m₁ (if c then m₂ else n) s s' a first e in
      let (no₂, e₂) = past_if c m₂ n s s' a second e₁ in (no₁, no₂, e₂)

  -- Three tests in a row.
  pub past_ifs :
      (b c d : Bool) (m₁ m₂ m₃ n : M Binding (Step A)) (s s' : State Binding) (a : A)
      → Stops m₁
      → Stops m₂
      → Stops m₃
      → Proceeds (if b then m₁ else if c then m₂ else if d then m₃ else n) s a s'
      → (b ≡ false) × (c ≡ false) × (d ≡ false) × Proceeds n s a s'
  past_ifs b c d m₁ m₂ m₃ n s s' a first second third e =
      let (no₁, e₁) = past_if b m₁ (if c then m₂ else if d then m₃ else n) s s' a first e in
      let (no₂, e₂) = past_if c m₂ (if d then m₃ else n) s s' a second e₁ in
      let (no₃, e₃) = past_if d m₃ n s s' a third e₂ in (no₁, no₂, no₃, e₃)

  pub past_current :
      (f : Binding → M Binding (Step A)) (s s' : State Binding) (a : A)
      → Proceeds (current >>= f) s a s'
      → Proceeds (f s.object) s a s'
  unfolding ◌>>=◌
  past_current f s s' a e = e

  pub past_result :
      {B : Type 0} (r : Result B) (f : Err → M Binding (Step A)) (g : B → M Binding (Step A))
      (s s' : State Binding) (a : A)
      → ((e : Err) → Stops (f e))
      → Proceeds (on_result r f g) s a s'
      → (v : B) × (r ≡ ok v) × Proceeds (g v) s a s'
  unfolding on_result
  past_result (ok v) f g s s' a halts e = (v, refl, e)
  past_result (err x) f g s s' a halts e = absurd (halts x s s' a e)

  pub past_option :
      {B : Type 0} (o : Option B) (m : M Binding (Step A)) (g : B → M Binding (Step A))
      (s s' : State Binding) (a : A)
      → ((v : B) → Stops (g v))
      → Proceeds (on_option o m g) s a s'
      → (o ≡ none) × Proceeds m s a s'
  unfolding on_option
  past_option none m g s s' a halts e = (refl, e)
  past_option (some v) m g s s' a halts e = absurd (halts v s s' a e)

-- The end of a check that lets the run go on.
pub went_on :
    {A : Type 0} (a b : A) (s s' : State Binding)
    → Proceeds (pure (proceed a)) s b s'
    → (a ≡ b) × (s'.object ≡ s.object)
unfolding ◌>>=◌
went_on {A} a b s s' e =
    (ground arith, ap (λ (x : Result (Step A) × State Binding). x.1.object) (sym e))
