-- ===== src/Platform/Ends.antt =====
-- Runs that end with a last call, which is made only after the rest of the run went well.
use kflared.Base.{◌≡◌, refl, ap, ◌⊎◌, inl, inr, Bool, false, ◌∷◌, if◌then◌else◌}
use kflared.Errors.{Err, Result, ok, err}
use kflared.Platform.{
  Platform, Call, event, History, State, M, Outcome, outcome_of, ◌>>=◌, continue, pure, attempt,
  current, perform,
}
use kflared.Platform.Keeps.{Policy, Obeys, Keeps}
use kflared.Platform.Leads.{Leads}

-- Nothing is asked of the object.
abbrev pub AnyObject : {O : Type 0} → O → Type 0
AnyObject o = Unit {0}

-- A part of a run that makes no call against the policy, whether it fails or not.
abbrev pub Quiet : Policy → {O A : Type 0} → M O A → Type 0
Quiet policy m = Keeps policy AnyObject m

module _ (p : Platform) (policy : Policy) {O : Type 0} where
  -- The run failed, and made no call against the policy.
  pub record Broke (run : Result Outcome × State O) : Type 0 where
    pub error : Err
    pub raised : run.0 ≡ err error
    pub quiet : Obeys policy run.1.log

  -- The last call of the run is one with `W`, the calls before it obey the policy, and the outcome is
  -- that of the last call.
  pub record Closed (W : Call → Type 0) (run : Result Outcome × State O) : Type 0 where
    pub last : Call
    pub before : History
    pub allowed : W last
    pub quiet : Obeys policy before
    pub log : run.1.log ≡ event last (p.answer before last) ∷ before
    pub outcome : run.0 ≡ ok (outcome_of 0 (p.answer before last))

  pub record Ends (J : O → Type 0) (W : Call → Type 0) (m : M O Outcome) : Type 0 where
    pub at : (s : State O) → Obeys policy s.log → J s.object → Broke (m s) ⊎ Closed W (m s)

module _ {p : Platform} {policy : Policy} {O : Type 0} {J : O → Type 0} {W : Call → Type 0} where
  pub Ends-here :
      (f : O → M O Outcome)
      → ((o : O) → J o → Ends p policy (λ x. x ≡ o) W (f o))
      → Ends p policy J W (current >>= f)
  unfolding ◌>>=◌
  Ends-here f k = record { at = λ s q j. (k s.object j).at s q refl }

  pub Ends-last :
      (c : Call)
      → W c
      → Ends p policy J W (attempt (perform p c) >>= λ answered. pure (outcome_of 0 answered))
  unfolding ◌>>=◌ perform
  Ends-last c w = record {
    at = λ s q j.
        inr
          (record { last = c; before = s.log; allowed = w; quiet = q; log = refl; outcome = refl });
  }

  pub Ends-if :
      (b : Bool) (m n : M O Outcome)
      → b ≡ false
      → Ends p policy J W n
      → Ends p policy J W (if b then m else n)
  Ends-if b m n e k = rw e k

module _ {p : Platform} {policy : Policy} {O A : Type 0} {W : Call → Type 0} where
  went_on :
      (r : Result A) (f : A → M O Outcome) (t : State O)
      → Obeys policy t.log
      → ((a : A) → r ≡ ok a → Broke p policy (f a t) ⊎ Closed p policy W (f a t))
      → Broke p policy (continue r f t) ⊎ Closed p policy W (continue r f t)
  went_on (ok a) f t q k = k a refl
  went_on (err x) f t q k = inl (record { error = x; raised = refl; quiet = q })

module _ {p : Platform} {policy : Policy} {O A : Type 0} {J K : O → Type 0}
    {W : Call → Type 0} where
  -- A quiet part, after which the rest of the run may use what it gave.
  pub Ends-bind :
      {R : A → Type 0} (m : M O A) (f : A → M O Outcome)
      → Quiet policy m
      → Leads J K m R
      → ((a : A) → R a → Ends p policy K W (f a))
      → Ends p policy J W (m >>= f)
  unfolding ◌>>=◌
  Ends-bind m f quiet first rest = record {
    at = λ s q j.
        let silent = (quiet.at s (record { obeys = q; holds = tt })).obeys in
        went_on (m s).0 f (m s).1 silent λ a e.
          let (known, k) = first.at s (m s).1 a j (ap (λ (x : Result A). (x, (m s).1)) e) in
          (rest a known).at (m s).1 silent k;
  }
