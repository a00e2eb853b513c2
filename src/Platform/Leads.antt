-- ===== src/Platform/Leads.antt =====
-- Postconditions of the runs that succeed and change the object in memory.
use kflared.Base.{◌≡◌, refl, arith, Bool, true, false, if◌then◌else◌}
use kflared.Errors.{Err, ok}
use kflared.Platform.{State, M, ◌>>=◌, pure, fail, current}
use kflared.Platform.Chains.{bind-next}
use kflared.Platform.Gives.{Gives, Gives-pure}

module _ {O A : Type 0} where
  -- A run that succeeds from an object with `J` returns something with `Q`, and leaves one with `K`.
  pub record Leads (J K : O → Type 0) (m : M O A) (Q : A → Type 0) : Type 0 where
    pub at : (s s' : State O) (a : A) → J s.object → m s ≡ (ok a, s') → Q a × K s'.object

module _ {O A : Type 0} {J : O → Type 0} {Q : A → Type 0} where
  pub Leads-Gives : (m : M O A) → Gives J m Q → Leads J J m Q
  Leads-Gives m g = record { at = λ s s' a j e. g.at s s' a j e }

module _ {O A : Type 0} {J K : O → Type 0} {Q : A → Type 0} where
  pub Leads-start :
      {I : O → Type 0} (m : M O A) → ((o : O) → I o → J o) → Leads J K m Q → Leads I K m Q
  Leads-start m less g = record { at = λ s s' a i e. g.at s s' a (less s.object i) e }

  pub Leads-end :
      {L : O → Type 0} {R : A → Type 0} (m : M O A)
      → Leads J K m Q
      → ((a : A) (o : O) → Q a → K o → R a × L o)
      → Leads J L m R
  Leads-end m g more = record {
    at = λ s s' a j e. let (q, k) = g.at s s' a j e in more a s'.object q k;
  }

  pub Leads-if :
      (b : Bool) (m n : M O A)
      → (b ≡ true → Leads J K m Q)
      → (b ≡ false → Leads J K n Q)
      → Leads J K (if b then m else n) Q
  Leads-if true m n first second = first refl
  Leads-if false m n first second = second refl

  -- The object is known where it is read.
  pub Leads-here :
      (f : O → M O A) → ((o : O) → J o → Leads (λ x. x ≡ o) K (f o) Q) → Leads J K (current >>= f) Q
  unfolding ◌>>=◌
  Leads-here f k = record { at = λ s s' v j e. (k s.object j).at s s' v refl e }

module _ {O A : Type 0} {J K : O → Type 0} {Q : A → Type 0} where
  pub Leads-pure : (a : A) → ((o : O) → J o → K o) → Q a → Leads J K (pure a) Q
  Leads-pure a more q =
      Leads-end (pure a) (Leads-Gives _ (Gives-pure {Q = Q} a q)) (λ b o r j. (r, more o j))

  pub Leads-fail : (x : Err) → Leads J K (fail x) Q
  unfolding ◌>>=◌
  Leads-fail x = record { at = λ s s' v j e. absurd (ground arith) }

module _ {O A B : Type 0} {J K L : O → Type 0} where
  pub Leads-bind :
      {R : A → Type 0} {Q : B → Type 0} (m : M O A) (f : A → M O B)
      → Leads J K m R
      → ((a : A) → R a → Leads K L (f a) Q)
      → Leads J L (m >>= f) Q
  Leads-bind m f first rest = record {
    at = λ s s' v j e.
        let (a, t, got, q) = bind-next m f s s' v e in
        let (r, k) = first.at s t a j got in (rest a r).at t s' v k q;
  }

module _ {O A B : Type 0} {J L : O → Type 0} where
  pub Leads-then :
      {R : A → Type 0} {Q : B → Type 0} (m : M O A) (f : A → M O B)
      → Gives J m R
      → ((a : A) → R a → Leads J L (f a) Q)
      → Leads J L (m >>= f) Q
  Leads-then m f first rest = record {
    at = λ s s' v j e.
        let (a, t, got, q) = bind-next m f s s' v e in
        let (r, k) = first.at s t a j got in (rest a r).at t s' v k q;
  }
