-- ===== src/Platform/Holds.antt =====
-- What the steps of a run that succeeds keep of the object in memory: postconditions of which nothing
-- is said but that.
use kflared.Base.{Bool, Option, if◌then◌else◌}
use kflared.Errors.{Err, Result}
use kflared.Platform.{
  Platform, Call, M, ◌>>=◌, pure, fail, lift, attempt, current, perform, on_result, on_option,
}
use kflared.Platform.Gives.{
  Gives, Anything, Gives-pure, Gives-fail, Gives-lift, Gives-if, Gives-current, Gives-weaken,
  Gives-bind, Gives-result, Gives-option, Gives-perform, Gives-answer,
}

abbrev pub Holds : {O A : Type 0} → (O → Type 0) → M O A → Type 0
Holds J m = Gives J m Anything

module _ {O A : Type 0} {J : O → Type 0} where
  pub Holds-pure : (a : A) → Holds J (pure a)
  Holds-pure a = Gives-pure a tt

  pub Holds-fail : (x : Err) → Holds {A = A} J (fail x)
  Holds-fail x = Gives-fail x

  pub Holds-lift : (r : Result A) → Holds J (lift r)
  Holds-lift r = Gives-lift r (λ _ _. tt)

  pub Holds-if : (b : Bool) (m n : M O A) → Holds J m → Holds J n → Holds J (if b then m else n)
  Holds-if b m n first second = Gives-if b m n (λ _. first) (λ _. second)

  pub Holds-current : (f : O → M O A) → ((o : O) → J o → Holds J (f o)) → Holds J (current >>= f)
  Holds-current f k = Gives-current f k

  pub Holds-weaken : {Q : A → Type 0} (m : M O A) → Gives J m Q → Holds J m
  Holds-weaken m g = Gives-weaken m g (λ _ _. tt)

module _ {O A B : Type 0} {J : O → Type 0} where
  pub Holds-bind :
      (m : M O A) (f : A → M O B) → Holds J m → ((a : A) → Holds J (f a)) → Holds J (m >>= f)
  Holds-bind m f first rest = Gives-bind m f first (λ a _. rest a)

  pub Holds-result :
      (r : Result A) (f : Err → M O B) (g : A → M O B)
      → ((x : Err) → Holds J (f x))
      → ((a : A) → Holds J (g a))
      → Holds J (on_result r f g)
  Holds-result r f g bad good = Gives-result r f g (λ x _. bad x) (λ a _. good a)

  pub Holds-option :
      (o : Option A) (m : M O B) (f : A → M O B)
      → Holds J m
      → ((a : A) → Holds J (f a))
      → Holds J (on_option o m f)
  Holds-option o m f nothing something = Gives-option o m f (λ _. nothing) (λ a _. something a)

module _ (p : Platform) {O : Type 0} {J : O → Type 0} where
  pub Holds-perform : (c : Call) → Holds J (perform p c)
  Holds-perform c = Holds-weaken _ (Gives-perform p c)

  pub Holds-answer : (c : Call) → Holds J (attempt (perform p c))
  Holds-answer c = Holds-weaken _ (Gives-answer p c)

pub ruleset holds_rules = (
  Holds-pure, Holds-fail, Holds-lift, Holds-if, Holds-current, Holds-bind, Holds-result,
  Holds-option, Holds-perform, Holds-answer,
)
