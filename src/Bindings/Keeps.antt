-- ===== src/Bindings/Keeps.antt =====
-- Invariants of the helpers that the binding reconciler's functions share.
use kflared.Base.{String}
use kflared.Api.{CloudflareTunnelBinding}
use kflared.Platform.{M}
use kflared.Platform.Keeps.{
  Policy, Keeps, keeps_rules, Keeps-bind, Keeps-attempt, Keeps-result, Keeps-fail, Keeps-pure,
}
use kflared.Bindings.Children.{ignoring_not_found}
use kflared.Bindings.Finalize.{wrapping}

abbrev Binding : Type 0
Binding = CloudflareTunnelBinding

module _ {policy : Policy} {J : Binding → Type 0} where
  pub ignoring-Keeps :
      (m : M Binding (Unit {0})) → Keeps policy J m → Keeps policy J (ignoring_not_found m)
  unfolding ignoring_not_found
  ignoring-Keeps m k =
      Keeps-bind _ _ (Keeps-attempt m k)
        λ found. Keeps-result found _ _ (λ e. search keeps_rules) (λ a. Keeps-pure a)

  pub wrapping-Keeps :
      {A : Type 0} (text : String) (m : M Binding A)
      → Keeps policy J m
      → Keeps policy J (wrapping text m)
  unfolding wrapping
  wrapping-Keeps text m k =
      Keeps-bind _ _ (Keeps-attempt m k)
        λ found. Keeps-result found _ _ (λ e. Keeps-fail _) (λ a. Keeps-pure a)
