-- ===== src/Bindings/Validation/Providers.antt =====
-- The providers that the validation of a binding accepts.
use kflared.Base.{
  All, ◌≡◌, arith, Bool, true, false, not, ◌||◌, some, List, String, Text, text_eq, ◌==◌,
}
use kflared.Errors.{ok}
use kflared.Api.{CloudflareTunnelBinding, ClusterCloudflareProvider}
use kflared.Kube.{Namespace}
use kflared.Platform.{Platform, History, State, get_provider, get_namespace, list_bindings}
use kflared.Conditions.{status_is_true}
use kflared.Settings.{Settings}
use kflared.PrivateRoutes.Validation.{selects_namespace}
use kflared.Bindings.Winners.{takes_gateway, first_gateway_winner, gateway_winner}
use kflared.Bindings.Winners.Nobody.{first_gateway_winner-none}
use kflared.Bindings.Origin.{proceed}
use kflared.Bindings.Validation.{
  provider_says, check_gateway_winner, check_namespace, check_provider, validate_cluster_provider,
}
use kflared.Bindings.Validation.Proceeds.{
  Proceeds, reject-Stops, fail-Stops, past_if, past_ifs, past_current, past_option, after, went_on,
}
use kflared.Bindings.Validation.Proceeds.Calls.{past_read, past_call, past_choice}

abbrev Binding : Type 0
Binding = CloudflareTunnelBinding

abbrev Provider : Type 0
Provider = ClusterCloudflareProvider

unnegated : (b : Bool) → not b ≡ false → b ≡ true
unnegated b h = ground arith

both_yes : (a b : Bool) → (not a || not b) ≡ false → (a ≡ true) × (b ≡ true)
both_yes a b h = (ground arith, ground arith)

same_text : (s t : Text) → not (s == t) ≡ false → s ≡ t
same_text s t h = ground arith

module _ (p : Platform) (r : Settings) where
  -- Some answer shows bindings among which nobody takes the Gateway from this one.
  abbrev pub IsFree : Binding → Type 0
  IsFree b =
      (h : History) × (bs : List Binding) × (p.answer h (list_bindings (some b.namespace)) ≡ ok bs)
      × All (λ other. takes_gateway r b other ≡ false) bs

  -- Some answer shows the binding's namespace, and the provider selects it.
  abbrev pub IsSelected : Binding → Provider → Type 0
  IsSelected b provider =
      (h : History) × (ns : Namespace) × (p.answer h (get_namespace b.namespace) ≡ ok ns)
      × (selects_namespace p provider ns ≡ true)

  abbrev pub IsReady : Provider → String → Type 0
  IsReady provider type = provider_says p r provider (λ c. status_is_true c.status) type ≡ true

  -- What is known of the provider of a binding whose validation went on.
  pub record IsEligible (b : Binding) (provider : Provider) : Type 0 where
    pub found : (h : History) × (p.answer h (get_provider b.spec.provider_ref) ≡ ok provider)
    pub controller : provider.spec.controller ≡ b.spec.controller
    pub accepted : IsReady provider "Accepted"
    pub credentials_valid : IsReady provider "CredentialsValid"
    pub selected : IsSelected b provider
    pub free : IsFree b

  check_gateway_winner_sound :
      (provider a : Provider) (s s' : State Binding)
      → Proceeds (check_gateway_winner p r provider) s a s'
      → (provider ≡ a) × (s'.object ≡ s.object) × IsFree s.object
  unfolding check_gateway_winner gateway_winner
  check_gateway_winner_sound provider a s s' e =
      let e₁ = past_current _ s s' a e in
      let (bs, got, e₂) =
        past_choice p (list_bindings (some s.object.namespace)) (first_gateway_winner r s.object) _
          s s' a e₁ in
      let (free, e₃) = past_option _ _ _ _ s' a (λ other. reject-Stops p _ _ _) e₂ in
      let (same, kept) = went_on provider a _ s' e₃ in
      (same, kept, (s.log, bs, got, (first_gateway_winner-none r s.object bs).0 free))

  check_namespace_sound :
      (provider a : Provider) (s s' : State Binding)
      → Proceeds (check_namespace p r provider) s a s'
      → (provider ≡ a) × (s'.object ≡ s.object) × IsSelected s.object provider × IsFree s.object
  unfolding check_namespace
  check_namespace_sound provider a s s' e =
      let e₁ = past_current _ s s' a e in
      let (ns, got, e₂) = past_call p (get_namespace s.object.namespace) _ s s' a e₁ in
      let (selected, e₃) = past_if _ _ _ _ s' a (reject-Stops p _ _ _) e₂ in
      let (same, kept, free) = check_gateway_winner_sound provider a _ s' e₃ in
      (same, kept, (s.log, ns, got, unnegated _ selected), free)

  check_provider_sound :
      (provider a : Provider) (s s' : State Binding)
      → (h : History) × (p.answer h (get_provider s.object.spec.provider_ref) ≡ ok provider)
      → Proceeds (check_provider p r provider) s a s'
      → (s'.object ≡ s.object) × IsEligible s.object a
  unfolding check_provider
  check_provider_sound provider a s s' found e =
      let e₁ = past_current _ s s' a e in
      let (mine, good, known, e₄) =
        past_ifs _ _ _ _ _ _ (check_namespace p r provider) s s' a (reject-Stops p _ _ _)
          (reject-Stops p _ _ _) (fail-Stops _) e₁ in
      let (same, kept, selected, free) = check_namespace_sound provider a s s' e₄ in
      (
        kept,
        rw (← same) (record {
          found = found;
          controller = same_text _ _ mine;
          accepted = (both_yes _ _ known).0;
          credentials_valid = (both_yes _ _ known).1;
          selected = selected;
          free = free;
        }),
      )

  -- If the check of the provider lets a run go on, with this provider: the object in memory is the
  -- one before; an answer shows the provider under the name that the binding gives; it has the
  -- binding's controller class; it is Accepted and CredentialsValid at its generation; an answer
  -- shows the binding's namespace, which the provider selects; and an answer shows bindings of that
  -- namespace among which none takes the Gateway from this one.
  pub validate_cluster_provider_sound :
      (s s' : State Binding) (provider : Provider)
      → validate_cluster_provider p r s ≡ (ok (proceed provider), s')
      → (s'.object ≡ s.object) × IsEligible s.object provider
  unfolding validate_cluster_provider
  validate_cluster_provider_sound s s' a e =
      let e₁ = past_current _ s s' a e in
      let (provider, got, e₂) =
        past_read p (get_provider s.object.spec.provider_ref) _ _ s s' a (λ x. reject-Stops p _ _ _)
          e₁ in
      check_provider_sound provider a (after p s _ _) s' (s.log, got) e₂
