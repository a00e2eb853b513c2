-- ===== src/Bindings/Validation/Plans.antt =====
-- The plans that the validation of a binding makes.
use kflared.Base.{
  ◌≡◌, ◌≢◌, refl, ◌∙◌, ap, arith, ◌⊎◌, inl, inr, false, not, List, [], ◌∷◌, Text, text_eq, ◌==◌,
}
use kflared.Errors.{ok}
use kflared.Api.{CloudflareTunnelBinding, ClusterCloudflareProvider}
use kflared.Kube.{HttpRoute}
use kflared.Platform.{Platform, History, State, ◌>>=◌, list_http_routes}
use kflared.Settings.{Settings}
use kflared.Planner.Zones.{normalize_zones}
use kflared.Planner.Hostnames.{normalize_hostnames}
use kflared.Bindings.Winners.{accepted_hostnames, accepted_route_hostnames, hostname_winner}
use kflared.Bindings.Winners.Nobody.{IsClear, hostname_winner-none}
use kflared.Bindings.Status.{no_hostnames}
use kflared.Bindings.Origin.{proceed, on_step, validate_origin_service}
use kflared.Bindings.Validation.{
  Plan, check_hostname_winner, plan_hostnames, plan_routes, validate_cluster_provider,
  validate_and_plan,
}
use kflared.Bindings.Validation.Proceeds.{
  Proceeds, reject-Stops, either_if, past_if, past_current, past_result, past_option, went_on,
}
use kflared.Bindings.Validation.Proceeds.Calls.{past_choice, past_step, past_bind}
use kflared.Bindings.Validation.Providers.{IsEligible, validate_cluster_provider_sound}
use kflared.Bindings.Validation.Origins.{
  IsExposed, IsPermitted, IsServed, validate_origin_service_sound,
}

abbrev Binding : Type 0
Binding = CloudflareTunnelBinding

module _ (p : Platform) (r : Settings) where
  -- There are no hostnames and there is a tunnel to take them from, or the bindings of an answer all
  -- leave the hostnames free.
  abbrev pub IsUnclaimed : Binding → Plan → Type 0
  IsUnclaimed b plan =
      ((plan.hostnames ≡ []) × (b.status.tunnel_id ≢ [])) ⊎ IsClear p b plan.hostnames

  -- The hostnames are what the provider's zones leave of those of the accepted routes that an answer
  -- shows.
  pub record IsPublished (b : Binding) (plan : Plan) : Type 0 where
    pub routes : List HttpRoute
    pub zones : List Text
    pub listed : (h : History) × (p.answer h (list_http_routes b.namespace) ≡ ok routes)
    pub normalized : normalize_zones p.is_subdomain plan.provider.spec.allowed_dns_zones ≡ ok zones
    pub planned :
        plan.hostnames
        ≡ (normalize_hostnames p.is_subdomain (accepted_hostnames p b routes) zones).0
    pub unclaimed : IsUnclaimed b plan

  pub record IsValid (b : Binding) (plan : Plan) : Type 0 where
    pub eligible : IsEligible p r b plan.provider
    pub exposed : IsExposed p b
    pub permitted : IsPermitted p b
    pub served : IsServed p b plan.origin
    pub published : IsPublished b plan

  no_hostnames-nil : (hostnames : List Text) → not (no_hostnames hostnames) ≡ false → hostnames ≡ []
  no_hostnames-nil [] h = refl
  no_hostnames-nil (x ∷ hostnames) h = absurd (ground arith)

  differs : (s t : Text) → (s == t) ≡ false → s ≢ t
  differs s t h e = ground arith

  plan_hostnames_sound :
      (plan a : Plan) (s s' : State Binding)
      → Proceeds (plan_hostnames p r plan) s a s'
      → (plan ≡ a) × IsUnclaimed s.object plan
  unfolding plan_hostnames check_hostname_winner
  plan_hostnames_sound plan a s s' e =
      elim (either_if (not (no_hostnames plan.hostnames)) (check_hostname_winner p r plan) _ s s' a
        (past_current _ s s' a e)) [
          | inl (some_host, e₁) ↦
              let (winner, t, found, e₂) =
                past_bind (hostname_winner p s.object plan.hostnames) _ s s' a
                  (past_current _ s s' a e₁) in
              let (nobody, e₃) = past_option winner _ _ t s' a (λ v. reject-Stops p _ _ _) e₂ in
              (
                (went_on plan a t s' e₃).0,
                inr (
                    hostname_winner-none p s.object plan.hostnames s t
                      (found ∙ ap (λ o. (ok o, t)) nobody)),
              )
          | inr (none_left, e₁) ↦
              let (tunnel, e₂) = past_if _ _ _ s s' a (reject-Stops p _ _ _) e₁ in
              ((went_on plan a s s' e₂).0, inl (no_hostnames-nil _ none_left, differs _ _ tunnel))
        ]

  plan_routes_sound :
      (provider : ClusterCloudflareProvider) (origin : Text) (a : Plan) (s s' : State Binding)
      → Proceeds (plan_routes p r provider origin) s a s'
      → (provider ≡ a.provider) × (origin ≡ a.origin) × IsPublished s.object a
  unfolding plan_routes accepted_route_hostnames
  plan_routes_sound provider origin a s s' e =
      let (routes, got, e₁) =
        past_choice p (list_http_routes s.object.namespace) (accepted_hostnames p s.object) _ s s' a
          (past_current _ s s' a e) in
      let (zones, normalized, e₂) = past_result _ _ _ _ s' a (λ x. reject-Stops p _ _ _) e₁ in
      let (same, unclaimed) = plan_hostnames_sound _ a _ s' e₂ in
      rw (← same) (
        refl,
        refl,
        record {
          routes = routes;
          zones = zones;
          listed = (s.log, got);
          normalized = normalized;
          planned = refl;
          unclaimed = unclaimed;
        },
      )

  checked_plan :
      (provider : ClusterCloudflareProvider) (origin : Text) (b : Binding) (t : State Binding)
      (plan : Plan)
      → t.object ≡ b
      → IsEligible p r b provider
      → IsExposed p b × IsPermitted p b × IsServed p b origin
      → (provider ≡ plan.provider) × (origin ≡ plan.origin) × IsPublished t.object plan
      → IsValid b plan
  checked_plan provider origin b t plan kept eligible (exposed, permitted, served)
        (same, url, published) =
      record {
        eligible = rw (← same) eligible;
        exposed = exposed;
        permitted = permitted;
        served = rw (← url) served;
        published = rw (← kept) published;
      }

  planned_origin :
      (provider : ClusterCloudflareProvider) (b : Binding) (t s' : State Binding) (plan : Plan)
      → t.object ≡ b
      → IsEligible p r b provider
      → Proceeds
          (validate_origin_service p >>= λ found. on_step found (plan_routes p r provider))
          t
          plan
          s'
      → IsValid b plan
  planned_origin provider b t s' plan kept eligible e =
      let (origin, u, found, e₁) =
        past_step (validate_origin_service p) (plan_routes p r provider) t s' plan e in
      let (same, exposed, permitted, served) = validate_origin_service_sound p t u origin found in
      checked_plan provider origin b u plan (same ∙ kept) eligible
        (rw (← kept) exposed, rw (← kept) permitted, rw (← kept) served)
        (plan_routes_sound provider origin plan u s' e₁)

  -- Where a validation of a binding makes a plan, the platform's answers show that the binding may be
  -- published as planned: the provider exists, is of the binding's controller class, is accepted and
  -- has valid credentials, and selects the binding's namespace; none of the listed bindings takes the
  -- Gateway from this one; the Gateway is Traefik's and ready; the Service is found, permitted, of
  -- type ClusterIP, and at the planned URL; the planned hostnames are those of the accepted routes
  -- that the provider's zones leave; and each of the listed bindings is passed over by the search for
  -- winners or has none of these hostnames, or there are no hostnames and the binding has a tunnel.
  pub validate_and_plan_sound :
      (s s' : State Binding) (plan : Plan)
      → validate_and_plan p r s ≡ (ok (proceed plan), s')
      → IsValid s.object plan
  unfolding validate_and_plan
  validate_and_plan_sound s s' plan e =
      let (provider, t, checked, e₁) =
        past_step (validate_cluster_provider p r)
          (λ provider.
            validate_origin_service p >>= λ found. on_step found (plan_routes p r provider))
          s s' plan e in
      let (kept, eligible) = validate_cluster_provider_sound p r s t provider checked in
      planned_origin provider s.object t s' plan kept eligible e₁
