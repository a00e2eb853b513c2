-- ===== src/PrivateRoutes/Validation/Accepted.antt =====
-- The private routes that `validate` accepts.
use kflared.Base.{
  ◌≡◌, refl, arith, inl, inr, ℕ, Bool, true, false, not, ◌||◌, some, List, String, Text, text_eq,
  ◌==◌, if◌then◌else◌,
}
use kflared.Errors.{ok, is_not_found}
use kflared.Api.{CloudflareTunnelPrivateRoute, ClusterCloudflareProvider}
use kflared.Kube.{Service}
use kflared.Platform.{
  Platform, Call, Reply, History, State, M, ◌>>=◌, pure, fail, attempt, perform, on_result,
  get_provider, get_namespace, get_service, list_grants, list_routes,
}
use kflared.Platform.Chains.{
  asked, call-first, choice-first, read-first, if-first, option-first, result-first, fail-first,
}
use kflared.Platform.Gives.{Once}
use kflared.References.{private_service_namespace, resolve_service_port}
use kflared.Addresses.{parse_ipv4, is_unspecified, host_prefix}
use kflared.PrivateRoutes.Validation.{
  Validation, rejected, valid, any_grant_permits, private_route_conflicts, is_cluster_ip,
  validate_address, check_service, validate_service, selects_namespace, validate_target,
  validate_namespace, check_provider, validate,
}
use kflared.PrivateRoutes.Validation.Acceptable.{
  IsReachable, IsPermitted, IsSelected, IsAcceptable, any_conflict-none,
}

abbrev Route : Type 0
Route = CloudflareTunnelPrivateRoute

abbrev Provider : Type 0
Provider = ClusterCloudflareProvider

unnegated : (b : Bool) → not b ≡ false → b ≡ true
unnegated b h = ground arith

both_yes : (a b : Bool) → (not a || not b) ≡ false → (a ≡ true) × (b ≡ true)
both_yes a b h = (ground arith, ground arith)

same_text : (s t : Text) → not (s == t) ≡ false → s ≡ t
same_text s t h = ground arith

equal_text : (s t : Text) → (s == t) ≡ true → s ≡ t
equal_text s t h = ground arith

-- The validation goes on with this provider and this network.
abbrev pub Accepts : M Route Validation → State Route → Provider → Text → State Route → Type 0
Accepts m s provider network s' = m s ≡ (ok (valid provider network), s')

reject-Accepts :
    (reason : String) (s s' : State Route) (provider : Provider) (network : Text)
    → ¬ Accepts (pure (rejected reason)) s provider network s'
unfolding ◌>>=◌
reject-Accepts reason s s' provider network e = ground arith

module _ (p : Platform) (route : Route) (q : Provider) (network : Text) where
  abbrev Reachable : Type 0
  Reachable = IsReachable p (Once p) route network

  past_if :
      (b : Bool) (reason : String) (n : M Route Validation) (s s' : State Route)
      → Accepts (if b then pure (rejected reason) else n) s q network s'
      → (b ≡ false) × Accepts n s q network s'
  past_if true reason n s s' e = absurd (reject-Accepts reason s s' q network e)
  past_if false reason n s s' e = (refl, e)

  -- A read after which an object that is not found is a reason to reject.
  past_read :
      (c : Call) (reason : String) (g : Reply c → M Route Validation) (s s' : State Route)
      → Accepts
          (attempt (perform p c) >>= λ found.
            on_result found (λ e. if is_not_found e then pure (rejected reason) else fail e) g)
          s
          q
          network
          s'
      → (v : Reply c) × (p.answer s.log c ≡ ok v) × Accepts (g v) (asked p s c) q network s'
  past_read c reason g s s' e = elim (read-first p c _ g s s' _ e) [
    | inl found ↦ found
    | inr (x, missing, e₁) ↦
        absurd (fail-first x _ _ s' (past_if (is_not_found x) reason (fail x) _ s' e₁).1)
  ]

  chosen :
      (b : Bool) (provider : Provider) (n : Text) (s s' : State Route)
      → Accepts (pure (if b then rejected "RouteConflict" else valid provider n)) s q network s'
      → (b ≡ false) × (provider ≡ q) × (n ≡ network)
  unfolding ◌>>=◌
  chosen true provider n s s' e = absurd (ground arith)
  chosen false provider n s s' e = (refl, ground arith, ground arith)

  -- The port is found, and the listed routes leave the network free.
  address-accepted :
      (provider : Provider) (service : Service) (ip : List ℕ) (s s' : State Route)
      → Accepts
          (validate_address p route provider (private_service_namespace route) service ip)
          s
          q
          network
          s'
      → (h : History)
      → p.answer h (
          get_service (record {
            namespace = private_service_namespace route;
            name = route.spec.service_ref.name;
          }))
        ≡ ok service
      → is_cluster_ip p service ≡ true
      → parse_ipv4 service.cluster_ip ≡ some ip
      → is_unspecified ip ≡ false
      → (provider ≡ q) × Reachable
  unfolding validate_address private_route_conflicts
  address-accepted provider service ip s s' e h found cluster_ip parsed specified =
      elim (result-first (resolve_service_port service route.spec.service_ref.port) _ _ s s' _ e) [
        | inr (x, no_port, e₁) ↦ absurd (reject-Accepts _ s s' q network e₁)
        | inl (port, resolved, e₁) ↦
            let (others, got, e₂) = choice-first p list_routes _ _ s s' _ e₁ in
            let (free, same, named) = chosen _ provider (host_prefix ip) _ s' e₂ in
            (
              same,
              record {
                service = service;
                ip = ip;
                port = port;
                others = others;
                found = (h, found);
                cluster_ip = cluster_ip;
                parsed = parsed;
                specified = specified;
                resolved = resolved;
                listed = (s.log, got);
                free = rw (← named) (any_conflict-none route _ _ _ others free);
                named = named;
              },
            )
      ]

  service-accepted :
      (provider : Provider) (s s' : State Route)
      → Accepts (validate_service p route provider (private_service_namespace route)) s q network s'
      → (provider ≡ q) × Reachable
  unfolding validate_service check_service
  service-accepted provider s s' e =
      let (service, found, e₁) = past_read (get_service _) _ _ s s' e in
      let (cluster_ip, e₂) = past_if (not (is_cluster_ip p service)) _ _ _ s' e₁ in
      elim (option-first (parse_ipv4 service.cluster_ip) _ _ _ s' _ e₂) [
        | inl (bad, e₃) ↦ absurd (reject-Accepts _ _ s' q network e₃)
        | inr (ip, parsed, e₃) ↦
            let (specified, e₄) = past_if (is_unspecified ip) _ _ _ s' e₃ in
            address-accepted provider service ip _ s' e₄ s.log found (unnegated _ cluster_ip) parsed
              specified
      ]

  target-accepted :
      (provider : Provider) (s s' : State Route)
      → Accepts (validate_target p route provider (private_service_namespace route)) s q network s'
      → (provider ≡ q) × IsPermitted p (Once p) route × Reachable
  unfolding validate_target
  target-accepted provider s s' e =
      elim (if-first (private_service_namespace route == route.namespace) _ _ s s' _ e) [
        | inl (here, e₁) ↦
            let (same, reachable) = service-accepted provider s s' e₁ in
            (same, inl (equal_text _ _ here), reachable)
        | inr (elsewhere, e₁) ↦
            let (grants, got, e₂) =
              call-first p (list_grants (private_service_namespace route)) _ s s' _ e₁ in
            elim (if-first (any_grant_permits grants route) _ _ _ s' _ e₂) [
              | inl (permits, e₃) ↦
                  let (same, reachable) = service-accepted provider _ s' e₃ in
                  (same, inr (grants, (s.log, got), permits), reachable)
              | inr (no', e₃) ↦ absurd (reject-Accepts _ _ s' q network e₃)
            ]
      ]

  namespace-accepted :
      (provider : Provider) (s s' : State Route)
      → Accepts (validate_namespace p route provider) s q network s'
      → (provider ≡ q)
        × IsSelected p (Once p) route provider
        × IsPermitted p (Once p) route
        × Reachable
  unfolding validate_namespace
  namespace-accepted provider s s' e =
      let (ns, got, e₁) = call-first p (get_namespace route.namespace) _ s s' _ e in
      let (selected, e₂) = past_if (not (selects_namespace p provider ns)) _ _ _ s' e₁ in
      let (same, permitted, reachable) = target-accepted provider _ s' e₂ in
      let found : IsSelected p (Once p) route provider = record {
        ns = ns;
        found = (s.log, got);
        selected = unnegated _ selected;
      } in
      (same, found, permitted, reachable)

  -- Where the validation of a private route accepts it, the platform's answers show why it may.
  pub validate_accepted :
      (s s' : State Route)
      → validate p route s ≡ (ok (valid q network), s')
      → IsAcceptable p (Once p) route q network
  unfolding validate check_provider
  validate_accepted s s' e =
      let (provider, got, e₁) = past_read (get_provider route.spec.provider_ref) _ _ s s' e in
      let (class, e₂) =
        past_if (not (provider.spec.controller == route.spec.controller)) _ _ _ s' e₁ in
      let (ready, e₃) = past_if (not _ || not _) _ _ _ s' e₂ in
      let (same, selected, permitted, reachable) = namespace-accepted provider _ s' e₃ in
      let (accepted, credentials) = both_yes _ _ ready in
      rw (← same) (record {
        found = (s.log, got);
        controller = same_text _ _ class;
        accepted = accepted;
        credentials_valid = credentials;
        selected = selected;
        permitted = permitted;
        reachable = reachable;
      })
