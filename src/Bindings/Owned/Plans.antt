-- ===== src/Bindings/Owned/Plans.antt =====
-- Ownership in `validateAndPlan`.
use kflared.Base.{text_eq, some, List, [], ◌∷◌, Text}
use kflared.Api.{CloudflareTunnelBinding, ClusterCloudflareProvider}
use kflared.Kube.{Gateway, GatewayClass, NamespacedName, Service}
use kflared.Platform.{Platform, M, pure}
use kflared.Platform.Keeps.{Keeps, Keeps-bind, Keeps-if, Keeps-option, Keeps-pure}
use kflared.Settings.{Settings}
use kflared.Bindings.Winners.{
  is_passed, first_taken, gateway_winner, accepted_route_hostnames, candidate_hostnames,
  other_hostnames, first_hostname_winner, hostname_winner,
}
use kflared.Bindings.Status.{}
use kflared.Bindings.Origin.{
  Step, stop, proceed, on_step, origin_reference_permitted, check_service, read_service,
  validate_service, check_gateway, read_class, validate_origin_service,
}
use kflared.Bindings.Validation.{
  Plan, check_gateway_winner, check_namespace, check_provider, validate_cluster_provider,
  check_hostname_winner, plan_hostnames, plan_routes, validate_and_plan,
}
use kflared.Bindings.Reconcile.{}
use kflared.Bindings.Owned.{managing, HasUid, KeepsBindingUid}
use kflared.Bindings.Owned.Steps.{owns_rules, reject-Owns}

abbrev Binding : Type 0
Binding = CloudflareTunnelBinding

module _ (p : Platform) (server : KeepsBindingUid p) (uid : Text) where
  abbrev Owns : {A : Type 0} → M Binding A → Type 0
  Owns m = Keeps (managing uid) (HasUid uid) m

  gateway_winner-Owns : (r : Settings) (b : Binding) → Owns (gateway_winner p r b)
  unfolding gateway_winner
  gateway_winner-Owns r b = search owns_rules

  accepted-Owns : (b : Binding) → Owns (accepted_route_hostnames p b)
  unfolding accepted_route_hostnames
  accepted-Owns b = search owns_rules

  other-Owns : (b : Binding) → Owns (other_hostnames p b)
  unfolding other_hostnames candidate_hostnames
  other-Owns b = search (owns_rules, accepted-Owns) depth 15

  first_winner-Owns :
      (b : Binding) (hostnames : List Text) (others : List Binding)
      → Owns (first_hostname_winner p b hostnames others)
  unfolding first_hostname_winner
  first_winner-Owns b hostnames [] = search owns_rules
  first_winner-Owns b hostnames (other ∷ others) =
      let rest = first_winner-Owns b hostnames others in
      Keeps-if (is_passed b other) (first_hostname_winner p b hostnames others) _ (λ _. rest)
        λ _. Keeps-bind (other_hostnames p other) _ (other-Owns other) λ taken.
          Keeps-option (first_taken hostnames taken) (first_hostname_winner p b hostnames others)
            (λ hostname. pure (some (other, hostname))) rest (λ hostname. Keeps-pure _)

  hostname_winner-Owns :
      (b : Binding) (hostnames : List Text) → Owns (hostname_winner p b hostnames)
  unfolding hostname_winner
  hostname_winner-Owns b hostnames = search (owns_rules, first_winner-Owns) depth 12

  origin_permitted-Owns :
      (b : Binding) (namespace : Text) → Owns (origin_reference_permitted p b namespace)
  unfolding origin_reference_permitted
  origin_permitted-Owns b namespace = search owns_rules

  check_service-Owns : (b : Binding) (service : Service) → Owns (check_service p b service)
  unfolding check_service
  check_service-Owns b service = search (owns_rules, reject-Owns) depth 12

  read_service-Owns : (b : Binding) (key : NamespacedName) → Owns (read_service p b key)
  unfolding read_service
  read_service-Owns b key = search (owns_rules, reject-Owns, check_service-Owns) depth 12

  validate_service-Owns : (b : Binding) (namespace : Text) → Owns (validate_service p b namespace)
  unfolding validate_service
  validate_service-Owns b namespace =
      search (owns_rules, reject-Owns, origin_permitted-Owns, read_service-Owns) depth 12

  check_gateway-Owns :
      (b : Binding) (gateway : Gateway) (class : GatewayClass)
      → Owns (check_gateway p b gateway class)
  unfolding check_gateway
  check_gateway-Owns b gateway class =
      search (owns_rules, reject-Owns, validate_service-Owns) depth 12

  origin-Owns : Owns (validate_origin_service p)
  unfolding validate_origin_service read_class
  origin-Owns = search (owns_rules, reject-Owns, check_gateway-Owns) depth 15

  check_provider-Owns :
      (r : Settings) (provider : ClusterCloudflareProvider) → Owns (check_provider p r provider)
  unfolding check_provider check_namespace check_gateway_winner
  check_provider-Owns r provider = search (owns_rules, reject-Owns, gateway_winner-Owns) depth 20

  provider-Owns : (r : Settings) → Owns (validate_cluster_provider p r)
  unfolding validate_cluster_provider
  provider-Owns r = search (owns_rules, reject-Owns, check_provider-Owns) depth 12

  plan_hostnames-Owns : (r : Settings) (plan : Plan) → Owns (plan_hostnames p r plan)
  unfolding plan_hostnames check_hostname_winner
  plan_hostnames-Owns r plan = search (owns_rules, reject-Owns, hostname_winner-Owns) depth 15

  plan_routes-Owns :
      (r : Settings) (provider : ClusterCloudflareProvider) (origin : Text)
      → Owns (plan_routes p r provider origin)
  unfolding plan_routes
  plan_routes-Owns r provider origin =
      search (owns_rules, reject-Owns, accepted-Owns, plan_hostnames-Owns) depth 12

  on_step-Owns :
      {A B : Type 0} (x : Step A) (f : A → M Binding (Step B))
      → ((a : A) → Owns (f a))
      → Owns (on_step x f)
  on_step-Owns (stop o) f k = Keeps-pure _
  on_step-Owns (proceed a) f k = k a

  pub plan-Owns : (r : Settings) → Owns (validate_and_plan p r)
  unfolding validate_and_plan
  plan-Owns r = Keeps-bind _ _ (provider-Owns r) λ x.
      on_step-Owns x _
        λ provider. Keeps-bind _ _ origin-Owns λ y. on_step-Owns y _ (plan_routes-Owns r provider)
