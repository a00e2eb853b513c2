-- ===== src/Bindings/Settled/Plans.antt =====
-- The validation of a binding, which changes the object only in its status.
use kflared.Base.{text_eq, some, List, [], ◌∷◌, Text}
use kflared.Api.{CloudflareTunnelBinding, ClusterCloudflareProvider}
use kflared.Kube.{Gateway, GatewayClass, NamespacedName, Service}
use kflared.Platform.{Platform, M, pure}
use kflared.Platform.Keeps.{Keeps, Keeps-bind, Keeps-if, Keeps-option, Keeps-pure}
use kflared.Settings.{Settings}
use kflared.Bindings.Winners.{
  is_passed, first_taken, gateway_winner, accepted_route_hostnames, candidate_hostnames,
  other_hostnames, first_hostname_winner, hostname_winner,
}
use kflared.Bindings.Status.{}
use kflared.Bindings.Origin.{
  Step, stop, proceed, on_step, origin_reference_permitted, check_service, read_service,
  validate_service, check_gateway, read_class, validate_origin_service,
}
use kflared.Bindings.Validation.{
  Plan, check_gateway_winner, check_namespace, check_provider, validate_cluster_provider,
  check_hostname_winner, plan_hostnames, plan_routes, validate_and_plan,
}
use kflared.Bindings.Settled.{IsSettled, KeepsSpec, anything, settles_rules, reject-Settles}

abbrev Binding : Type 0
Binding = CloudflareTunnelBinding

module _ (p : Platform) (server : KeepsSpec p) (b : Binding) where
  abbrev Settles : {A : Type 0} → M Binding A → Type 0
  Settles m = Keeps anything (IsSettled b) m

  gateway_winner-Settles : (r : Settings) (c : Binding) → Settles (gateway_winner p r c)
  unfolding gateway_winner
  gateway_winner-Settles r c = search settles_rules

  accepted-Settles : (c : Binding) → Settles (accepted_route_hostnames p c)
  unfolding accepted_route_hostnames
  accepted-Settles c = search settles_rules

  other-Settles : (c : Binding) → Settles (other_hostnames p c)
  unfolding other_hostnames candidate_hostnames
  other-Settles c = search (settles_rules, accepted-Settles) depth 15

  first_winner-Settles :
      (c : Binding) (hostnames : List Text) (others : List Binding)
      → Settles (first_hostname_winner p c hostnames others)
  unfolding first_hostname_winner
  first_winner-Settles c hostnames [] = search settles_rules
  first_winner-Settles c hostnames (other ∷ others) =
      let rest = first_winner-Settles c hostnames others in
      Keeps-if (is_passed c other) (first_hostname_winner p c hostnames others) _ (λ _. rest)
        λ _. Keeps-bind (other_hostnames p other) _ (other-Settles other) λ taken.
          Keeps-option (first_taken hostnames taken) (first_hostname_winner p c hostnames others)
            (λ hostname. pure (some (other, hostname))) rest (λ hostname. Keeps-pure _)

  hostname_winner-Settles :
      (c : Binding) (hostnames : List Text) → Settles (hostname_winner p c hostnames)
  unfolding hostname_winner
  hostname_winner-Settles c hostnames = search (settles_rules, first_winner-Settles) depth 12

  origin_permitted-Settles :
      (c : Binding) (namespace : Text) → Settles (origin_reference_permitted p c namespace)
  unfolding origin_reference_permitted
  origin_permitted-Settles c namespace = search settles_rules

  check_service-Settles : (c : Binding) (service : Service) → Settles (check_service p c service)
  unfolding check_service
  check_service-Settles c service = search (settles_rules, reject-Settles) depth 12

  read_service-Settles : (c : Binding) (key : NamespacedName) → Settles (read_service p c key)
  unfolding read_service
  read_service-Settles c key =
      search (settles_rules, reject-Settles, check_service-Settles) depth 12

  validate_service-Settles :
      (c : Binding) (namespace : Text) → Settles (validate_service p c namespace)
  unfolding validate_service
  validate_service-Settles c namespace =
      search (settles_rules, reject-Settles, origin_permitted-Settles, read_service-Settles) depth
        12

  check_gateway-Settles :
      (c : Binding) (gateway : Gateway) (class : GatewayClass)
      → Settles (check_gateway p c gateway class)
  unfolding check_gateway
  check_gateway-Settles c gateway class =
      search (settles_rules, reject-Settles, validate_service-Settles) depth 12

  origin-Settles : Settles (validate_origin_service p)
  unfolding validate_origin_service read_class
  origin-Settles = search (settles_rules, reject-Settles, check_gateway-Settles) depth 15

  check_provider-Settles :
      (r : Settings) (provider : ClusterCloudflareProvider) → Settles (check_provider p r provider)
  unfolding check_provider check_namespace check_gateway_winner
  check_provider-Settles r provider =
      search (settles_rules, reject-Settles, gateway_winner-Settles) depth 20

  provider-Settles : (r : Settings) → Settles (validate_cluster_provider p r)
  unfolding validate_cluster_provider
  provider-Settles r = search (settles_rules, reject-Settles, check_provider-Settles) depth 12

  plan_hostnames-Settles : (r : Settings) (plan : Plan) → Settles (plan_hostnames p r plan)
  unfolding plan_hostnames check_hostname_winner
  plan_hostnames-Settles r plan =
      search (settles_rules, reject-Settles, hostname_winner-Settles) depth 15

  plan_routes-Settles :
      (r : Settings) (provider : ClusterCloudflareProvider) (origin : Text)
      → Settles (plan_routes p r provider origin)
  unfolding plan_routes
  plan_routes-Settles r provider origin =
      search (settles_rules, reject-Settles, accepted-Settles, plan_hostnames-Settles) depth 12

  on_step-Settles :
      {A B : Type 0} (x : Step A) (f : A → M Binding (Step B))
      → ((a : A) → Settles (f a))
      → Settles (on_step x f)
  on_step-Settles (stop o) f k = Keeps-pure _
  on_step-Settles (proceed a) f k = k a

  pub plan-Settles : (r : Settings) → Settles (validate_and_plan p r)
  unfolding validate_and_plan
  plan-Settles r = Keeps-bind _ _ (provider-Settles r) λ x. on_step-Settles x _ λ provider.
      Keeps-bind _ _ origin-Settles λ y. on_step-Settles y _ (plan_routes-Settles r provider)
