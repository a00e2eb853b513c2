-- ===== src/Bindings/Winners.antt =====
-- `acceptedRouteHostnames`, `gatewayWinner` and `hostnameWinner`: which other binding has a Gateway or
-- a hostname before this one.
pub mod Order
pub mod Nobody
use kflared.Base.{
  Bool, true, false, not, ◌&&◌, ◌||◌, Option, none, some, List, [], ◌∷◌, ◌++◌, Text, text_eq, ◌==◌,
  contains, if◌then◌else◌,
}
use kflared.Errors.{Err, Result, ok, err}
use kflared.Api.{CloudflareTunnelBinding, ClusterCloudflareProvider}
use kflared.Kube.{HttpRoute}
use kflared.Platform.{Platform, M, ◌>>=◌, ◌>>◌, pure, attempt, perform, on_result, on_option}
use kflared.Platform.{list_bindings, list_http_routes, get_provider}
use kflared.Conditions.{condition_true}
use kflared.Settings.{Settings}
use kflared.Planner.Zones.{normalize_zones}
use kflared.Planner.Hostnames.{normalize_hostnames}
use kflared.Planner.Precedence.{binding_precedes}
use kflared.References.Routes.{route_targets_binding, route_accepted}

abbrev Binding : Type 0
Binding = CloudflareTunnelBinding

abbrev pub is_deleted : Binding → Bool
is_deleted b = elim b.deletion_timestamp [ none ↦ false | some _ ↦ true ]

-- The condition in the loop of `gatewayWinner`.
unfoldable pub takes_gateway : Settings → Binding → Binding → Bool
takes_gateway r binding other =
    other.spec.controller == r.controller_class
    && (not (is_deleted other)
        && (not (other.uid == binding.uid)
            && (other.spec.gateway_ref.name == binding.spec.gateway_ref.name
                && binding_precedes other binding)))

unfoldable pub first_gateway_winner : Settings → Binding → List Binding → Option Binding
unfolding takes_gateway
first_gateway_winner r binding [] = none
first_gateway_winner r binding (other ∷ others) =
    if takes_gateway r binding other then some other else first_gateway_winner r binding others

-- A binding that the loop of `hostnameWinner` passes over.
unfoldable pub is_passed : Binding → Binding → Bool
is_passed binding other =
    is_deleted other || (other.uid == binding.uid || not (binding_precedes other binding))

-- The inner loop: the first of the hostnames that the other binding has.
unfoldable pub first_taken : List Text → List Text → Option Text
first_taken [] others = none
first_taken (hostname ∷ hostnames) others =
    if contains hostname others then some hostname else first_taken hostnames others

module _ (p : Platform) where
  unfoldable pub accepted_hostnames : Binding → List HttpRoute → List Text
  accepted_hostnames binding [] = []
  accepted_hostnames binding (route ∷ routes) =
      let rest = accepted_hostnames binding routes in
      if not (route_targets_binding route binding) || not (route_accepted p route binding)
      then rest
      else route.hostnames ++ rest

  -- What the provider's zones leave of the candidates, or the published hostnames if they are bad.
  unfoldable pub planned_hostnames : Binding → ClusterCloudflareProvider → List Text → List Text
  planned_hostnames other provider candidates =
      on_result (normalize_zones p.is_subdomain provider.spec.allowed_dns_zones)
        (λ _. other.status.published_hostnames)
        λ zones. (normalize_hostnames p.is_subdomain candidates zones).0

  module _ {O : Type 0} where
    unfoldable pub gateway_winner : Settings → Binding → M O (Option Binding)
    gateway_winner r binding = do
      bindings ← perform p (list_bindings (some binding.namespace))
      pure (first_gateway_winner r binding bindings)

    unfoldable pub accepted_route_hostnames : Binding → M O (List Text)
    accepted_route_hostnames binding = do
      routes ← perform p (list_http_routes binding.namespace)
      pure (accepted_hostnames binding routes)

    unfoldable pub candidate_hostnames : Binding → ClusterCloudflareProvider → M O (List Text)
    candidate_hostnames other provider =
        if not (condition_true p provider.status.conditions provider.generation "Accepted")
        then pure other.status.published_hostnames
        else do
          candidates ← attempt (accepted_route_hostnames other)
          on_result candidates (λ _. pure other.status.published_hostnames)
              (λ hostnames. pure (planned_hostnames other provider hostnames))

    -- The hostnames that count as the other binding's.
    unfoldable pub other_hostnames : Binding → M O (List Text)
    other_hostnames other = do
      found ← attempt (perform p (get_provider other.spec.provider_ref))
      on_result found (λ _. pure other.status.published_hostnames) (candidate_hostnames other)

    unfoldable pub first_hostname_winner :
        Binding → List Text → List Binding → M O (Option (Binding × Text))
    first_hostname_winner binding hostnames [] = pure none
    first_hostname_winner binding hostnames (other ∷ others) =
        let rest = first_hostname_winner binding hostnames others in
        if is_passed binding other then rest else do
          taken ← other_hostnames other
          on_option (first_taken hostnames taken) rest (λ hostname. pure (some (other, hostname)))

    unfoldable pub hostname_winner : Binding → List Text → M O (Option (Binding × Text))
    hostname_winner binding hostnames = do
      bindings ← perform p (list_bindings none)
      first_hostname_winner binding hostnames bindings
