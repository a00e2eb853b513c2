-- ===== src/PrivateRoutes/Validation.antt =====
-- `validate` and `privateRouteConflicts`
pub mod Acceptable
pub mod Accepted
pub mod Complete
pub mod Conflicts
pub mod Ownership
use kflared.Base.{
  ℕ, Bool, true, false, not, ◌&&◌, ◌||◌, none, some, List, [], ◌∷◌, String, Text, bytes,
}
use kflared.Base.{text_eq, ◌==◌, if◌then◌else◌}
use kflared.Errors.{ok, err, is_not_found}
use kflared.Api.{CloudflareTunnelPrivateRoute, ClusterCloudflareProvider}
use kflared.Kube.{Service, ReferenceGrant, Namespace}
use kflared.Platform.{on_result, on_option, Platform, M, ◌>>=◌, pure, fail, attempt, perform}
use kflared.Platform.{get_provider, get_namespace, get_service, list_grants, list_routes}
use kflared.Conditions.{condition_true}
use kflared.References.{private_service_namespace, resolve_service_port}
use kflared.References.Grants.{private_grant_permits}
use kflared.Addresses.{parse_ipv4, is_unspecified, host_prefix}
use kflared.Settings.{provider_controller_class_mismatch}
use kflared.PrivateRoutes.Order.{private_precedes}

abbrev Route : Type 0
Route = CloudflareTunnelPrivateRoute

-- What `validate` returns beside an error: a reason to reject, or the provider and the network.
pub data Validation : Type 0 where
  rejected : String → Validation
  valid : ClusterCloudflareProvider → Text → Validation

abbrev pub is_deleted : Route → Bool
is_deleted r = elim r.deletion_timestamp [ none ↦ false | some _ ↦ true ]

unfoldable pub any_grant_permits : List ReferenceGrant → Route → Bool
unfolding private_grant_permits
any_grant_permits [] route = false
any_grant_permits (g ∷ gs) route = private_grant_permits g route || any_grant_permits gs route

-- A route that the loop of `privateRouteConflicts` passes over.
unfoldable pub skips : Route → Route → Bool
skips route other =
    other.uid == route.uid
    || (is_deleted other
        || (not (other.spec.provider_ref == route.spec.provider_ref)
            || not (other.spec.controller == route.spec.controller)))

-- The network that another route has, or is about to have.
unfoldable pub claimed_network : Route → Text → Text → Text → Text
claimed_network other target_ns service_name network =
    if other.status.network == []
      && (private_service_namespace other == target_ns
          && other.spec.service_ref.name == service_name)
    then network
    else other.status.network

unfoldable pub conflicts_with : Route → Text → Text → Text → Route → Bool
unfolding skips claimed_network private_precedes
conflicts_with route target_ns service_name network other =
    not (skips route other)
    && (claimed_network other target_ns service_name network == network
        && private_precedes other route)

unfoldable pub any_conflict : Route → Text → Text → Text → List Route → Bool
unfolding conflicts_with
any_conflict route target_ns service_name network [] = false
any_conflict route target_ns service_name network (other ∷ others) =
    conflicts_with route target_ns service_name network other
    || any_conflict route target_ns service_name network others

module _ (p : Platform) where
  unfoldable pub private_route_conflicts : Route → Text → Text → Text → M Route Bool
  private_route_conflicts route target_ns service_name network = do
    others ← perform p list_routes
    pure (any_conflict route target_ns service_name network others)

  unfoldable pub is_cluster_ip : Service → Bool
  is_cluster_ip service = service.type == [] || service.type == bytes "ClusterIP"

  unfoldable pub validate_address :
      Route → ClusterCloudflareProvider → Text → Service → List ℕ → M Route Validation
  validate_address route provider target_ns service ip =
      on_result (resolve_service_port service route.spec.service_ref.port)
        (λ _. pure (rejected "ServicePortNotFound"))
        λ _. do
          conflict ← private_route_conflicts route target_ns service.name (host_prefix ip)
          pure (if conflict then rejected "RouteConflict" else valid provider (host_prefix ip))

  -- What is asked of the Service.
  unfoldable pub check_service :
      Route → ClusterCloudflareProvider → Text → Service → M Route Validation
  check_service route provider target_ns service =
      if not (is_cluster_ip service)
      then pure (rejected "InvalidService")
      else on_option (parse_ipv4 service.cluster_ip) (pure (rejected "InvalidService")) λ ip.
        if is_unspecified ip
        then pure (rejected "InvalidService")
        else validate_address route provider target_ns service ip

  -- From the read of the Service on.
  unfoldable pub validate_service : Route → ClusterCloudflareProvider → Text → M Route Validation
  validate_service route provider target_ns = do
    found ← attempt (
        perform p
          (get_service (record { namespace = target_ns; name = route.spec.service_ref.name })))
    on_result found (λ e. if is_not_found e then pure (rejected "ServiceNotFound") else fail e)
        (check_service route provider target_ns)

  unfoldable pub selects_namespace : ClusterCloudflareProvider → Namespace → Bool
  selects_namespace provider ns =
      elim (p.selector_matches provider.spec.binding_namespace_selector) [
        | err e ↦ false
        | ok matches ↦ matches ns.labels
      ]

  -- A Service in another namespace needs a ReferenceGrant there.
  unfoldable pub validate_target : Route → ClusterCloudflareProvider → Text → M Route Validation
  validate_target route provider target_ns =
      if target_ns == route.namespace then validate_service route provider target_ns else do
        grants ← perform p (list_grants target_ns)
        if any_grant_permits grants route
            then validate_service route provider target_ns
            else pure (rejected "RefNotPermitted")

  unfoldable pub validate_namespace : Route → ClusterCloudflareProvider → M Route Validation
  validate_namespace route provider = do
    ns ← perform p (get_namespace route.namespace)
    if not (selects_namespace provider ns)
        then pure (rejected "NamespaceNotAllowed")
        else validate_target route provider (private_service_namespace route)

  -- What is asked of the provider before the namespaces are looked at.
  unfoldable pub check_provider : Route → ClusterCloudflareProvider → M Route Validation
  check_provider route provider =
      if not (provider.spec.controller == route.spec.controller)
      then pure (rejected provider_controller_class_mismatch)
      else if not (condition_true p provider.status.conditions provider.generation "Accepted")
          || not
              (condition_true p provider.status.conditions provider.generation "CredentialsValid")
      then pure (rejected "ProviderNotReady")
      else validate_namespace route provider

  unfoldable pub validate : Route → M Route Validation
  validate route = do
    found ← attempt (perform p (get_provider route.spec.provider_ref))
    on_result found (λ e. if is_not_found e then pure (rejected "ProviderNotFound") else fail e)
        (check_provider route)
