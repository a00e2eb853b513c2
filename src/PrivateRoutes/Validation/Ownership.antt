-- ===== src/PrivateRoutes/Validation/Ownership.antt =====
-- Ownership in `validate`.
use kflared.Base.{refl, true, List, Bool, Text}
use kflared.Api.{CloudflareTunnelPrivateRoute, ClusterCloudflareProvider}
use kflared.Kube.{Service}
use kflared.Platform.{Platform, History, M}
use kflared.Platform.Keeps.{Keeps, keeps_rules}
use kflared.PrivateRoutes.Validation.{
  private_route_conflicts, validate_address, check_service, validate_service, validate_target,
  validate_namespace, check_provider, validate,
}
use kflared.PrivateRoutes.Status.Patches.{HasUid}
use kflared.PrivateRoutes.Routes.{}
use kflared.PrivateRoutes.Owned.{owned_only}
use kflared.PrivateRoutes.Connectors.Ownership.{}
use kflared.PrivateRoutes.Finalize.{}
use kflared.PrivateRoutes.Reconcile.{}

abbrev Route : Type 0
Route = CloudflareTunnelPrivateRoute

module _ (p : Platform) (uid name : Text) where
  abbrev Owns : {A : Type 0} → M Route A → Type 0
  Owns m = Keeps (owned_only uid name) (HasUid uid) m

  always : (h : History) → Path Bool true true
  always h = refl

  ruleset owns_rules = (keeps_rules, always)

  private_route_conflicts-Owns :
      (route : Route) (ns service n : Text) → Owns (private_route_conflicts p route ns service n)
  unfolding private_route_conflicts
  private_route_conflicts-Owns route ns service n = search owns_rules

  validate_address-Owns :
      (route : Route) (provider : ClusterCloudflareProvider) (ns : Text) (s : Service) (ip : List _)
      → Owns (validate_address p route provider ns s ip)
  unfolding validate_address
  validate_address-Owns route provider ns s ip =
      search (owns_rules, private_route_conflicts-Owns) depth 9

  check_service-Owns :
      (route : Route) (provider : ClusterCloudflareProvider) (ns : Text) (s : Service)
      → Owns (check_service p route provider ns s)
  unfolding check_service
  check_service-Owns route provider ns s = search (owns_rules, validate_address-Owns) depth 9

  validate_service-Owns :
      (route : Route) (provider : ClusterCloudflareProvider) (ns : Text)
      → Owns (validate_service p route provider ns)
  unfolding validate_service
  validate_service-Owns route provider ns = search (owns_rules, check_service-Owns) depth 9

  validate_target-Owns :
      (route : Route) (provider : ClusterCloudflareProvider) (ns : Text)
      → Owns (validate_target p route provider ns)
  unfolding validate_target
  validate_target-Owns route provider ns = search (owns_rules, validate_service-Owns) depth 9

  validate_namespace-Owns :
      (route : Route) (provider : ClusterCloudflareProvider)
      → Owns (validate_namespace p route provider)
  unfolding validate_namespace
  validate_namespace-Owns route provider = search (owns_rules, validate_target-Owns) depth 9

  check_provider-Owns :
      (route : Route) (provider : ClusterCloudflareProvider)
      → Owns (check_provider p route provider)
  unfolding check_provider
  check_provider-Owns route provider = search (owns_rules, validate_namespace-Owns) depth 9

  pub validate-Owns : (route : Route) → Owns (validate p route)
  unfolding validate
  validate-Owns route = search (owns_rules, check_provider-Owns) depth 9
