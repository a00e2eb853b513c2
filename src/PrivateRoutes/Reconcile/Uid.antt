-- ===== src/PrivateRoutes/Reconcile/Uid.antt =====
-- The steps of `reconcile` work on the object with one UID.
use kflared.Base.{Option, none, some, List, [], ◌∷◌, Text}
use kflared.Api.{CloudflareTunnelPrivateRoute, ClusterCloudflareProvider, PrivateRouteStatus}
use kflared.Cloudflare.{Client, Tunnel, PrivateRoute}
use kflared.Platform.{Platform, M, perform, delete_private_route, create_tunnel}
use kflared.Platform.Holds.{Holds, Holds-perform, holds_rules}
use kflared.Settings.{Settings}
use kflared.PrivateRoutes.Status.{patch_status, api, read_api_token}
use kflared.PrivateRoutes.Status.Patches.{KeepsUid, HasUid, patch_status-Gives}
use kflared.PrivateRoutes.Routes.{delete_listed, delete_found, delete_route}
use kflared.PrivateRoutes.Tunnels.{drop_lost_tunnel, known_tunnel, find_or_create, ensure_tunnel}
use kflared.PrivateRoutes.Validation.{
  private_route_conflicts, validate_address, check_service, validate_service, validate_target,
  validate_namespace, check_provider, validate,
}
use kflared.PrivateRoutes.Reconcile.{leave_old_network}

abbrev Route : Type 0
Route = CloudflareTunnelPrivateRoute

module _ (p : Platform) (server : KeepsUid p) (uid : Text) where
  abbrev Stays : {A : Type 0} → M Route A → Type 0
  Stays m = Holds (HasUid uid) m

  patch-Stays : (change : Route → PrivateRouteStatus) → Stays (patch_status p change)
  patch-Stays change = patch_status-Gives p server uid change

  delete_listed-Stays :
      (client : Client) (route : Route) (routes : List PrivateRoute)
      → Stays (delete_listed p client route routes)
  unfolding delete_listed
  delete_listed-Stays client route [] = search holds_rules
  delete_listed-Stays client route (c ∷ routes) =
      let rest = delete_listed-Stays client route routes in search holds_rules

  delete_call-Stays :
      (client : Client) (id : Text)
      → Stays {A = Unit {0}} (perform p (delete_private_route client id))
  delete_call-Stays client id = Holds-perform p (delete_private_route client id)

  create_call-Stays :
      (client : Client) (name : Text) → Stays {A = Tunnel} (perform p (create_tunnel client name))
  create_call-Stays client name = Holds-perform p (create_tunnel client name)

  delete_found-Stays :
      (client : Client) (route : Route) (found : Option PrivateRoute)
      → Stays (delete_found p client route found)
  unfolding delete_found
  delete_found-Stays client route none = search holds_rules
  delete_found-Stays client route (some c) = search (holds_rules, delete_call-Stays)

  delete_route-Stays : (client : Client) → Stays (delete_route p client)
  unfolding delete_route
  delete_route-Stays client = search (holds_rules, delete_listed-Stays, delete_found-Stays) depth 9

  pub api-Stays : (r : Settings) (provider : ClusterCloudflareProvider) → Stays (api p r provider)
  unfolding api read_api_token
  api-Stays r provider = search holds_rules depth 9

  drop_lost_tunnel-Stays : (client : Client) → Stays (drop_lost_tunnel p client)
  unfolding drop_lost_tunnel
  drop_lost_tunnel-Stays client = search (holds_rules, patch-Stays, delete_route-Stays) depth 9

  known_tunnel-Stays : (client : Client) → Stays (known_tunnel p client)
  unfolding known_tunnel
  known_tunnel-Stays client = search (holds_rules, drop_lost_tunnel-Stays) depth 12

  find_or_create-Stays :
      (client : Client) (name : Text) (known : Option Tunnel)
      → Stays (find_or_create p client name known)
  unfolding find_or_create
  find_or_create-Stays client name none = search (holds_rules, create_call-Stays) depth 9
  find_or_create-Stays client name (some t) = search holds_rules

  pub ensure_tunnel-Stays : (client : Client) (name : Text) → Stays (ensure_tunnel p client name)
  unfolding ensure_tunnel
  ensure_tunnel-Stays client name =
      search (holds_rules, patch-Stays, known_tunnel-Stays, find_or_create-Stays) depth 12

  pub leave_old_network-Stays :
      (r : Settings) (client : Client) (network : Text)
      → Stays (leave_old_network p r client network)
  unfolding leave_old_network
  leave_old_network-Stays r client network =
      search (holds_rules, patch-Stays, delete_route-Stays) depth 12

  service-Stays :
      (route : Route) (provider : ClusterCloudflareProvider) (target : Text)
      → Stays (validate_service p route provider target)
  unfolding validate_service check_service validate_address private_route_conflicts
  service-Stays route provider target = search holds_rules depth 20

  target-Stays :
      (route : Route) (provider : ClusterCloudflareProvider) (target : Text)
      → Stays (validate_target p route provider target)
  unfolding validate_target
  target-Stays route provider target = search (holds_rules, service-Stays) depth 12

  pub validate-Stays : (route : Route) → Stays (validate p route)
  unfolding validate check_provider validate_namespace
  validate-Stays route = search (holds_rules, target-Stays) depth 20
