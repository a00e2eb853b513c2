-- ===== src/PrivateRoutes/Finalize/Ownership.antt =====
-- Ownership in `finalize`, where the recorded tunnel is deleted.
use kflared.Base.{refl, true, Bool, Text}
use kflared.Api.{CloudflareTunnelPrivateRoute, ClusterCloudflareProvider}
use kflared.Cloudflare.{Client}
use kflared.Kube.{ChildKind}
use kflared.Platform.{Platform, History, M}
use kflared.Platform.Keeps.{Keeps, keeps_rules}
use kflared.Settings.{Settings}
use kflared.PrivateRoutes.Status.{patch_status, read_api_token, api}
use kflared.PrivateRoutes.Status.Patches.{
  KeepsUid, KeepsTunnelName, HasUid, HasTunnel, patch_status-Named,
}
use kflared.PrivateRoutes.Routes.{forget_route, delete_route, remove_route}
use kflared.PrivateRoutes.Owned.{owned_only}
use kflared.PrivateRoutes.Routes.Ownership.{delete_route-Keeps}
use kflared.PrivateRoutes.Connectors.Ownership.{
  delete_private_child-Keeps, delete_known_tunnel-Keeps,
}
use kflared.PrivateRoutes.Finalize.{
  delete_private_child, delete_known_tunnel, delete_route_tunnel, clean_up, finalize,
}

abbrev Route : Type 0
Route = CloudflareTunnelPrivateRoute

module _ (p : Platform) (server : KeepsUid p) (keeper : KeepsTunnelName p) (uid name : Text) where
  abbrev Tends : {A : Type 0} → M Route A → Type 0
  Tends m = Keeps (owned_only uid name) (HasTunnel uid name) m

  own_uid : (o : Route) → HasTunnel uid name o → HasUid uid o
  own_uid o (u, n) = u

  allowed : (h : History) → Path Bool true true
  allowed h = refl

  forget-Tends : Tends (patch_status p forget_route)
  forget-Tends =
      patch_status-Named p server keeper uid name (owned_only uid name) (λ base next h. refl)
        forget_route (λ route. refl)

  api-Tends : (r : Settings) (provider : ClusterCloudflareProvider) → Tends (api p r provider)
  unfolding api read_api_token
  api-Tends r provider = search (keeps_rules, allowed)

  delete-Tends : (client : Client) → Tends (delete_route p client)
  delete-Tends = delete_route-Keeps p uid name (HasTunnel uid name) own_uid

  child-Tends : (r : Settings) (k : ChildKind) → Tends (delete_private_child p r k)
  child-Tends r k = delete_private_child-Keeps p uid name (HasTunnel uid name) own_uid r k

  known-Tends : (r : Settings) (client : Client) → Tends (delete_known_tunnel p r client)
  known-Tends r client = delete_known_tunnel-Keeps p uid name r client

  ruleset tends_rules = (keeps_rules, allowed, forget-Tends, api-Tends, delete-Tends)

  remove_route-Tends : (r : Settings) → Tends (remove_route p r)
  unfolding remove_route
  remove_route-Tends r = search tends_rules depth 9

  delete_route_tunnel-Tends : (r : Settings) → Tends (delete_route_tunnel p r)
  unfolding delete_route_tunnel
  delete_route_tunnel-Tends r = search (tends_rules, known-Tends) depth 9

  clean_up-Tends : (r : Settings) → Tends (clean_up p r)
  unfolding clean_up
  clean_up-Tends r =
      search (tends_rules, remove_route-Tends, child-Tends, delete_route_tunnel-Tends) depth 12

  pub finalize-Tends : (r : Settings) → Tends (finalize p r)
  unfolding finalize
  finalize-Tends r = search (tends_rules, clean_up-Tends) depth 9
