-- ===== src/PrivateRoutes/Finalize/Quiet.antt =====
-- What the finalization of a private route does before the removal of the finalizer updates no private
-- route object.
use kflared.Base.{refl, Bool, true, false, Option, none, some, List, [], ◌∷◌, Text}
use kflared.Api.{CloudflareTunnelPrivateRoute, PrivateRouteStatus, ClusterCloudflareProvider}
use kflared.Cloudflare.{Client, PrivateRoute}
use kflared.Kube.{ChildKind}
use kflared.Platform.{
  Platform, History, M, perform, update_route, delete_private_route, delete_tunnel,
}
use kflared.Platform.Keeps.{Policy, keeps_rules, Keeps-assign, Keeps-perform, Keeps-bind, Keeps-if}
use kflared.Platform.Ends.{Quiet}
use kflared.Settings.{Settings}
use kflared.PrivateRoutes.Status.{patch_status, read_api_token, api}
use kflared.PrivateRoutes.Routes.{delete_listed, delete_found, delete_route, remove_route}
use kflared.PrivateRoutes.Finalize.{
  delete_private_child, delete_known_tunnel, delete_route_tunnel, clean_up,
}

abbrev Route : Type 0
Route = CloudflareTunnelPrivateRoute

abbrev pub unreleased : Policy
unreleased (update_route _) h = false
unreleased _ h = true

module _ (p : Platform) where
  abbrev IsQuiet : {A : Type 0} → M Route A → Type 0
  IsQuiet m = Quiet unreleased m

  always : (h : History) → Path Bool true true
  always h = refl

  route_deletion-Quiet :
      (client : Client) (id : Text)
      → IsQuiet {A = Unit} (perform p (delete_private_route client id))
  route_deletion-Quiet client id = Keeps-perform p (delete_private_route client id) (λ h. refl)

  tunnel_deletion-Quiet :
      (client : Client) (id : Text) → IsQuiet {A = Unit} (perform p (delete_tunnel client id))
  tunnel_deletion-Quiet client id = Keeps-perform p (delete_tunnel client id) (λ h. refl)

  ruleset quiet_rules =
      (keeps_rules, always, Keeps-assign, route_deletion-Quiet, tunnel_deletion-Quiet)

  patch_status-Quiet : (change : Route → PrivateRouteStatus) → IsQuiet (patch_status p change)
  unfolding patch_status
  patch_status-Quiet change = search quiet_rules depth 12

  api-Quiet : (r : Settings) (provider : ClusterCloudflareProvider) → IsQuiet (api p r provider)
  unfolding api read_api_token
  api-Quiet r provider = search quiet_rules depth 12

  delete_listed-Quiet :
      (client : Client) (route : Route) (cs : List PrivateRoute)
      → IsQuiet (delete_listed p client route cs)
  unfolding delete_listed
  delete_listed-Quiet client route [] = search quiet_rules
  delete_listed-Quiet client route (c ∷ cs) =
      let rest = delete_listed-Quiet client route cs in
      Keeps-if _ _ _ (λ _. Keeps-bind _ _ (route_deletion-Quiet client c.id) (λ _. rest))
        (λ _. rest)

  delete_found-Quiet :
      (client : Client) (route : Route) (o : Option PrivateRoute)
      → IsQuiet (delete_found p client route o)
  unfolding delete_found
  delete_found-Quiet client route none = search quiet_rules
  delete_found-Quiet client route (some c) = search quiet_rules

  delete_route-Quiet : (client : Client) → IsQuiet (delete_route p client)
  unfolding delete_route
  delete_route-Quiet client = search (quiet_rules, delete_listed-Quiet, delete_found-Quiet) depth 12

  remove_route-Quiet : (r : Settings) → IsQuiet (remove_route p r)
  unfolding remove_route
  remove_route-Quiet r =
      search (quiet_rules, api-Quiet, delete_route-Quiet, patch_status-Quiet) depth 12

  delete_private_child-Quiet : (r : Settings) (k : ChildKind) → IsQuiet (delete_private_child p r k)
  unfolding delete_private_child
  delete_private_child-Quiet r k = search quiet_rules depth 15

  delete_known_tunnel-Quiet :
      (r : Settings) (client : Client) → IsQuiet (delete_known_tunnel p r client)
  unfolding delete_known_tunnel
  delete_known_tunnel-Quiet r client = search quiet_rules depth 12

  delete_route_tunnel-Quiet : (r : Settings) → IsQuiet (delete_route_tunnel p r)
  unfolding delete_route_tunnel
  delete_route_tunnel-Quiet r = search (quiet_rules, api-Quiet, delete_known_tunnel-Quiet) depth 12

  pub clean_up-Quiet : (r : Settings) → IsQuiet (clean_up p r)
  unfolding clean_up
  clean_up-Quiet r =
      search
        (quiet_rules, remove_route-Quiet, delete_private_child-Quiet, delete_route_tunnel-Quiet)
        depth 15
