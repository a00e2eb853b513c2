-- ===== src/PrivateRoutes/Routes.antt =====
-- `privateOwned`, `ensureRoute`, `deleteRoute` and `removeRoute`
pub mod Ownership
pub mod Routed
pub mod Gone
use kflared.Base.{
  ℕ, Bool, true, false, not, ◌&&◌, ◌||◌, Option, none, some, List, [], ◌∷◌, String, Text, bytes,
}
use kflared.Base.{text_eq, ◌==◌, if◌then◌else◌}
use kflared.Errors.{Err, message, Result, ok, err}
use kflared.Api.{CloudflareTunnelPrivateRoute, PrivateRouteStatus}
use kflared.Cloudflare.{PrivateRoute, Client, Tunnel}
use kflared.Platform.{Platform, M, ◌>>=◌, ◌>>◌, pure, fail, current, perform, get_provider}
use kflared.Platform.{
  get_private_route, list_private_routes, create_private_route, delete_private_route,
}
use kflared.Settings.{Settings}
use kflared.PrivateRoutes.Status.{private_comment, patch_status, api}

abbrev Route : Type 0
Route = CloudflareTunnelPrivateRoute

unfoldable pub private_owned : PrivateRoute → Route → Bool
unfolding private_comment
private_owned current route =
    not (current.id == [])
    && (current.comment == private_comment route
        && (route.status.tunnel_id == [] || current.tunnel_id == route.status.tunnel_id))

abbrev pub forget_route : Route → PrivateRouteStatus
forget_route route = record route.status { route_id = []; network = [] }

abbrev pub note_route : Text → Text → Route → PrivateRouteStatus
note_route id network route = record route.status { route_id = id; network = network }

abbrev pub note_network : Text → Route → PrivateRouteStatus
note_network network route = record route.status { network = network }

-- The first route of the listing for the network, which decides.
unfoldable pub first_on_network : Text → List PrivateRoute → Option PrivateRoute
first_on_network network [] = none
first_on_network network (c ∷ cs) =
    if not (c.network == network) then first_on_network network cs else some c

module _ (p : Platform) where
  -- What was created must be the route that was asked for.
  unfoldable pub note_created : Tunnel → Text → Route → Option PrivateRoute → M Route (Unit {0})
  note_created tunnel network route none =
      fail (message "cloudflare returned unexpected route identity" [])
  note_created tunnel network route (some c) =
      if not (private_owned c route)
        || (not (c.network == network) || not (c.tunnel_id == tunnel.id))
      then fail (message "cloudflare returned unexpected route identity" [])
      else patch_status p (note_route c.id network)

  unfoldable pub create_route : Client → Tunnel → Text → M Route (Unit {0})
  create_route client tunnel network = do
    route ← current
    created ← perform p (create_private_route client network tunnel.id (private_comment route))
    note_created tunnel network route created

  -- The network is recorded before the creation, so that a cleanup can find the route.
  unfoldable pub record_network : Text → M Route (Unit {0})
  record_network network = do
    route ← current
    if not (route.status.network == network) then patch_status p (note_network network) else pure tt

  unfoldable pub adopt_first :
      Client → Tunnel → Text → Route → Option PrivateRoute → M Route (Unit {0})
  adopt_first client tunnel network route none = do
    record_network network
    create_route client tunnel network
  adopt_first client tunnel network route (some c) =
      if private_owned c route && c.tunnel_id == tunnel.id
      then patch_status p (note_route c.id network)
      else fail
          (message "cloudflare network %s is already routed by route %s" (network ∷ c.id ∷ []))

  unfoldable pub adopt_or_create : Client → Tunnel → Text → M Route (Unit {0})
  adopt_or_create client tunnel network = do
    route ← current
    existing ← perform p (list_private_routes client network)
    adopt_first client tunnel network route (first_on_network network existing)

  -- The route that the status names.
  unfoldable pub check_known :
      Client → Tunnel → Text → Route → Option PrivateRoute → M Route (Unit {0})
  check_known client tunnel network route none = do
    patch_status p forget_route
    adopt_or_create client tunnel network
  check_known client tunnel network route (some c) =
      if not (private_owned c route)
        || (not (c.network == network) || not (c.tunnel_id == tunnel.id))
      then fail (message "owned route identity does not match status" [])
      else pure tt

  unfoldable pub ensure_route : Client → Tunnel → Text → M Route (Unit {0})
  ensure_route client tunnel network = do
    route ← current
    if route.status.route_id == [] then adopt_or_create client tunnel network else do
      found ← perform p (get_private_route client route.status.route_id)
      check_known client tunnel network route found

  -- The loop over the listing.
  unfoldable pub delete_listed : Client → Route → List PrivateRoute → M Route (Unit {0})
  delete_listed client route [] = pure tt
  delete_listed client route (c ∷ cs) =
      let rest = delete_listed client route cs in
      if c.network == route.status.network && private_owned c route
      then (do perform p (delete_private_route client c.id); rest)
      else rest

  unfoldable pub delete_found : Client → Route → Option PrivateRoute → M Route (Unit {0})
  delete_found client route none = pure tt
  delete_found client route (some c) =
      if not (private_owned c route) || not (c.network == route.status.network)
      then fail (
          message "refusing to delete route %s with mismatched identity"
            (route.status.route_id ∷ []))
      else perform p (delete_private_route client c.id)

  unfoldable pub delete_route : Client → M Route (Unit {0})
  delete_route client = do
    route ← current
    if route.status.route_id == []
        then (do
          existing ← perform p (list_private_routes client route.status.network)
          delete_listed client route existing)
        else do
          found ← perform p (get_private_route client route.status.route_id)
          delete_found client route found

  unfoldable pub remove_route : Settings → M Route (Unit {0})
  remove_route r = do
    route ← current
    provider ← perform p (get_provider route.spec.provider_ref)
    if not (provider.spec.controller == route.spec.controller)
        then fail (message "provider controller class changed" [])
        else do client ← api p r provider; delete_route client; patch_status p forget_route
