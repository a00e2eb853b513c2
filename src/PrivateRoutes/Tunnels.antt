-- ===== src/PrivateRoutes/Tunnels.antt =====
-- `ensureTunnel`
pub mod Identity
use kflared.Base.{Bool, not, ◌&&◌, Option, none, some, [], Text}
use kflared.Base.{text_eq, ◌==◌, if◌then◌else◌}
use kflared.Errors.{message}
use kflared.Api.{CloudflareTunnelPrivateRoute, PrivateRouteStatus}
use kflared.Cloudflare.{Client, Tunnel, config_source_cloudflare}
use kflared.Platform.{on_option, Platform, M, ◌>>=◌, ◌>>◌, pure, fail, current, perform}
use kflared.Platform.{get_tunnel, find_tunnel_by_name, create_tunnel}
use kflared.PrivateRoutes.Status.{patch_status}
use kflared.PrivateRoutes.Routes.{delete_route}

abbrev Route : Type 0
Route = CloudflareTunnelPrivateRoute

abbrev pub forget_tunnel : Route → PrivateRouteStatus
forget_tunnel route = record route.status {
  tunnel_id = [];
  tunnel_name = [];
  route_id = [];
  network = [];
}

abbrev pub note_tunnel : Tunnel → Route → PrivateRouteStatus
note_tunnel tunnel route = record route.status { tunnel_id = tunnel.id; tunnel_name = tunnel.name }

abbrev pub is_tunnel_named : Text → Tunnel → Bool
is_tunnel_named name tunnel =
    tunnel.name == name && tunnel.config_source == config_source_cloudflare

module _ (p : Platform) where
  -- A tunnel deleted remotely leaves a route behind, which goes too.
  unfoldable pub drop_lost_tunnel : Client → M Route (Unit {0})
  drop_lost_tunnel client = do
    route ← current
    if route.status.network == [] then pure tt else delete_route p client
    patch_status p forget_tunnel

  -- The tunnel that the status names, if it still exists.
  unfoldable pub known_tunnel : Client → M Route (Option Tunnel)
  known_tunnel client = do
    route ← current
    if route.status.tunnel_id == [] then pure none else do
      tunnel ← perform p (get_tunnel client route.status.tunnel_id)
      on_option tunnel (do drop_lost_tunnel client; pure none) (λ t. pure (some t))

  unfoldable pub find_or_create : Client → Text → Option Tunnel → M Route Tunnel
  find_or_create client name (some t) = pure t
  find_or_create client name none = do
    tunnel ← perform p (find_tunnel_by_name client name)
    on_option tunnel (perform p (create_tunnel client name)) pure

  unfoldable pub ensure_tunnel : Client → Text → M Route Tunnel
  ensure_tunnel client name = do
    known ← known_tunnel client
    tunnel ← find_or_create client name known
    if not (is_tunnel_named name tunnel)
        then fail (message "refusing tunnel with incompatible identity" [])
        else do patch_status p (note_tunnel tunnel); pure tunnel
