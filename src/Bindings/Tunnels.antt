-- ===== src/Bindings/Tunnels.antt =====
-- `ensureTunnel` of the binding reconciler.
pub mod Identity
use kflared.Base.{not, [], ◌++◌, Text, bytes, text_eq, ◌==◌, if◌then◌else◌}
use kflared.Errors.{message}
use kflared.Api.{CloudflareTunnelBinding}
use kflared.Cloudflare.{Client, Tunnel}
use kflared.Platform.{Platform, M, ◌>>=◌, ◌>>◌, pure, fail, current, assign, perform, on_option}
use kflared.Platform.{get_tunnel, find_tunnel_by_name, create_tunnel, patch_binding}
use kflared.PrivateRoutes.Tunnels.{is_tunnel_named}
use kflared.Bindings.Finalize.{wrapping}

abbrev Binding : Type 0
Binding = CloudflareTunnelBinding

abbrev pub tunnel_cname_zone : Text
tunnel_cname_zone = bytes "cfargotunnel.com"

abbrev pub with_tunnel : Tunnel → Binding → Binding
with_tunnel tunnel binding = record binding {
  status = record binding.status {
    tunnel_id = tunnel.id;
    tunnel_name = tunnel.name;
    tunnel_cname = tunnel.id ++ (bytes "." ++ tunnel_cname_zone);
  };
}

module _ (p : Platform) where
  unfoldable pub record_tunnel : Tunnel → M Binding Tunnel
  record_tunnel tunnel = do
    base ← current
    assign (with_tunnel tunnel base)
    patched ← perform p (patch_binding base (with_tunnel tunnel base))
    assign patched
    pure tunnel

  -- The tunnel of that name, or a new one.
  unfoldable pub adopt_or_create : Client → Text → M Binding Tunnel
  adopt_or_create client name = do
    found ← wrapping "find Cloudflare Tunnel: %w" (perform p (find_tunnel_by_name client name))
    on_option found
        (wrapping "create Cloudflare Tunnel: %w" (perform p (create_tunnel client name))
          >>= record_tunnel)
        λ tunnel.
          if not (is_tunnel_named name tunnel)
          then fail (message "refusing to adopt Cloudflare Tunnel with incompatible identity" [])
          else record_tunnel tunnel

  unfoldable pub ensure_tunnel : Client → Text → M Binding Tunnel
  ensure_tunnel client name = do
    binding ← current
    if binding.status.tunnel_id == [] then adopt_or_create client name else do
      owned ←
          wrapping "get owned Cloudflare Tunnel: %w"
            (perform p (get_tunnel client binding.status.tunnel_id))
      on_option owned (adopt_or_create client name) λ tunnel.
          if not (is_tunnel_named name tunnel)
          then fail (message "owned Cloudflare Tunnel identity does not match binding" [])
          else pure tunnel
