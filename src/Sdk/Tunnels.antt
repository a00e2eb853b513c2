-- ===== src/Sdk/Tunnels.antt =====
-- `ensureTunnel` of the bindings over the client of the SDK.
use kflared.Base.{◌≡◌, true, arith, Text}
use kflared.Errors.{ok}
use kflared.Api.{CloudflareTunnelBinding}
use kflared.Cloudflare.{Client, Tunnel, config_source_cloudflare}
use kflared.Platform.{Platform, State}
use kflared.Bindings.Tunnels.{ensure_tunnel}
use kflared.Bindings.Tunnels.Identity.{CreatesNamed, binding_tunnel_identity}
use kflared.PrivateRoutes.Tunnels.{is_tunnel_named}
use kflared.Sdk.{Api}
use kflared.Sdk.Contract.{IsClient, Echoes, Serves, Serves-IsClient}

is_named :
    (name : Text) (t : Tunnel)
    → t.name ≡ name
    → t.config_source ≡ config_source_cloudflare
    → is_tunnel_named name t ≡ true
is_named name t same remote = ground arith

IsClient-CreatesNamed : (p : Platform) → IsClient p → CreatesNamed p
IsClient-CreatesNamed p contract = record {
  named = λ h client name {t} e.
      let (same, remote) = contract.created h client name e in is_named name t same remote;
}

-- If the platform's answers about tunnels are those of the SDK's client, over an API that creates
-- tunnels as it is asked to: where ensureTunnel of a binding succeeds, the tunnel that it returns
-- has the name that was asked for and is configured remotely, be it the recorded one, one that was
-- found by name, or a new one.
pub sdk_tunnel_identity :
    {S : Type 0} (api : Api S) (p : Platform) (name : Text) (client : Client) (tunnel : Tunnel)
    (s s' : State CloudflareTunnelBinding)
    → Echoes api
    → Serves api p
    → ensure_tunnel p client name s ≡ (ok tunnel, s')
    → (tunnel.name ≡ name) × (tunnel.config_source ≡ config_source_cloudflare)
sdk_tunnel_identity api p name client tunnel s s' echoes serves e =
    binding_tunnel_identity p (IsClient-CreatesNamed p (Serves-IsClient api p echoes serves)) name
      client tunnel s s' e
