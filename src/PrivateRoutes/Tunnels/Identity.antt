-- ===== src/PrivateRoutes/Tunnels/Identity.antt =====
-- The tunnel that a run goes on with.
use kflared.Base.{◌≡◌, ◌≢◌, arith, true, not, Text, Bool-cases, inl, inr, if◌then◌else◌}
use kflared.Errors.{Err, ok}
use kflared.Api.{CloudflareTunnelPrivateRoute}
use kflared.Cloudflare.{Client, Tunnel, config_source_cloudflare}
use kflared.Platform.{Platform, State, ◌>>=◌, pure, fail}
use kflared.Platform.Chains.{bind-ok}
use kflared.PrivateRoutes.Status.{patch_status}
use kflared.PrivateRoutes.Tunnels.{
  is_tunnel_named, known_tunnel, find_or_create, note_tunnel, ensure_tunnel,
}

abbrev Route : Type 0
Route = CloudflareTunnelPrivateRoute

module _ (p : Platform) (name : Text) where
  pure-tunnel : (t u : Tunnel) (s s' : State Route) → pure t s ≡ (ok u, s') → t ≡ u
  unfolding ◌>>=◌
  pure-tunnel t u s s' e = ground arith

  fail-ne-ok : (x : Err) (u : Tunnel) (s s' : State Route) → fail {A = Tunnel} x s ≢ (ok u, s')
  unfolding ◌>>=◌
  fail-ne-ok x u s s' e = ground arith

  named-fields :
      (t : Tunnel)
      → is_tunnel_named name t ≡ true
      → (t.name ≡ name) × (t.config_source ≡ config_source_cloudflare)
  named-fields t h = ground arith

  checked_tunnel :
      (x : Err) (t u : Tunnel) (s s' : State Route)
      → (if not (is_tunnel_named name t)
            then fail x
            else patch_status p (note_tunnel t) >>= λ _. pure t)
          s
        ≡ (ok u, s')
      → is_tunnel_named name u ≡ true
  unfolding ◌>>=◌
  checked_tunnel x t u s s' e = elim (Bool-cases (is_tunnel_named name t)) [
    | inr no' ↦ absurd (fail-ne-ok x u s s' (rw no' at e))
    | inl yes' ↦
        let (a, v, q) =
          bind-ok (patch_status p (note_tunnel t)) (λ _. pure t) s s' u (rw yes' at e) in
        rw (← pure-tunnel t u v s' q) yes'
  ]

  -- The tunnel that a successful `ensure_tunnel` returns has the name that was asked for and is
  -- configured remotely, whichever way it was found.
  pub ensure_tunnel_identity :
      (client : Client) (tunnel : Tunnel) (s s' : State Route)
      → ensure_tunnel p client name s ≡ (ok tunnel, s')
      → (tunnel.name ≡ name) × (tunnel.config_source ≡ config_source_cloudflare)
  unfolding ensure_tunnel
  ensure_tunnel_identity client tunnel s s' e =
      let (known, t, q) = bind-ok (known_tunnel p client) _ s s' tunnel e in
      let (found, u, o) = bind-ok (find_or_create p client name known) _ t s' tunnel q in
      named-fields tunnel (checked_tunnel _ found tunnel u s' o)
