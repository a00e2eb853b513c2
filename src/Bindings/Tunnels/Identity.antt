-- ===== src/Bindings/Tunnels/Identity.antt =====
-- The tunnel that a run goes on with.
use kflared.Base.{
  ◌≡◌, ◌≢◌, arith, Bool, true, false, not, Option, none, some, String, Text, text_eq, ◌==◌,
  Bool-cases, inl, inr, if◌then◌else◌, [],
}
use kflared.Errors.{Err, Result, ok, err, message, wrapped}
use kflared.Api.{CloudflareTunnelBinding}
use kflared.Cloudflare.{Client, Tunnel, config_source_cloudflare}
use kflared.Platform.{
  Platform, History, State, M, ◌>>=◌, pure, fail, perform, on_result, on_option, current,
  create_tunnel, find_tunnel_by_name, get_tunnel,
}
use kflared.Platform.Chains.{bind-ok, bind-first}
use kflared.PrivateRoutes.Tunnels.{is_tunnel_named}
use kflared.Bindings.Finalize.{wrapping}
use kflared.Bindings.Tunnels.{record_tunnel, adopt_or_create, ensure_tunnel}

abbrev Binding : Type 0
Binding = CloudflareTunnelBinding

-- What Cloudflare documents of a creation: the new tunnel has the name that was asked for, and the
-- code asks for one that is configured remotely.
pub record CreatesNamed (p : Platform) : Type 0 where
  pub named :
      (h : History) (client : Client) (name : Text) {t : Tunnel}
      → p.answer h (create_tunnel client name) ≡ ok t
      → is_tunnel_named name t ≡ true

result_ok :
    {A : Type 0} (text : String) (r : Result A) (t : State Binding) (a : A)
    → (on_result r (λ e. fail (wrapped text e)) pure t).0 ≡ ok a
    → r ≡ ok a
unfolding on_result ◌>>=◌
result_ok text (ok b) t a e = ground arith
result_ok text (err x) t a e = absurd (ground arith)

wrapping-ok :
    {A : Type 0} (text : String) (m : M Binding A) (s : State Binding) (a : A)
    → (wrapping text m s).0 ≡ ok a
    → (m s).0 ≡ ok a
unfolding wrapping ◌>>=◌
wrapping-ok text m s a e = result_ok text (m s).0 (m s).1 a e

module _ (p : Platform) (cloudflare : CreatesNamed p) (name : Text) where
  same_tunnel : (t u : Tunnel) (s s' : State Binding) → pure t s ≡ (ok u, s') → t ≡ u
  unfolding ◌>>=◌
  same_tunnel t u s s' e = ground arith

  fail-ne-ok : (x : Err) (u : Tunnel) (s s' : State Binding) → fail {A = Tunnel} x s ≢ (ok u, s')
  unfolding ◌>>=◌
  fail-ne-ok x u s s' e = ground arith

  recorded : (t u : Tunnel) (s s' : State Binding) → record_tunnel p t s ≡ (ok u, s') → t ≡ u
  unfolding record_tunnel
  recorded t u s s' e =
      let (base, s₁, e₁) = bind-ok current _ s s' u e in
      let (x, s₂, e₂) = bind-ok _ _ s₁ s' u e₁ in
      let (patched, s₃, e₃) = bind-ok _ _ s₂ s' u e₂ in
      let (y, s₄, e₄) = bind-ok _ _ s₃ s' u e₃ in same_tunnel t u s₄ s' e₄

  performed :
      (client : Client) (s : State Binding) (t : Tunnel)
      → (perform p (create_tunnel client name) s).0 ≡ ok t
      → is_tunnel_named name t ≡ true
  unfolding perform
  performed client s t e = cloudflare.named s.log client name e

  created :
      (client : Client) (u : Tunnel) (s s' : State Binding)
      → (wrapping "create Cloudflare Tunnel: %w" (perform p (create_tunnel client name))
            >>= record_tunnel p)
          s
        ≡ (ok u, s')
      → is_tunnel_named name u ≡ true
  created client u s s' e =
      let (t, v, o, q) =
        bind-first (wrapping "create Cloudflare Tunnel: %w" (perform p (create_tunnel client name)))
          (record_tunnel p) s s' u e in
      rw (← recorded t u v s' q) (
        performed client s t (
          wrapping-ok "create Cloudflare Tunnel: %w" (perform p (create_tunnel client name)) s t o))

  found_tunnel :
      (x : Err) (t u : Tunnel) (s s' : State Binding)
      → (if not (is_tunnel_named name t) then fail x else record_tunnel p t) s ≡ (ok u, s')
      → is_tunnel_named name u ≡ true
  found_tunnel x t u s s' e = elim (Bool-cases (is_tunnel_named name t)) [
    | inr no' ↦ absurd (fail-ne-ok x u s s' (rw no' at e))
    | inl yes' ↦ rw (← recorded t u s s' (rw yes' at e)) yes'
  ]

  owned_tunnel :
      (x : Err) (t u : Tunnel) (s s' : State Binding)
      → (if not (is_tunnel_named name t) then fail x else pure t) s ≡ (ok u, s')
      → is_tunnel_named name u ≡ true
  owned_tunnel x t u s s' e = elim (Bool-cases (is_tunnel_named name t)) [
    | inr no' ↦ absurd (fail-ne-ok x u s s' (rw no' at e))
    | inl yes' ↦ rw (← same_tunnel t u s s' (rw yes' at e)) yes'
  ]

  by_found :
      (client : Client) (o : Option Tunnel) (u : Tunnel) (t s' : State Binding)
      → on_option o
          (wrapping "create Cloudflare Tunnel: %w" (perform p (create_tunnel client name))
            >>= record_tunnel p)
          (λ tunnel.
            if not (is_tunnel_named name tunnel)
            then fail (message "refusing to adopt Cloudflare Tunnel with incompatible identity" [])
            else record_tunnel p tunnel)
          t
        ≡ (ok u, s')
      → is_tunnel_named name u ≡ true
  unfolding on_option
  by_found client none u t s' q = created client u t s' q
  by_found client (some v) u t s' q = found_tunnel _ v u t s' q

  adopted :
      (client : Client) (u : Tunnel) (s s' : State Binding)
      → adopt_or_create p client name s ≡ (ok u, s')
      → is_tunnel_named name u ≡ true
  unfolding adopt_or_create
  adopted client u s s' e =
      let (o, t, q) =
        bind-ok
          (wrapping "find Cloudflare Tunnel: %w" (perform p (find_tunnel_by_name client name))) _ s
          s' u e in
      by_found client o u t s' q

  by_owned :
      (client : Client) (o : Option Tunnel) (u : Tunnel) (t s' : State Binding)
      → on_option o
          (adopt_or_create p client name)
          (λ tunnel.
            if not (is_tunnel_named name tunnel)
            then fail (message "owned Cloudflare Tunnel identity does not match binding" [])
            else pure tunnel)
          t
        ≡ (ok u, s')
      → is_tunnel_named name u ≡ true
  unfolding on_option
  by_owned client none u t s' q = adopted client u t s' q
  by_owned client (some v) u t s' q = owned_tunnel _ v u t s' q

  by_status :
      (client : Client) (b : Bool) (id : Text) (u : Tunnel) (t s' : State Binding)
      → (if b
            then adopt_or_create p client name
            else (wrapping "get owned Cloudflare Tunnel: %w" (perform p (get_tunnel client id))
                >>= λ owned. on_option owned (adopt_or_create p client name) (λ tunnel.
                  if not (is_tunnel_named name tunnel)
                  then fail (message "owned Cloudflare Tunnel identity does not match binding" [])
                  else pure tunnel)))
          t
        ≡ (ok u, s')
      → is_tunnel_named name u ≡ true
  by_status client true id u t s' q = adopted client u t s' q
  by_status client false id u t s' q =
      let (o, v, e) =
        bind-ok (wrapping "get owned Cloudflare Tunnel: %w" (perform p (get_tunnel client id))) _ t
          s' u q in
      by_owned client o u v s' e

  named-fields :
      (t : Tunnel)
      → is_tunnel_named name t ≡ true
      → (t.name ≡ name) × (t.config_source ≡ config_source_cloudflare)
  named-fields t h = ground arith

  -- If Cloudflare creates tunnels as it is asked to, the tunnel that a successful `ensure_tunnel` of a
  -- binding returns has the name that was asked for and is configured remotely.
  pub binding_tunnel_identity :
      (client : Client) (u : Tunnel) (s s' : State Binding)
      → ensure_tunnel p client name s ≡ (ok u, s')
      → (u.name ≡ name) × (u.config_source ≡ config_source_cloudflare)
  unfolding ensure_tunnel
  binding_tunnel_identity client u s s' e =
      let (b, t, q) = bind-ok current _ s s' u e in
      named-fields u (by_status client (b.status.tunnel_id == []) b.status.tunnel_id u t s' q)
