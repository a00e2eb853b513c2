-- ===== src/PrivateRoutes/Status/Patches.antt =====
-- What a status patch keeps: the UID, where the server answers with the object that was sent.
use kflared.Base.{◌≡◌, ◌∙◌, true, Text}
use kflared.Errors.{ok}
use kflared.Api.{CloudflareTunnelPrivateRoute, PrivateRouteStatus}
use kflared.Platform.{Platform, History, State, ◌>>=◌, assign}
use kflared.Platform.{patch_route}
use kflared.Platform.Keeps.{Policy, Inv, Keeps, Keeps-current, Keeps-bind, Keeps-assign, Keeps-call}
use kflared.Platform.Gives.{
  Gives, Once, Anything, Gives-weaken, Gives-assign, Gives-current, Gives-bind, Gives-perform,
}
use kflared.PrivateRoutes.Status.{patch_status}

abbrev Route : Type 0
Route = CloudflareTunnelPrivateRoute

-- The answer to a status patch is an object with the UID of the one that was sent.
pub record KeepsUid (p : Platform) : Type 0 where
  pub same :
      (h : History) (base next : Route) {o : Route}
      → p.answer h (patch_route base next) ≡ ok o
      → o.uid ≡ next.uid

-- The answer to a status patch records the tunnel's name that was sent.
pub record KeepsTunnelName (p : Platform) : Type 0 where
  pub named :
      (h : History) (base next : Route) {o : Route}
      → p.answer h (patch_route base next) ≡ ok o
      → o.status.tunnel_name ≡ next.status.tunnel_name

-- What is fixed about the object: its UID.
abbrev pub HasUid : Text → Route → Type 0
HasUid uid route = route.uid ≡ uid

module _ (p : Platform) (server : KeepsUid p) (uid : Text) (policy : Policy) where
  patched-Inv :
      (base next o : Route) (h : History) (s : State Route)
      → HasUid uid next
      → p.answer h (patch_route base next) ≡ ok o
      → Inv policy (HasUid uid) s
      → Inv policy (HasUid uid) (assign o s).1
  unfolding ◌>>=◌
  patched-Inv base next o h s u e i = record {
    obeys = i.obeys;
    holds = server.same h base next e ∙ u;
  }

  pub patch_status-Keeps :
      ((base next : Route) (h : History) → policy (patch_route base next) h ≡ true)
      → (change : Route → PrivateRouteStatus) → Keeps policy (HasUid uid) (patch_status p change)
  unfolding patch_status
  patch_status-Keeps allowed change = Keeps-current _ λ before u.
      Keeps-bind _ _ (Keeps-assign (record before { status = change before }) u) λ _.
        Keeps-call p (patch_route before (record before { status = change before })) assign
          (allowed before (record before { status = change before }))
          λ h o s e l i. patched-Inv before (record before { status = change before }) o h s u e i

-- The object has the UID, and records a tunnel of this name.
abbrev pub HasTunnel : Text → Text → Route → Type 0
HasTunnel uid name route = (route.uid ≡ uid) × (route.status.tunnel_name ≡ name)

module _ (p : Platform) (server : KeepsUid p) (keeper : KeepsTunnelName p) (uid name : Text)
    (policy : Policy) where
  named-Inv :
      (base next o : Route) (h : History) (s : State Route)
      → HasTunnel uid name next
      → p.answer h (patch_route base next) ≡ ok o
      → Inv policy (HasTunnel uid name) s
      → Inv policy (HasTunnel uid name) (assign o s).1
  unfolding ◌>>=◌
  named-Inv base next o h s (u, n) e i = record {
    obeys = i.obeys;
    holds = (server.same h base next e ∙ u, keeper.named h base next e ∙ n);
  }

  -- A patch that leaves the tunnel's name.
  pub patch_status-Named :
      ((base next : Route) (h : History) → policy (patch_route base next) h ≡ true)
      → (change : Route → PrivateRouteStatus)
      → ((route : Route) → (change route).tunnel_name ≡ route.status.tunnel_name)
      → Keeps policy (HasTunnel uid name) (patch_status p change)
  unfolding patch_status
  patch_status-Named allowed change leaves = Keeps-current _ λ before (u, n).
      let next : Route = record before { status = change before } in
      let known : HasTunnel uid name next = (u, leaves before ∙ n) in
      Keeps-bind _ _ (Keeps-assign next known) λ _.
        Keeps-call p (patch_route before next) assign (allowed before next)
          λ h o s e l i. named-Inv before next o h s known e i

module _ (p : Platform) (uid : Text) where
  -- A patch that succeeds sent the changed status of the object with the UID.
  pub record IsPatched (change : Route → PrivateRouteStatus) : Type 0 where
    pub base : Route
    pub same : HasUid uid base
    pub patched : Route
    pub sent : Once p (patch_route base (record base { status = change base })) patched

module _ (p : Platform) (server : KeepsUid p) (uid : Text) where
  pub patch_status-Patched :
      (change : Route → PrivateRouteStatus)
      → Gives (HasUid uid) (patch_status p change) (λ _. IsPatched p uid change)
  unfolding patch_status
  patch_status-Patched change = Gives-current _ λ before u.
      let next : Route = record before { status = change before } in
      Gives-bind _ _ (Gives-assign next u) λ _ _.
        Gives-bind _ _ (Gives-perform p (patch_route before next)) λ o (h, e).
          Gives-weaken _ (Gives-assign o (server.same h before next e ∙ u))
            λ _ _. record { base = before; same = u; patched = o; sent = (h, e) }

  pub patch_status-Gives :
      (change : Route → PrivateRouteStatus) → Gives (HasUid uid) (patch_status p change) Anything
  patch_status-Gives change = Gives-weaken _ (patch_status-Patched change) (λ _ _. tt)
