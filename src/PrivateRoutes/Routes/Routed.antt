-- ===== src/PrivateRoutes/Routes/Routed.antt =====
-- What Cloudflare showed where `ensureRoute` succeeds.
use kflared.Base.{
  ◌≡◌, refl, ap, ◌∙◌, arith, ◌⊎◌, inl, inr, Bool, true, false, not, ◌&&◌, ◌||◌, Option, none, some,
  List, [], ◌∷◌, Text, text_eq, ◌==◌, Any, Bool-cases,
}
use kflared.Errors.{ok}
use kflared.Api.{CloudflareTunnelPrivateRoute, PrivateRouteStatus}
use kflared.Cloudflare.{PrivateRoute, Client, Tunnel}
use kflared.Platform.{
  Platform, History, M, get_private_route, list_private_routes, create_private_route,
}
use kflared.Platform.Gives.{
  Gives, Anything, Gives-bind, Gives-current, Gives-fail, Gives-if, Gives-perform, Gives-pure,
  Gives-weaken,
}
use kflared.PrivateRoutes.Owned.{comment_of}
use kflared.PrivateRoutes.Status.{private_comment, patch_status}
use kflared.PrivateRoutes.Status.Patches.{KeepsUid, HasUid, patch_status-Gives}
use kflared.PrivateRoutes.Routes.{
  note_network, private_owned, first_on_network, note_created, create_route, record_network,
  adopt_first, adopt_or_create, check_known, ensure_route,
}
use kflared.PrivateRoutes.Routes.Ownership.{owned-comment, comment-HasUid}

abbrev Route : Type 0
Route = CloudflareTunnelPrivateRoute

first_on_network-some :
    (network : Text) (routes : List PrivateRoute) (c : PrivateRoute)
    → first_on_network network routes ≡ some c
    → Any (λ x. x ≡ c) routes × (c.network ≡ network)
unfolding first_on_network
first_on_network-some network [] c e = absurd (ground arith)
first_on_network-some network (x ∷ routes) c e = elim (Bool-cases (x.network == network)) [
  | inl here ↦ let same : x ≡ c = ground arith in (inl same, rw (← same) (ground arith))
  | inr no' ↦
      let (any, named) = first_on_network-some network routes c (rw no' at e) in (inr any, named)
]

module _ (p : Platform) (client : Client) (tunnel : Tunnel) (network : Text) where
  -- An answer to a read, a listing or a creation shows the route.
  abbrev pub IsShown : PrivateRoute → Type 0
  IsShown c =
      ((h : History) × (id : Text) × (p.answer h (get_private_route client id) ≡ ok (some c)))
      ⊎ ((h : History) × (listed : List PrivateRoute) × (p.answer h
              (list_private_routes client network)
            ≡ ok listed)
          × Any (λ x. x ≡ c) listed)
      ⊎ ((h : History) × (comment : Text) × (p.answer h
              (create_private_route client network tunnel.id comment)
            ≡ ok (some c)))

  -- Cloudflare showed a route for the network to the tunnel, with the comment of the object's UID.
  pub record IsRouted (uid : Text) : Type 0 where
    pub shown : PrivateRoute
    pub answered : IsShown shown
    pub comment : shown.comment ≡ comment_of uid
    pub on_network : shown.network ≡ network
    pub to_tunnel : shown.tunnel_id ≡ tunnel.id

all_same :
    (a b c : Bool) → (not a || (not b || not c)) ≡ false → (a ≡ true) × (b ≡ true) × (c ≡ true)
all_same a b c h = (ground arith, ground arith, ground arith)

both_true : (a b : Bool) → (a && b) ≡ true → (a ≡ true) × (b ≡ true)
both_true a b h = (ground arith, ground arith)

equal_text : (s t : Text) → (s == t) ≡ true → s ≡ t
equal_text s t h = ground arith

module _ (p : Platform) (server : KeepsUid p) (uid : Text) (client : Client) (tunnel : Tunnel)
    (network : Text) where
  abbrev Routes : {A : Type 0} → M Route A → Type 0
  Routes m = Gives (HasUid uid) m (λ _. IsRouted p client tunnel network uid)

  routed :
      (c : PrivateRoute) (route : Route)
      → IsShown p client tunnel network c
      → HasUid uid route
      → private_owned c route ≡ true
      → c.network ≡ network
      → c.tunnel_id ≡ tunnel.id
      → IsRouted p client tunnel network uid
  routed c route shown u owned on_network to_tunnel = record {
    shown = c;
    answered = shown;
    comment = owned-comment c route owned ∙ comment-HasUid uid route u;
    on_network = on_network;
    to_tunnel = to_tunnel;
  }

  noted-Routes :
      (change : Route → PrivateRouteStatus)
      → IsRouted p client tunnel network uid
      → Routes (patch_status p change)
  noted-Routes change x = Gives-weaken _ (patch_status-Gives p server uid change) (λ _ _. x)

  note_created-Routes :
      (route : Route) (o : Option PrivateRoute)
      → HasUid uid route
      → ((c : PrivateRoute) → o ≡ some c → IsShown p client tunnel network c)
      → Routes (note_created p tunnel network route o)
  unfolding note_created
  note_created-Routes route none u shown = Gives-fail _
  note_created-Routes route (some c) u shown =
      Gives-if _ _ _ (λ bad. Gives-fail _)
        λ good.
          let (owned, here, there) = all_same (private_owned c route) _ _ good in
          noted-Routes _
            (routed c route (shown c refl) u owned (equal_text _ _ here) (equal_text _ _ there))

  create_route-Routes : Routes (create_route p client tunnel network)
  unfolding create_route
  create_route-Routes = Gives-current _ λ route u.
      Gives-bind _ _
        (Gives-perform p (create_private_route client network tunnel.id (private_comment route)))
        λ created (h, e).
          note_created-Routes route created u
            λ c same. inr (inr (h, private_comment route, e ∙ ap (λ o. ok o) same))

  record_network-Gives : Gives (HasUid uid) (record_network p network) Anything
  unfolding record_network
  record_network-Gives = Gives-current _ λ route u.
      Gives-if (not (route.status.network == network)) (patch_status p (note_network network)) _
        (λ _. patch_status-Gives p server uid (note_network network)) (λ _. Gives-pure tt tt)

  adopt_first-Routes :
      (route : Route) (o : Option PrivateRoute)
      → HasUid uid route
      → ((c : PrivateRoute)
          → o ≡ some c
          → IsShown p client tunnel network c × (c.network ≡ network))
      → Routes (adopt_first p client tunnel network route o)
  unfolding adopt_first
  adopt_first-Routes route none u shown =
      Gives-bind _ _ record_network-Gives (λ _ _. create_route-Routes)
  adopt_first-Routes route (some c) u shown =
      Gives-if _ _ _
        (λ good.
          let (owned, there) = both_true (private_owned c route) _ good in
          let (answered, here) = shown c refl in
          noted-Routes _ (routed c route answered u owned here (equal_text _ _ there)))
        (λ bad. Gives-fail _)

  adopt_or_create-Routes : Routes (adopt_or_create p client tunnel network)
  unfolding adopt_or_create
  adopt_or_create-Routes = Gives-current _ λ route u.
      Gives-bind _ _ (Gives-perform p (list_private_routes client network)) λ existing (h, e).
        adopt_first-Routes route (first_on_network network existing) u λ c found.
          let (any, here) = first_on_network-some network existing c found in
          (inr (inl (h, existing, e, any)), here)

  check_known-Routes :
      (id : Text) (route : Route) (o : Option PrivateRoute) (h : History)
      → p.answer h (get_private_route client id) ≡ ok o
      → HasUid uid route
      → Routes (check_known p client tunnel network route o)
  unfolding check_known
  check_known-Routes id route none h e u =
      Gives-bind _ _ (patch_status-Gives p server uid _) (λ _ _. adopt_or_create-Routes)
  check_known-Routes id route (some c) h e u =
      Gives-if _ _ _ (λ bad. Gives-fail _)
        λ good.
          let (owned, here, there) = all_same (private_owned c route) _ _ good in
          Gives-pure tt
            (routed c route (inl (h, id, e)) u owned (equal_text _ _ here) (equal_text _ _ there))

  -- Where `ensure_route` succeeds for the object with this UID, Cloudflare showed its route.
  pub ensure_route-Routes : Routes (ensure_route p client tunnel network)
  unfolding ensure_route
  ensure_route-Routes = Gives-current _ λ route u.
      Gives-if _ _ _ (λ _. adopt_or_create-Routes)
        λ _.
          Gives-bind _ _ (Gives-perform p (get_private_route client route.status.route_id))
            λ found (h, e). check_known-Routes route.status.route_id route found h e u
