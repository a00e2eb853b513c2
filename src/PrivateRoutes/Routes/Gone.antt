-- ===== src/PrivateRoutes/Routes/Gone.antt =====
-- What is gone where `deleteRoute` succeeds.
use kflared.Base.{
  ◌≡◌, arith, Bool, true, false, not, ◌&&◌, ◌||◌, Option, none, some, List, [], ◌∷◌, Text, text_eq,
  ◌==◌, All,
}
use kflared.Api.{CloudflareTunnelPrivateRoute}
use kflared.Cloudflare.{Client, PrivateRoute}
use kflared.Platform.{
  Platform, perform, delete_private_route, list_private_routes, get_private_route,
}
use kflared.Platform.Gives.{
  Gives, Once, Gives-bind, Gives-current, Gives-fail, Gives-if, Gives-perform, Gives-pure,
  Gives-weaken,
}
use kflared.PrivateRoutes.Routes.{private_owned, delete_listed, delete_found, delete_route}

abbrev Route : Type 0
Route = CloudflareTunnelPrivateRoute

module _ (p : Platform) (client : Client) (route : Route) where
  -- A listed route for the network with the comment of the UID was deleted.
  abbrev pub IsCleared : PrivateRoute → Type 0
  IsCleared c =
      (c.network == route.status.network && private_owned c route) ≡ true
      → Once p (delete_private_route client c.id) tt

  -- The known route is not there, or was found to be this object's, for the network, and was deleted.
  abbrev pub IsFoundGone : Option PrivateRoute → Type 0
  IsFoundGone none = Unit {0}
  IsFoundGone (some c) =
      (private_owned c route ≡ true)
      × (c.network ≡ route.status.network)
      × Once p (delete_private_route client c.id) tt

  pub data IsRouteGone : Type 0 where
    listed_gone :
        (existing : List PrivateRoute)
        → route.status.route_id ≡ []
        → Once p (list_private_routes client route.status.network) existing
        → All IsCleared existing
        → IsRouteGone
    found_gone :
        (found : Option PrivateRoute)
        → Once p (get_private_route client route.status.route_id) found
        → IsFoundGone found
        → IsRouteGone

  abbrev Same : Route → Type 0
  Same o = o ≡ route

  unlisted :
      (b : Bool) (c : PrivateRoute)
      → b ≡ false
      → b ≡ true
      → Once p (delete_private_route client c.id) tt
  unlisted b c other ours = absurd (ground (arith, other, ours))

  delete_listed-Gone :
      (existing : List PrivateRoute)
      → Gives Same (delete_listed p client route existing) (λ _. All IsCleared existing)
  unfolding delete_listed
  delete_listed-Gone [] = Gives-pure tt tt
  delete_listed-Gone (c ∷ existing) =
      let rest = delete_listed-Gone existing in
      Gives-if (c.network == route.status.network && private_owned c route) _ _
        (λ ours.
          Gives-bind _ _ (Gives-perform p (delete_private_route client c.id))
            λ _ deleted. Gives-weaken _ rest (λ _ all. ((λ _. deleted), all)))
        (λ other. Gives-weaken _ rest (λ _ all. (unlisted _ c other, all)))

  checked :
      (owned : Bool) (a b : Text) → (not owned || not (a == b)) ≡ false → (owned ≡ true) × (a ≡ b)
  checked owned a b h = (ground arith, ground arith)

  delete_found-Gone :
      (found : Option PrivateRoute)
      → Gives Same (delete_found p client route found) (λ _. IsFoundGone found)
  unfolding delete_found
  delete_found-Gone none = Gives-pure tt tt
  delete_found-Gone (some c) =
      Gives-if (not (private_owned c route) || not (c.network == route.status.network)) _
        (perform p (delete_private_route client c.id)) (λ bad. Gives-fail _)
        λ good.
          let (owned, same) = checked (private_owned c route) c.network route.status.network good in
          Gives-weaken _ (Gives-perform p (delete_private_route client c.id))
            (λ _ deleted. (owned, same, deleted))

  empty_text : (s : Text) → (s == []) ≡ true → s ≡ []
  empty_text s h = ground arith

  pub delete_route-Gone : Gives Same (delete_route p client) (λ _. IsRouteGone)
  unfolding delete_route
  delete_route-Gone = Gives-current _ λ o same. rw same (
      Gives-if (route.status.route_id == []) _ _
        (λ unknown.
          Gives-bind _ _ (Gives-perform p (list_private_routes client route.status.network))
            λ existing shown.
              Gives-weaken _ (delete_listed-Gone existing)
                (λ _ all. listed_gone existing (empty_text _ unknown) shown all))
        (λ known.
          Gives-bind _ _ (Gives-perform p (get_private_route client route.status.route_id))
            λ found shown.
              Gives-weaken _ (delete_found-Gone found) (λ _ gone. found_gone found shown gone)))
