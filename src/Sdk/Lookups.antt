-- ===== src/Sdk/Lookups.antt =====
-- What the client's searches find in the answers of the API.
use kflared.Base.{
  ◌≡◌, ◌≢◌, refl, arith, ◌↔◌, ◌⊎◌, inl, inr, true, false, ◌&&◌, none, some, List, [], ◌∷◌, Text,
  All, Any, text_eq, ◌==◌, Bool-cases,
}
use kflared.Base.Sums.{head_both, head_right}
use kflared.Errors.{ok}
use kflared.Cloudflare.{PrivateRoute, Client}
use kflared.Sdk.{
  SdkTunnel, SdkRoute, Request, tunnels_list, routes_list, Api, tunnel_of, route_of, is_alive,
  first_named, alive_routes, find_tunnel_by_name, list_private_routes,
}

same_name : (s t : Text) → (s == t) ≡ true → s ≡ t
same_name s t h = ground arith

other_name : (s t : Text) → (s == t) ≡ false → s ≢ t
other_name s t h e = ground arith

abbrev Found : Text → List SdkTunnel → Type 0
Found name ts =
    (t : SdkTunnel) × (first_named name ts ≡ some (tunnel_of t))
    × Any (λ u. u ≡ t) ts
    × (t.name ≡ name)

first_named-cases :
    (name : Text) (ts : List SdkTunnel)
    → ((first_named name ts ≡ none) × All (λ t. t.name ≢ name) ts) ⊎ Found name ts
unfolding first_named
first_named-cases name [] = inl (refl, tt)
first_named-cases name (t ∷ ts) = elim (Bool-cases (t.name == name)) [
  | inl yes' ↦ inr (t, rw yes' refl, inl refl, same_name t.name name yes')
  | inr no' ↦ elim (first_named-cases name ts) [
    | inl (e, rest) ↦ inl (rw no' e, (other_name t.name name no', rest))
    | inr (u, e, here, n) ↦ inr (u, rw no' e, inr here, n)
  ]
]

-- The route is one of the listing, for the network, and not deleted.
abbrev pub Shows : Text → PrivateRoute → SdkRoute → Type 0
Shows network x c = (route_of c ≡ x) × (c.network ≡ network) × (is_alive c ≡ true)

shown :
    (network : Text) (c : SdkRoute)
    → (c.network == network && is_alive c) ≡ true
    → (c.network ≡ network) × (is_alive c ≡ true)
shown network c h = (ground arith, ground arith)

hidden :
    (network : Text) (x : PrivateRoute) (c : SdkRoute)
    → (c.network == network && is_alive c) ≡ false
    → ¬ Shows network x c
hidden network x c h (r, n, a) = absurd (ground arith)

alive_routes_iff :
    (network : Text) (xs : List SdkRoute) (x : PrivateRoute)
    → Any (λ y. y ≡ x) (alive_routes network xs) ↔ Any (Shows network x) xs
unfolding alive_routes
alive_routes_iff network [] x = (λ h. h, λ h. h)
alive_routes_iff network (c ∷ xs) x = elim (Bool-cases (c.network == network && is_alive c)) [
  | inl keep ↦ rw keep (
      head_both (λ e. (e, (shown network c keep).0, (shown network c keep).1), λ (e, n, a). e)
        (alive_routes_iff network xs x))
  | inr skip ↦ rw skip (head_right (hidden network x c skip) (alive_routes_iff network xs x))
]

module _ {S : Type 0} (api : Api S) (client : Client) where
  abbrev named_request : Text → Request
  named_request name = tunnels_list client.account_id (some name) 100 false

  -- When the API lists tunnels, the search by name succeeds: it finds nothing if no tunnel of the
  -- page has exactly that name, and otherwise returns a tunnel of the page that has it.
  find_tunnel_by_name_exact :
      (name : Text) (ts : List SdkTunnel) (s s' : S)
      → api s (named_request name) ≡ (ok ts, s')
      → ((find_tunnel_by_name api client name s ≡ (ok none, s')) × All (λ t. t.name ≢ name) ts)
        ⊎ ((t : SdkTunnel) × (find_tunnel_by_name api client name s ≡ (ok (some (tunnel_of t)), s'))
            × Any (λ u. u ≡ t) ts
            × (t.name ≡ name))
  unfolding find_tunnel_by_name
  find_tunnel_by_name_exact name ts s s' e = elim (first_named-cases name ts) [
    | inl (f, all) ↦ inl (rw e (rw f refl), all)
    | inr (t, f, here, n) ↦ inr (t, rw e (rw f refl), here, n)
  ]

  -- When the API goes through its listing without an error, the routes for a network are exactly
  -- those of the listing whose network is that text and that are not deleted.
  pub list_private_routes_exact :
      (network : Text) (xs : List SdkRoute) (s s' : S)
      → api s (routes_list client.account_id network false) ≡ (ok (xs, none), s')
      → (routes : List PrivateRoute) × (list_private_routes api client network s ≡ (ok routes, s'))
        × ((x : PrivateRoute) → Any (λ y. y ≡ x) routes ↔ Any (Shows network x) xs)
  unfolding list_private_routes
  list_private_routes_exact network xs s s' e =
      (alive_routes network xs, rw e refl, alive_routes_iff network xs)
