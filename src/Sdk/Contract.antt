-- ===== src/Sdk/Contract.antt =====
-- What the controllers may rely on in a client, and that the client of the SDK provides it.
use kflared.Base.{
  ◌≡◌, ◌≢◌, refl, sym, ◌∙◌, arith, false, ◌&&◌, Option, none, some, List, [], ◌∷◌, Text, All,
  text_eq, ◌==◌, Bool-cases, inl, inr,
}
use kflared.Errors.{Err, Result, ok, err}
use kflared.Cloudflare.{Tunnel, PrivateRoute, Client, config_source_cloudflare}
use kflared.Platform.{
  Platform, History, create_tunnel, find_tunnel_by_name, list_private_routes, get_token, get_tunnel,
  delete_tunnel, get_private_route, delete_private_route,
}
use kflared.Sdk
use kflared.Sdk.{
  SdkTunnel, SdkRoute, tunnels_new, Api, is_api_not_found, tunnel_of, is_alive, first_named,
  alive_routes, checked_token, answered, unless_gone,
}

-- The contract of the `Client` interface, of every answer that the platform gives.
pub record IsClient (p : Platform) : Type 0 where
  -- a new tunnel is the one that was asked for
  pub created :
      (h : History) (client : Client) (name : Text) {t : Tunnel}
      → p.answer h (create_tunnel client name) ≡ ok t
      → (t.name ≡ name) × (t.config_source ≡ config_source_cloudflare)
  -- a tunnel that is found has the name
  pub found :
      (h : History) (client : Client) (name : Text) {t : Tunnel}
      → p.answer h (find_tunnel_by_name client name) ≡ ok (some t)
      → t.name ≡ name
  -- routes that are listed are for the network
  pub listed :
      (h : History) (client : Client) (network : Text) {xs : List PrivateRoute}
      → p.answer h (list_private_routes client network) ≡ ok xs
      → All (λ x. x.network ≡ network) xs
  -- a token is not empty
  pub token :
      (h : History) (client : Client) (id : Text) {t : Text}
      → p.answer h (get_token client id) ≡ ok t
      → t ≢ []
  -- what is gone is no error, neither to reads nor to deletions
  pub gone :
      (h : History) (client : Client) (id : Text) {e : Err}
      → (p.answer h (get_tunnel client id) ≡ err e → is_api_not_found e ≡ false)
        × (p.answer h (delete_tunnel client id) ≡ err e → is_api_not_found e ≡ false)
        × (p.answer h (get_private_route client id) ≡ err e → is_api_not_found e ≡ false)
        × (p.answer h (delete_private_route client id) ≡ err e → is_api_not_found e ≡ false)

module _ {S : Type 0} (api : Api S) where
  -- What Cloudflare documents of a creation: the new tunnel has the name and the source of the
  -- configuration that were sent.
  pub record Echoes : Type 0 where
    pub echo :
        (account name source : Text) (s : S) {t : SdkTunnel}
        → (api s (tunnels_new account name source)).0 ≡ ok t
        → (t.name ≡ name) × (t.config_src ≡ source)

  -- The platform's answers are those of the SDK's client at some state of the API.
  pub record Serves (p : Platform) : Type 0 where
    pub at : History → S
    pub creates :
        (h : History) (c : Client) (name : Text)
        → p.answer h (create_tunnel c name) ≡ (Sdk.create_tunnel api c name (at h)).0
    pub finds :
        (h : History) (c : Client) (name : Text)
        → p.answer h (find_tunnel_by_name c name) ≡ (Sdk.find_tunnel_by_name api c name (at h)).0
    pub lists :
        (h : History) (c : Client) (network : Text)
        → p.answer h (list_private_routes c network)
          ≡ (Sdk.list_private_routes api c network (at h)).0
    pub tokens :
        (h : History) (c : Client) (id : Text)
        → p.answer h (get_token c id) ≡ (Sdk.get_token api c id (at h)).0
    pub gets :
        (h : History) (c : Client) (id : Text)
        → p.answer h (get_tunnel c id) ≡ (Sdk.get_tunnel api c id (at h)).0
    pub deletes :
        (h : History) (c : Client) (id : Text)
        → p.answer h (delete_tunnel c id) ≡ (Sdk.delete_tunnel api c id (at h)).0
    pub gets_route :
        (h : History) (c : Client) (id : Text)
        → p.answer h (get_private_route c id) ≡ (Sdk.get_private_route api c id (at h)).0
    pub deletes_route :
        (h : History) (c : Client) (id : Text)
        → p.answer h (delete_private_route c id) ≡ (Sdk.delete_private_route api c id (at h)).0

ok_ne_err : {A : Type 0} (a : A) (e : Err) → ¬ (◌≡◌ {A = Result A} (ok a) (err e))
ok_ne_err a e h = ground arith

named_answer :
    (name : Text) (r : Result SdkTunnel) (t : Tunnel)
    → ((u : SdkTunnel) → r ≡ ok u → (u.name ≡ name) × (u.config_src ≡ config_source_cloudflare))
    → answered r err (λ u. ok (tunnel_of u)) ≡ ok t
    → (t.name ≡ name) × (t.config_source ≡ config_source_cloudflare)
named_answer name (err e) t echo h = absurd (ground arith)
named_answer name (ok u) t echo h = let same : tunnel_of u ≡ t = cc h in rw (← same) (echo u refl)

first_named-name :
    (name : Text) (ts : List SdkTunnel) (t : Tunnel) → first_named name ts ≡ some t → t.name ≡ name
unfolding first_named
first_named-name name [] t h = absurd (ground arith)
first_named-name name (u ∷ ts) t h = elim (Bool-cases (u.name == name)) [
  | inl yes' ↦ let same : tunnel_of u ≡ t = cc (rw yes' at h) in rw (← same) (ground arith)
  | inr no' ↦ first_named-name name ts t (rw no' at h)
]

found_answer :
    (name : Text) (r : Result (List SdkTunnel)) (t : Tunnel)
    → answered r err (λ ts. ok (first_named name ts)) ≡ ok (some t)
    → t.name ≡ name
found_answer name (err e) t h = absurd (ground arith)
found_answer name (ok ts) t h = first_named-name name ts t (cc h)

alive_routes-network :
    (network : Text) (xs : List SdkRoute) → All (λ x. x.network ≡ network) (alive_routes network xs)
unfolding alive_routes
alive_routes-network network [] = tt
alive_routes-network network (x ∷ xs) = elim (Bool-cases (x.network == network && is_alive x)) [
  | inl keep ↦ rw keep (ground arith, alive_routes-network network xs)
  | inr skip ↦ rw skip (alive_routes-network network xs)
]

listed_answer :
    (network : Text) (r : Result (List SdkRoute × Option Err)) (xs : List PrivateRoute)
    → answered r err (λ (ys, e). elim e [ none ↦ ok (alive_routes network ys) | some e' ↦ err e' ])
      ≡ ok xs
    → All (λ x. x.network ≡ network) xs
listed_answer network (err e) xs h = absurd (ground arith)
listed_answer network (ok (ys, some e)) xs h = absurd (ground arith)
listed_answer network (ok (ys, none)) xs h =
    let same : alive_routes network ys ≡ xs = cc h in rw (← same) (alive_routes-network network ys)

gone_answer :
    {A B : Type 0} (r : Result A) (b : B) (g : A → B) (e : Err)
    → answered r (unless_gone b) (λ a. ok (g a)) ≡ err e
    → is_api_not_found e ≡ false
gone_answer (ok a) b g e h = absurd (ground arith)
gone_answer (err x) b g e h = elim (Bool-cases (is_api_not_found x)) [
  | inl yes' ↦ absurd (ok_ne_err b e (rw yes' at h))
  | inr no' ↦ let same : x ≡ e = cc (rw no' at h) in rw (← same) no'
]

token_answer : (r : Result (Option Text)) (t : Text) → answered r err checked_token ≡ ok t → t ≢ []
token_answer (err e) t h n = absurd (ground arith)
token_answer (ok none) t h n = absurd (ground arith)
token_answer (ok (some [])) t h n = absurd (ground arith)
token_answer (ok (some (c ∷ s))) t h n = ground arith

-- If the platform's answers about tunnels and routes are those of the SDK's client, over an API that
-- creates tunnels as it is asked to, then the platform keeps the contract: a new tunnel has the
-- name that was asked for and is configured remotely, one that is found by name has the name, routes
-- that are listed are for the network, a token is not empty, and no read or deletion of something
-- fails because it is gone.
pub Serves-IsClient :
    {S : Type 0} (api : Api S) (p : Platform) → Echoes api → Serves api p → IsClient p
unfolding Sdk.create_tunnel Sdk.find_tunnel_by_name Sdk.list_private_routes Sdk.get_token
    Sdk.get_tunnel Sdk.delete_tunnel Sdk.get_private_route Sdk.delete_private_route
Serves-IsClient api p echoes serves = record {
  created = λ h c name e.
      named_answer name _ _ (λ u q. echoes.echo c.account_id name config_source_cloudflare _ q)
        (sym (serves.creates h c name) ∙ e);
  found = λ h c name e. found_answer name _ _ (sym (serves.finds h c name) ∙ e);
  listed = λ h c network e. listed_answer network _ _ (sym (serves.lists h c network) ∙ e);
  token = λ h c id e. token_answer _ _ (sym (serves.tokens h c id) ∙ e);
  gone = λ h c id. (
    λ e. gone_answer _ none _ _ (sym (serves.gets h c id) ∙ e),
    λ e. gone_answer _ tt _ _ (sym (serves.deletes h c id) ∙ e),
    λ e. gone_answer _ none _ _ (sym (serves.gets_route h c id) ∙ e),
    λ e. gone_answer _ tt _ _ (sym (serves.deletes_route h c id) ∙ e),
  );
}
