-- ===== src/Sdk.antt =====
-- internal/cloudflare/sdk.go: the client of internal/cloudflare/client.go that Cloudflare's SDK
-- backs. The SDK, with the API behind it, is a parameter: a function that answers each request, and
-- the state that it keeps.
pub mod Lookups
pub mod Configurations
pub mod Credentials
pub mod Contract
pub mod Tunnels
use kflared.Base.{
  ℕ, Bool, true, false, ◌&&◌, ◌||◌, Option, none, some, List, [], ◌∷◌, map, Text, text_eq, nat_eq,
  ◌==◌, if◌then◌else◌,
}
use kflared.Errors.{
  Err, status_code, credentials_rejected, message, wrapped, joined, Result, ok, err,
}
use kflared.Cloudflare.{Tunnel, PrivateRoute, Client, config_source_cloudflare}
use kflared.Planner.Ingress.{IngressRule}

-- The fields of the SDK's results that the client reads. A time that is not zero is `some`.
pub record SdkTunnel : Type 0 where
  pub id : Text
  pub name : Text
  pub config_src : Text
  pub status : Text

pub record SdkRoute : Type 0 where
  pub id : Text
  pub network : Text
  pub tunnel_id : Text
  pub comment : Text
  pub virtual_network_id : Text
  pub deleted_at : Option ℕ

-- An ingress rule of a result, and one of a request, whose fields may be left out.
pub record SdkIngress : Type 0 where
  pub hostname : Text
  pub service : Text
  pub path : Text

pub record IngressParams : Type 0 where
  pub hostname : Option Text
  pub service : Text
  pub path : Option Text

-- The requests, each with the account first.
pub data Request : Type 0 where
  -- name, page size, whether deleted tunnels are meant
  tunnels_list : Text → Option Text → ℕ → Bool → Request
  tunnels_get : Text → Text → Request
  -- name, source of the configuration
  tunnels_new : Text → Text → Text → Request
  tunnels_delete : Text → Text → Request
  configurations_get : Text → Text → Request
  configurations_update : Text → Text → List IngressParams → Request
  token_get : Text → Text → Request
  -- network subset, whether deleted routes are meant
  routes_list : Text → Text → Bool → Request
  routes_get : Text → Text → Request
  -- network, tunnel, comment
  routes_new : Text → Text → Text → Option Text → Request
  routes_delete : Text → Text → Request

abbrev pub Response : Request → Type 0
Response (tunnels_list _ _ _ _) = List SdkTunnel
Response (tunnels_get _ _) = SdkTunnel
Response (tunnels_new _ _ _) = SdkTunnel
Response (tunnels_delete _ _) = Unit
Response (configurations_get _ _) = List SdkIngress
Response (configurations_update _ _ _) = Unit
Response (token_get _ _) = Option Text
-- the routes that the pager went through, and the error that ended it
Response (routes_list _ _ _) = List SdkRoute × Option Err
Response (routes_get _ _) = SdkRoute
Response (routes_new _ _ _ _) = SdkRoute
Response (routes_delete _ _) = Unit

abbrev pub Api : Type 0 → Type 0
Api S = S → (q : Request) → Result (Response q) × S

-- The status of the first error of the API in a chain, which `errors.As` finds.
unfoldable pub api_status : Err → Option ℕ
api_status (status_code n) = some n
api_status (wrapped _ e) = api_status e
api_status (joined e f) = elim (api_status e) [ none ↦ api_status f | some n ↦ some n ]
api_status _ = none

-- `isNotFound` and `isCredentialRejection`
unfoldable pub is_api_not_found : Err → Bool
is_api_not_found e = elim (api_status e) [ none ↦ false | some n ↦ n == 404 ]

unfoldable pub is_credential_rejection : Err → Bool
is_credential_rejection e = elim (api_status e) [ none ↦ false | some n ↦ n == 401 || n == 403 ]

abbrev pub tunnel_of : SdkTunnel → Tunnel
tunnel_of t = record { id = t.id; name = t.name; config_source = t.config_src; status = t.status }

abbrev pub route_of : SdkRoute → PrivateRoute
route_of x = record {
  id = x.id;
  network = x.network;
  tunnel_id = x.tunnel_id;
  comment = x.comment;
  virtual_network_id = x.virtual_network_id;
}

abbrev pub is_alive : SdkRoute → Bool
is_alive x = elim x.deleted_at [ none ↦ true | some _ ↦ false ]

-- What a method makes of the answer, where `f` looks at an error and `g` at a result.
abbrev pub answered : {A B : Type 0} → Result A → (Err → Result B) → (A → Result B) → Result B
answered (ok a) f g = g a
answered (err e) f g = f e

-- `if err != nil && isNotFound(err)`
abbrev pub unless_gone : {B : Type 0} → B → Err → Result B
unless_gone b e = if is_api_not_found e then ok b else err e

unfoldable pub first_named : Text → List SdkTunnel → Option Tunnel
first_named name [] = none
first_named name (t ∷ ts) = if t.name == name then some (tunnel_of t) else first_named name ts

unfoldable pub alive_routes : Text → List SdkRoute → List PrivateRoute
alive_routes network [] = []
alive_routes network (x ∷ xs) =
    let rest = alive_routes network xs in
    if x.network == network && is_alive x then route_of x ∷ rest else rest

-- A field is sent unless it is empty.
abbrev pub unless_empty : Text → Option Text
unless_empty [] = none
unless_empty (c ∷ s) = some (c ∷ s)

abbrev pub rule_params : IngressRule → IngressParams
rule_params rule = record {
  hostname = unless_empty rule.hostname;
  service = rule.service;
  path = unless_empty rule.path;
}

abbrev pub rule_of : SdkIngress → IngressRule
rule_of x = record { hostname = x.hostname; service = x.service; path = x.path }

abbrev pub checked_token : Option Text → Result Text
checked_token none = err (message "cloudflare returned an empty tunnel token" [])
checked_token (some []) = err (message "cloudflare returned an empty tunnel token" [])
checked_token (some (c ∷ s)) = ok (c ∷ s)

-- The methods of `sdkClient`, for a client that `SDKFactory.New` makes.
module _ {S : Type 0} (api : Api S) (client : Client) where
  abbrev method :
      {B : Type 0} → (q : Request) → (Err → Result B) → (Response q → Result B) → S → Result B × S
  method q f g s = let (a, s') = api s q in (answered a f g, s')

  unfoldable pub validate : S → Result (Unit {0}) × S
  validate =
      method (tunnels_list client.account_id none 1 false)
        (λ e. if is_credential_rejection e then err (joined credentials_rejected e) else err e)
        (λ _. ok tt)

  unfoldable pub find_tunnel_by_name : Text → S → Result (Option Tunnel) × S
  find_tunnel_by_name name =
      method (tunnels_list client.account_id (some name) 100 false) err
        (λ ts. ok (first_named name ts))

  unfoldable pub get_tunnel : Text → S → Result (Option Tunnel) × S
  get_tunnel id =
      method (tunnels_get client.account_id id) (unless_gone none) (λ t. ok (some (tunnel_of t)))

  unfoldable pub create_tunnel : Text → S → Result Tunnel × S
  create_tunnel name =
      method (tunnels_new client.account_id name config_source_cloudflare) err
        (λ t. ok (tunnel_of t))

  unfoldable pub get_configuration : Text → S → Result (List IngressRule) × S
  get_configuration id =
      method (configurations_get client.account_id id) err (λ rules. ok (map rule_of rules))

  unfoldable pub update_configuration : Text → List IngressRule → S → Result (Unit {0}) × S
  update_configuration id rules =
      method (configurations_update client.account_id id (map rule_params rules)) err ok

  unfoldable pub get_token : Text → S → Result Text × S
  get_token id = method (token_get client.account_id id) err checked_token

  unfoldable pub delete_tunnel : Text → S → Result (Unit {0}) × S
  delete_tunnel id = method (tunnels_delete client.account_id id) (unless_gone tt) ok

  -- The routes are returned beside the error, which the callers look at first.
  unfoldable pub list_private_routes : Text → S → Result (List PrivateRoute) × S
  list_private_routes network =
      method (routes_list client.account_id network false) err
        λ (xs, e). elim e [ none ↦ ok (alive_routes network xs) | some e' ↦ err e' ]

  unfoldable pub get_private_route : Text → S → Result (Option PrivateRoute) × S
  get_private_route id =
      method (routes_get client.account_id id) (unless_gone none)
        (λ x. ok (if is_alive x then some (route_of x) else none))

  unfoldable pub create_private_route : Text → Text → Text → S → Result PrivateRoute × S
  create_private_route network tunnel_id comment =
      method (routes_new client.account_id network tunnel_id (unless_empty comment)) err
        (λ x. ok (route_of x))

  unfoldable pub delete_private_route : Text → S → Result (Unit {0}) × S
  delete_private_route id = method (routes_delete client.account_id id) (unless_gone tt) ok
