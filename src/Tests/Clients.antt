-- ===== src/Tests/Clients.antt =====
-- Runs of the client over a small API.
use kflared.Base.{
  ℕ, ◌≡◌, sym, ap, ◌↔◌, ◌⊎◌, refl, Bool, true, Option, none, some, List, [], ◌∷◌, map, Text, bytes,
  Any, text_eq, nat_eq,
}
use kflared.Errors.{Err, status_code, wrapped, Result, ok, err, is_credential_rejected}
use kflared.Api.{CloudflareTunnelBinding}
use kflared.Cloudflare.{PrivateRoute, config_source_cloudflare}
use kflared.Planner.Ingress.{IngressRule, ingress_rules}
use kflared.Platform.{Platform, Call, Reply, History}
use kflared.Platform
use kflared.Sdk
use kflared.Sdk.{
  SdkTunnel, SdkRoute, IngressParams, Request, Response, tunnels_list, tunnels_get, tunnels_new,
  tunnels_delete, configurations_get, configurations_update, token_get, routes_list, routes_get,
  routes_delete, Api, tunnel_of, api_status, validate,
}
use kflared.Sdk.Lookups.{Shows, list_private_routes_exact}
use kflared.Sdk.Configurations.{stored, StoresRules, get-update_configuration}
use kflared.Sdk.Credentials.{validate-rejected}
use kflared.Sdk.Contract.{IsClient, Echoes, Serves, Serves-IsClient}
use kflared.Sdk.Tunnels.{sdk_tunnel_identity}
use kflared.Bindings.Tunnels.{ensure_tunnel, adopt_or_create, record_tunnel}
use kflared.Bindings.Finalize.{wrapping}
use kflared.Tests.Data.{client, newer, tunnel_named}
use kflared.Tests.Server.{platform}

abbrev sdk_tunnel : Text → SdkTunnel
sdk_tunnel name = record {
  id = bytes "tunnel";
  name = name;
  config_src = bytes "cloudflare";
  status = [];
}

abbrev sdk_route : Text → Option ℕ → SdkRoute
sdk_route network deleted = record {
  id = bytes "cf-route";
  network = network;
  tunnel_id = bytes "tunnel";
  comment = [];
  virtual_network_id = [];
  deleted_at = deleted;
}

-- An API with one tunnel, whose rules it keeps, and three routes.
abbrev listed_routes : List SdkRoute
listed_routes =
    sdk_route (bytes "10.0.0.1/32") none
    ∷ sdk_route (bytes "10.0.0.0/24") none
    ∷ sdk_route (bytes "10.0.0.1/32") (some 9)
    ∷ []

abbrev api_answer : List IngressParams → (q : Request) → Result (Response q)
api_answer rules (tunnels_list _ _ _ _) =
    ok (sdk_tunnel (bytes "one") ∷ sdk_tunnel (bytes "two") ∷ [])
api_answer rules (tunnels_new _ name source) = ok (record (sdk_tunnel name) { config_src = source })
api_answer rules (configurations_get _ _) = ok (map stored rules)
api_answer rules (configurations_update _ _ _) = ok tt
api_answer rules (token_get _ _) = ok (some (bytes "token"))
api_answer rules (routes_list _ _ _) = ok (listed_routes, none)
api_answer rules _ = err (status_code 404)

abbrev api_next : List IngressParams → Request → List IngressParams
api_next rules (configurations_update _ _ next) = next
api_next rules _ = rules

abbrev api : Api (List IngressParams)
api rules q = (api_answer rules q, api_next rules q)

list_private_routes_exact_example :
    (routes : List PrivateRoute) × (Sdk.list_private_routes api client (bytes "10.0.0.1/32") []
      ≡ (ok routes, []))
    × ((x : PrivateRoute)
        → Any (λ y. y ≡ x) routes ↔ Any (Shows (bytes "10.0.0.1/32") x) listed_routes)
list_private_routes_exact_example =
    list_private_routes_exact api client (bytes "10.0.0.1/32") listed_routes [] [] refl

api-StoresRules : StoresRules api
api-StoresRules = record {
  reads = λ account id rules s s' e.
      sym (ap (λ (x : Result (Unit {0}) × List IngressParams). ok (map stored x.1)) e);
}

abbrev rules : List IngressRule
rules = ingress_rules (bytes "www.example.com" ∷ []) (bytes "http://web:80")

get-update_configuration_example :
    (Sdk.get_configuration api client
      (bytes "tunnel")
      (Sdk.update_configuration api client (bytes "tunnel") rules []).1).0
    ≡ ok rules
unfolding Sdk.update_configuration
get-update_configuration_example =
    get-update_configuration api client api-StoresRules (bytes "tunnel") rules []
      (Sdk.update_configuration api client (bytes "tunnel") rules []).1 refl

abbrev forbidden : Err
forbidden = wrapped "list tunnels: %w" (status_code 403)

abbrev closed_answer : (q : Request) → Result (Response q)
closed_answer q = err forbidden

abbrev closed : Api Bool
closed b q = (closed_answer q, b)

validate-rejected_example :
    (f : Err) × (Sdk.validate closed client true ≡ (err f, true))
    × ((is_credential_rejected f ≡ true)
        ↔ ((api_status forbidden ≡ some 401) ⊎ (api_status forbidden ≡ some 403)))
unfolding is_credential_rejected
validate-rejected_example = validate-rejected closed client forbidden true true refl refl

abbrev served_answer : (c : Call) → Result (Reply c)
served_answer (Platform.create_tunnel c name) = (Sdk.create_tunnel api c name []).0
served_answer (Platform.find_tunnel_by_name c name) = (Sdk.find_tunnel_by_name api c name []).0
served_answer (Platform.list_private_routes c n) = (Sdk.list_private_routes api c n []).0
served_answer (Platform.get_token c id) = (Sdk.get_token api c id []).0
served_answer (Platform.get_tunnel c id) = (Sdk.get_tunnel api c id []).0
served_answer (Platform.delete_tunnel c id) = (Sdk.delete_tunnel api c id []).0
served_answer (Platform.get_private_route c id) = (Sdk.get_private_route api c id []).0
served_answer (Platform.delete_private_route c id) = (Sdk.delete_private_route api c id []).0
served_answer (Platform.patch_binding _ next) = ok next
served_answer _ = err (status_code 500)

abbrev served : Platform
served = record platform { answer = λ h. served_answer }

api-Echoes : Echoes api
api-Echoes = record {
  echo = λ account name source s {t} e.
      let same : record (sdk_tunnel name) { config_src = source } ≡ t = cc e in
      rw (← same) (refl, refl);
}

served-Serves : Serves api served
served-Serves = record {
  at = λ h. [];
  creates = λ h c name. refl;
  finds = λ h c name. refl;
  lists = λ h c network. refl;
  tokens = λ h c id. refl;
  gets = λ h c id. refl;
  deletes = λ h c id. refl;
  gets_route = λ h c id. refl;
  deletes_route = λ h c id. refl;
}

Serves-IsClient_example : IsClient served
Serves-IsClient_example = Serves-IsClient api served api-Echoes served-Serves

abbrev asking : Platform.State CloudflareTunnelBinding
asking = record { object = newer; log = [] }

sdk_tunnel_identity_example :
    (bytes "kflared-x" ≡ bytes "kflared-x") × (config_source_cloudflare ≡ config_source_cloudflare)
unfolding ensure_tunnel adopt_or_create record_tunnel wrapping Platform.perform Platform.on_option
    Platform.on_result Platform.◌>>=◌ Sdk.create_tunnel Sdk.find_tunnel_by_name Sdk.first_named
    text_eq nat_eq
sdk_tunnel_identity_example =
    sdk_tunnel_identity api served (bytes "kflared-x") client (tunnel_named (bytes "kflared-x"))
      asking (ensure_tunnel served client (bytes "kflared-x") asking).1 api-Echoes served-Serves
      refl
