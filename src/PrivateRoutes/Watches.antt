-- ===== src/PrivateRoutes/Watches.antt =====
-- `routesForObject`, and the predicate on routes in `SetupWithManager`.
pub mod Cover
use kflared.Base.{Bool, false, not, ◌&&◌, ◌||◌, List, [], ◌∷◌, text_eq, ◌==◌, if◌then◌else◌}
use kflared.Errors.{Result, ok, err}
use kflared.Api.{CloudflareTunnelPrivateRoute}
use kflared.Kube.{
  NamespacedName, Object, route_object, provider_object, grant_object, service_object,
  namespace_object,
}
use kflared.Kube.{
  Kind, kind_of, is_registered, provider_kind, gateway_class_kind, gateway_kind, http_route_kind,
  grant_kind, service_kind, namespace_kind,
}
use kflared.Platform.{Platform, History, M, ◌>>=◌, pure, attempt, perform, on_result, list_routes}
use kflared.Settings.{Settings}
use kflared.References.{private_service_namespace}

abbrev Route : Type 0
Route = CloudflareTunnelPrivateRoute

-- The cases of the type switch.
unfoldable pub matches : Object → Route → Bool
matches (provider_object changed) route = route.spec.provider_ref == changed.name
matches (service_object changed) route =
    private_service_namespace route == changed.namespace
    && route.spec.service_ref.name == changed.name
matches (grant_object namespace) route = private_service_namespace route == namespace
matches (namespace_object name) route = route.namespace == name
matches _ route = false

abbrev pub key_of : Route → NamespacedName
key_of route = record { namespace = route.namespace; name = route.name }

unfoldable pub requests_for : Settings → Object → List Route → List NamespacedName
requests_for r object [] = []
requests_for r object (route ∷ routes) =
    let rest = requests_for r object routes in
    if not (route.spec.controller == r.controller_class)
    then rest
    else if matches object route
    then key_of route ∷ rest
    else rest

unfoldable pub routes_for_object :
    Platform → Settings → {O : Type 0} → Object → M O (List NamespacedName)
routes_for_object p r object = do
  found ← attempt (perform p list_routes)
  on_result found (λ _. pure []) (λ routes. pure (requests_for r object routes))

unfoldable pub route_class_predicate : Settings → Object → Bool
route_class_predicate r (route_object route) =
    not (r.controller_class == []) && route.spec.controller == r.controller_class
route_class_predicate r _ = false

-- The `Watches` of `SetupWithManager`: the objects of other kinds whose changes go to `routesForObject`.
abbrev pub watched_kinds : List Kind
watched_kinds = provider_kind ∷ service_kind ∷ grant_kind ∷ namespace_kind ∷ []

-- The request names this object.
unfoldable pub requests_key : NamespacedName → List NamespacedName → Bool
requests_key key [] = false
requests_key key (k ∷ ks) =
    (k.namespace == key.namespace && k.name == key.name) || requests_key key ks

abbrev names_key : NamespacedName → Result (List NamespacedName) → Bool
names_key key (ok ks) = requests_key key ks
names_key key (err _) = false

-- A change of the object, after all that was asked so far, enqueues the private route: the kind is watched,
-- and the function that the change is mapped by returns a request for it.
unfoldable pub enqueues : Platform → Settings → History → Object → Route → Bool
unfolding is_registered requests_key
enqueues p r later object x =
    is_registered watched_kinds (kind_of object)
    && names_key (key_of x) (routes_for_object p r object (record { object = x; log = later })).0
