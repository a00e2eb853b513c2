-- ===== src/PrivateRoutes/Watches/Cover.antt =====
-- Which objects the validation of a private route reads, and which changes run it again.
use kflared.Base.{
  ◌≡◌, refl, arith, inl, inr, Bool, true, false, List, [], ◌∷◌, Text, Any, text_eq, nat_eq, ◌==◌,
  Bool-cases,
}
use kflared.Errors.{ok}
use kflared.Api.{CloudflareTunnelPrivateRoute, PrivateRouteStatus, ClusterCloudflareProvider}
use kflared.Kube.{
  Object, Service, provider_object, service_object, grant_object, namespace_object, kind_of,
  is_registered,
}
use kflared.Platform.{
  Platform, History, State, M, ◌>>=◌, perform, on_result, get_provider, get_namespace, list_grants,
  get_service, list_routes,
}
use kflared.Platform.Keeps.{Policy, Obeys, Keeps, keeps_rules}
use kflared.Settings.{Settings}
use kflared.References.{private_service_namespace}
use kflared.PrivateRoutes.Validation.{
  private_route_conflicts, validate_address, check_service, validate_service, validate_target,
  validate_namespace, check_provider, validate,
}
use kflared.PrivateRoutes.Watches.{
  enqueues, matches, key_of, requests_for, requests_key, routes_for_object, watched_kinds,
}

abbrev Route : Type 0
Route = CloudflareTunnelPrivateRoute

-- A provider of this name.
abbrev pub named : Text → ClusterCloudflareProvider → ClusterCloudflareProvider
named name provider = record provider { metadata = record provider.metadata { name = name } }

abbrev pub with_status : PrivateRouteStatus → Route → Route
with_status status route = record route { status = status }

-- The listing after these calls succeeds, and shows the route, with whatever status.
pub record IsListed (p : Platform) (later : History) (route : Route) : Type 0 where
  pub routes : List Route
  pub status : PrivateRouteStatus
  pub answered : p.answer later list_routes ≡ ok routes
  pub listed : Any (λ x. x ≡ with_status status route) routes

self_text : (s : Text) → (s == s) ≡ true
self_text s = ground arith

-- A route of the class that the change concerns, and that is listed, is requested.
requests_for-listed :
    (r : Settings) (object : Object) (x : Route) (routes : List Route)
    → (x.spec.controller == r.controller_class) ≡ true
    → matches object x ≡ true
    → Any (λ y. y ≡ x) routes
    → requests_key (key_of x) (requests_for r object routes) ≡ true
unfolding requests_for requests_key
requests_for-listed r object x [] own match listed = absurd listed
requests_for-listed r object x (b ∷ bs) own match (inl same) =
    rw same (rw (own, match) (rw (self_text x.namespace) (rw (self_text x.name) refl)))
requests_for-listed r object x (b ∷ bs) own match (inr listed) =
    let ih = requests_for-listed r object x bs own match listed in
    elim (Bool-cases (b.spec.controller == r.controller_class)) [
      | inr foreign ↦ rw foreign ih
      | inl owned ↦ elim (Bool-cases (matches object b)) [
        | inr other ↦ rw (owned, other) ih
        | inl concerned ↦ rw (owned, concerned) (ground (arith, ih))
      ]
    ]

-- A call is watched if it reads an object whose change after `later` enqueues the route, or lists the
-- private routes. A provider's change is that of any provider with the name that is read.
abbrev pub watched : Platform → Settings → History → ClusterCloudflareProvider → Route → Policy
watched p r later changed route (get_provider name) h =
    enqueues p r later (provider_object (named name changed)) route
watched p r later changed route (get_namespace name) h =
    enqueues p r later (namespace_object name) route
watched p r later changed route (list_grants namespace) h =
    enqueues p r later (grant_object namespace) route
watched p r later changed route (get_service key) h = enqueues p r later (service_object key) route
watched p r later changed route list_routes h = true
watched p r later changed route _ h = false

module _ (p : Platform) (s : Settings) (later : History) (r : Route) where
  -- The mapping's answer, where the listing shows the route.
  concerned :
      (object : Object)
      → (r.spec.controller == s.controller_class) ≡ true
      → IsListed p later r
      → is_registered watched_kinds (kind_of object) ≡ true
      → ((status : PrivateRouteStatus) → matches object (with_status status r) ≡ true)
      → enqueues p s later object r ≡ true
  unfolding enqueues routes_for_object perform on_result ◌>>=◌
  concerned object own listed kind match = rw kind (
      rw listed.answered (
        requests_for-listed s object (with_status listed.status r) listed.routes own
          (match listed.status) listed.listed))

module _ (p : Platform) (s : Settings) (later : History) (changed : ClusterCloudflareProvider)
    (r : Route) (own : (r.spec.controller == s.controller_class) ≡ true)
    (listed : IsListed p later r) where
  abbrev Reads : {A : Type 0} → M Route A → Type 0
  Reads m = Keeps (watched p s later changed r) (λ _. Unit) m

  always : (h : History) → Path Bool true true
  always h = refl

  check_service-Reads :
      (provider : ClusterCloudflareProvider) (target : Text) (service : Service)
      → Reads (check_service p r provider target service)
  unfolding check_service validate_address private_route_conflicts
  check_service-Reads provider target service = search (keeps_rules, always) depth 15

  service_watched :
      (h : History)
      → watched p s later changed r
          (get_service
            (record { namespace = private_service_namespace r; name = r.spec.service_ref.name }))
          h
        ≡ true
  unfolding matches private_service_namespace is_registered nat_eq
  service_watched h =
      concerned p s later r
        (service_object
          (record { namespace = private_service_namespace r; name = r.spec.service_ref.name }))
        own listed refl (λ status. grind (arith, self_text))

  grants_watched :
      (h : History)
      → watched p s later changed r (list_grants (private_service_namespace r)) h ≡ true
  unfolding matches private_service_namespace is_registered nat_eq
  grants_watched h =
      concerned p s later r (grant_object (private_service_namespace r)) own listed refl
        (λ status. grind (arith, self_text))

  namespace_watched :
      (h : History) → watched p s later changed r (get_namespace r.namespace) h ≡ true
  unfolding matches private_service_namespace is_registered nat_eq
  namespace_watched h =
      concerned p s later r (namespace_object r.namespace) own listed refl
        (λ status. grind (arith, self_text))

  provider_watched :
      (h : History) → watched p s later changed r (get_provider r.spec.provider_ref) h ≡ true
  unfolding matches private_service_namespace is_registered nat_eq
  provider_watched h =
      concerned p s later r (provider_object (named r.spec.provider_ref changed)) own listed refl
        (λ status. grind (arith, self_text))

  service-Reads :
      (provider : ClusterCloudflareProvider)
      → Reads (validate_service p r provider (private_service_namespace r))
  unfolding validate_service
  service-Reads provider = search (keeps_rules, service_watched, check_service-Reads) depth 12

  target-Reads :
      (provider : ClusterCloudflareProvider)
      → Reads (validate_target p r provider (private_service_namespace r))
  unfolding validate_target
  target-Reads provider = search (keeps_rules, grants_watched, service-Reads) depth 12

  validate-Reads : Reads (validate p r)
  unfolding validate check_provider validate_namespace
  validate-Reads = search (keeps_rules, provider_watched, namespace_watched, target-Reads) depth 20

-- For a private route of the controller's class, and where `later` is a history after which the listing
-- of the private routes succeeds and shows it with whatever status: from a history that already obeys
-- the rules of `watched`, the validation of the route obeys them. All it does is to list the private
-- routes, whose changes it does not watch, and to read a provider, a Namespace, a Service or the
-- ReferenceGrants of a namespace; each of these is of a watched kind, and for a change of it after
-- `later` routesForObject requests the route, whatever a provider of the name that was read has become.
pub validate-Obeys :
    (p : Platform) (r : Settings) (later : History) (changed : ClusterCloudflareProvider)
    (route : Route) (s : State Route)
    → (route.spec.controller == r.controller_class) ≡ true
    → IsListed p later route
    → Obeys (watched p r later changed route) s.log
    → Obeys (watched p r later changed route) (validate p route s).1.log
validate-Obeys p r later changed route s own listed o =
    ((validate-Reads p r later changed route own listed).at s
      (record { obeys = o; holds = tt })).obeys
