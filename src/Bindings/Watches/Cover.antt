-- ===== src/Bindings/Watches/Cover.antt =====
-- Which objects the validation of an origin reads, and which changes run it again.
use kflared.Base.{
  ◌≡◌, refl, arith, inl, inr, Bool, true, false, none, Option, List, [], ◌∷◌, String, Text, Any,
  text_eq, nat_eq, ◌==◌, Bool-cases,
}
use kflared.Errors.{Err, ok}
use kflared.Api.{CloudflareTunnelBinding, BindingStatus}
use kflared.Kube.{
  Object, gateway_class_object, gateway_object, grant_object, service_object, Gateway, GatewayClass,
  Service, kind_of, is_registered,
}
use kflared.Platform.{
  Platform, History, State, M, ◌>>=◌, current, perform, on_result, get_gateway, get_gateway_class,
  list_grants, get_service, patch_binding, list_bindings,
}
use kflared.Platform.Keeps.{
  Policy, Obeys, Inv, Keeps, keeps_rules, Keeps-assign, Keeps-bind, Keeps-perform, Keeps-if,
}
use kflared.Settings.{Settings, owns}
use kflared.References.{effective_origin_service_namespace}
use kflared.Bindings.Status.{patch_status, rejected}
use kflared.Bindings.Origin.{
  reject, origin_reference_permitted, check_service, read_service, validate_service, check_gateway,
  read_class, validate_origin_service,
}
use kflared.Bindings.Keeps.{wrapping-Keeps}
use kflared.Bindings.Watches.{
  enqueues, matches, key_of, requests_for, requests_key, bindings_for_object, watched_kinds,
}

abbrev Binding : Type 0
Binding = CloudflareTunnelBinding

abbrev pub with_status : BindingStatus → Binding → Binding
with_status status b = record b { status = status }

-- The listing after these calls succeeds, and shows the binding, with whatever status.
pub record IsListed (p : Platform) (later : History) (b : Binding) : Type 0 where
  pub bindings : List Binding
  pub status : BindingStatus
  pub answered : p.answer later (list_bindings none) ≡ ok bindings
  pub listed : Any (λ x. x ≡ with_status status b) bindings

self_text : (s : Text) → (s == s) ≡ true
self_text s = ground arith

-- A binding of the class that the change concerns, and that is listed, is requested.
requests_for-listed :
    (r : Settings) (object : Object) (x : Binding) (bs : List Binding)
    → owns r x.spec.controller ≡ true
    → matches object x ≡ true
    → Any (λ y. y ≡ x) bs
    → requests_key (key_of x) (requests_for r object bs) ≡ true
unfolding requests_for requests_key
requests_for-listed r object x [] own match listed = absurd listed
requests_for-listed r object x (b ∷ bs) own match (inl same) =
    rw same (rw (own, match) (rw (self_text x.namespace) (rw (self_text x.name) refl)))
requests_for-listed r object x (b ∷ bs) own match (inr listed) =
    let ih = requests_for-listed r object x bs own match listed in
    elim (Bool-cases (owns r b.spec.controller)) [
      | inr foreign ↦ rw foreign ih
      | inl owned ↦ elim (Bool-cases (matches object b)) [
        | inr other ↦ rw (owned, other) ih
        | inl concerned ↦ rw (owned, concerned) (ground (arith, ih))
      ]
    ]

-- A call is watched if it reads an object whose change after `later` enqueues the binding, or patches
-- the binding.
abbrev pub watched : Platform → Settings → History → Binding → Policy
watched p r later b (get_gateway key) h = enqueues p r later (gateway_object key) b
watched p r later b (get_gateway_class _) h = enqueues p r later gateway_class_object b
watched p r later b (list_grants namespace) h = enqueues p r later (grant_object namespace) b
watched p r later b (get_service key) h = enqueues p r later (service_object key) b
watched p r later b (patch_binding _ _) h = true
watched p r later b _ h = false

module _ (p : Platform) (r : Settings) (later : History) (b : Binding) where
  -- The mapping's answer, where the listing shows the binding.
  concerned :
      (object : Object)
      → owns r b.spec.controller ≡ true
      → IsListed p later b
      → is_registered watched_kinds (kind_of object) ≡ true
      → ((status : BindingStatus) → matches object (with_status status b) ≡ true)
      → enqueues p r later object b ≡ true
  unfolding enqueues bindings_for_object perform on_result ◌>>=◌
  concerned object own listed kind match = rw kind (
      rw listed.answered (
        requests_for-listed r object (with_status listed.status b) listed.bindings own
          (match listed.status) listed.listed))

module _ (p : Platform) (r : Settings) (later : History) (b : Binding)
    (own : owns r b.spec.controller ≡ true) (listed : IsListed p later b) where
  abbrev Reads : {A : Type 0} → M Binding A → Type 0
  Reads m = Keeps (watched p r later b) (λ _. Unit) m

  always : (h : History) → Path Bool true true
  always h = refl

  reject-Reads :
      {A : Type 0} (reason : String) (text : Text) (e : Option Err)
      → Reads (reject p {A = A} reason text e)
  unfolding reject rejected patch_status
  reject-Reads reason text e = search (keeps_rules, always, Keeps-assign) depth 15

  check_service-Reads : (service : Service) → Reads (check_service p b service)
  unfolding check_service
  check_service-Reads service = search (keeps_rules, reject-Reads) depth 12

  service_watched :
      (h : History)
      → watched p r later b
          (get_service (record {
            namespace = effective_origin_service_namespace b;
            name = b.spec.origin_service_ref.name;
          }))
          h
        ≡ true
  unfolding matches effective_origin_service_namespace is_registered nat_eq
  service_watched h =
      concerned p r later b
        (service_object (record {
          namespace = effective_origin_service_namespace b;
          name = b.spec.origin_service_ref.name;
        }))
        own listed refl (λ status. grind (arith, self_text))

  read_service-Reads : Reads (
      read_service p b (record {
        namespace = effective_origin_service_namespace b;
        name = b.spec.origin_service_ref.name;
      }))
  unfolding read_service
  read_service-Reads =
      search (keeps_rules, service_watched, reject-Reads, check_service-Reads) depth 12

  grants_watched :
      (namespace : Text)
      → (namespace == b.namespace) ≡ false
      → namespace ≡ effective_origin_service_namespace b
      → (h : History) → watched p r later b (list_grants namespace) h ≡ true
  unfolding matches effective_origin_service_namespace is_registered nat_eq
  grants_watched namespace other same h =
      concerned p r later b (grant_object namespace) own listed refl
        (λ status. rw (← same) (grind (arith, other, self_text)))

  permitted-Reads :
      (namespace : Text)
      → (namespace == b.namespace) ≡ false
      → namespace ≡ effective_origin_service_namespace b
      → Reads (origin_reference_permitted p b namespace)
  unfolding origin_reference_permitted
  permitted-Reads namespace other same =
      Keeps-bind _ _
        (wrapping-Keeps _ _
          (Keeps-perform p (list_grants namespace) (λ h. grants_watched namespace other same h)))
        (λ grants. search keeps_rules)

  validate_service-Reads : Reads (validate_service p b (effective_origin_service_namespace b))
  unfolding validate_service
  validate_service-Reads =
      Keeps-if (effective_origin_service_namespace b == b.namespace) _ _ (λ _. read_service-Reads)
        (λ other.
          Keeps-bind _ _ (permitted-Reads _ other refl)
            λ permitted. search (keeps_rules, reject-Reads, read_service-Reads))

  check_gateway-Reads :
      (gateway : Gateway) (class : GatewayClass) → Reads (check_gateway p b gateway class)
  unfolding check_gateway
  check_gateway-Reads gateway class =
      search (keeps_rules, reject-Reads, validate_service-Reads) depth 12

  class_watched :
      (name : Text) (h : History) → watched p r later b (get_gateway_class name) h ≡ true
  unfolding matches is_registered nat_eq
  class_watched name h = concerned p r later b gateway_class_object own listed refl (λ status. refl)

  read_class-Reads : (gateway : Gateway) → Reads (read_class p b gateway)
  unfolding read_class
  read_class-Reads gateway =
      search (keeps_rules, class_watched, reject-Reads, check_gateway-Reads) depth 12

  gateway_watched :
      (h : History)
      → watched p r later b
          (get_gateway (record { namespace = b.namespace; name = b.spec.gateway_ref.name }))
          h
        ≡ true
  unfolding matches is_registered nat_eq
  gateway_watched h =
      concerned p r later b
        (gateway_object (record { namespace = b.namespace; name = b.spec.gateway_ref.name })) own
        listed refl (λ status. grind (arith, self_text))

  current-Reads :
      {A : Type 0} (f : Binding → M Binding A) (s : State Binding)
      → s.object ≡ b
      → Inv (watched p r later b) (λ _. Unit) s
      → Reads (f b)
      → Inv (watched p r later b) (λ _. Unit) ((current >>= f) s).1
  unfolding ◌>>=◌
  current-Reads f s e i k =
      rw e (k.at (record { object = b; log = s.log }) (record { obeys = i.obeys; holds = tt }))

  origin-Reads :
      (s : State Binding)
      → s.object ≡ b
      → Inv (watched p r later b) (λ _. Unit) s
      → Inv (watched p r later b) (λ _. Unit) (validate_origin_service p s).1
  unfolding validate_origin_service
  origin-Reads s e i =
      current-Reads _ s e i
        (search (keeps_rules, gateway_watched, reject-Reads, read_class-Reads) depth 12)

-- For a binding of the controller's class, and where `later` is a history after which the listing of
-- the bindings succeeds and shows it with whatever status: from a history that already obeys the rules
-- of `watched`, the validation of the binding's origin obeys them. All it does is to patch the binding,
-- and to read a Gateway, a GatewayClass, a Service or the ReferenceGrants of a namespace; each of these
-- is of a watched kind, and for a change of it after `later` bindingsForObject requests the binding.
pub validate_origin_service-Obeys :
    (p : Platform) (r : Settings) (later : History) (s : State Binding)
    → owns r s.object.spec.controller ≡ true
    → IsListed p later s.object
    → Obeys (watched p r later s.object) s.log
    → Obeys (watched p r later s.object) (validate_origin_service p s).1.log
validate_origin_service-Obeys p r later s own listed o =
    (origin-Reads p r later s.object own listed s refl (record { obeys = o; holds = tt })).obeys
