-- ===== src/Bindings/Validation/Origins.antt =====
-- The origins that the validation of a binding accepts.
use kflared.Base.{
  ◌≡◌, ◌≢◌, sym, arith, ◌⊎◌, inl, inr, Bool, true, false, not, ◌&&◌, ◌||◌, List, [], Text, bytes,
  text_eq, ◌==◌,
}
use kflared.Base.Int.{ℤ}
use kflared.Errors.{ok}
use kflared.Api.{CloudflareTunnelBinding}
use kflared.Kube.{Gateway, GatewayClass, Service, ReferenceGrant, NamespacedName}
use kflared.Platform.{
  Platform, History, State, get_gateway, get_gateway_class, get_service, list_grants,
}
use kflared.Conditions.{condition_true}
use kflared.References.{
  valid_http_listener, resolve_service_port, effective_origin_service_namespace,
}
use kflared.References.Routes.{traefik_controller_name}
use kflared.Bindings.Origin.{
  proceed, any_origin_permitted, origin_reference_permitted, origin_url, check_service,
  read_service, validate_service, check_gateway, read_class, validate_origin_service,
}
use kflared.Bindings.Validation.Proceeds.{
  Proceeds, reject-Stops, fail-Stops, if-Stops, either_if, past_if, past_two, past_ifs,
  past_current, past_result, after, went_on,
}
use kflared.Bindings.Validation.Proceeds.Calls.{past_read, past_wrapped}

abbrev Binding : Type 0
Binding = CloudflareTunnelBinding

module _ (p : Platform) (b : Binding) where
  abbrev service_key : NamespacedName
  service_key = record {
    namespace = effective_origin_service_namespace b;
    name = b.spec.origin_service_ref.name;
  }

  -- The Service is found under the reference, is of type ClusterIP and not headless, and has the
  -- port, which the URL names.
  pub record IsServed (origin : Text) : Type 0 where
    pub service : Service
    pub port : ℤ
    pub found : (h : History) × (p.answer h (get_service service_key) ≡ ok service)
    pub type : (service.type ≡ []) ⊎ (service.type ≡ bytes "ClusterIP")
    pub address : (service.cluster_ip ≢ []) × (service.cluster_ip ≢ bytes "None")
    pub resolved : resolve_service_port service b.spec.origin_service_ref.port ≡ ok port
    pub url : origin ≡ origin_url p service port

  -- The Service is in the binding's namespace, or a ReferenceGrant in its own one permits it.
  abbrev pub IsPermitted : Type 0
  IsPermitted =
      (effective_origin_service_namespace b ≡ b.namespace)
      ⊎ ((h : History) × (grants : List ReferenceGrant) × (p.answer h
              (list_grants (effective_origin_service_namespace b))
            ≡ ok grants)
          × (any_origin_permitted grants b ≡ true))

  -- The Gateway is found under the reference, is Traefik's, Accepted and Programmed at its
  -- generation, and has the listener.
  pub record IsExposed : Type 0 where
    pub gateway : Gateway
    pub class : GatewayClass
    pub found :
        (h : History) × (p.answer h
            (get_gateway (record { namespace = b.namespace; name = b.spec.gateway_ref.name }))
          ≡ ok gateway)
    pub class_found : (h : History) × (p.answer h (get_gateway_class gateway.class_name) ≡ ok class)
    pub traefik : class.controller_name ≡ traefik_controller_name
    pub accepted : condition_true p gateway.conditions gateway.generation "Accepted" ≡ true
    pub programmed : condition_true p gateway.conditions gateway.generation "Programmed" ≡ true
    pub listener : valid_http_listener gateway b.spec.gateway_ref.section_name ≡ true

  same_text : (s t : Text) → not (s == t) ≡ false → s ≡ t
  same_text s t h = ground arith

  equal_text : (s t : Text) → (s == t) ≡ true → s ≡ t
  equal_text s t h = ground arith

  plain_type : (s t : Text) → (not (s == []) && not (s == t)) ≡ false → (s ≡ []) ⊎ (s ≡ t)
  plain_type s t h = ground arith

  differs : (s t : Text) → (s == t) ≡ false → s ≢ t
  differs s t h e = ground arith

  neither : (x y : Bool) → (x || y) ≡ false → (x ≡ false) × (y ≡ false)
  neither x y h = (ground arith, ground arith)

  both_yes : (x y : Bool) → (not x || not y) ≡ false → (x ≡ true) × (y ≡ true)
  both_yes x y h = (ground arith, ground arith)

  unnegated : (x : Bool) → not x ≡ false → x ≡ true
  unnegated x h = ground arith

  check_service_sound :
      (service : Service) (origin : Text) (s s' : State Binding)
      → (h : History) × (p.answer h (get_service service_key) ≡ ok service)
      → Proceeds (check_service p b service) s origin s'
      → (s'.object ≡ s.object) × IsServed origin
  unfolding check_service
  check_service_sound service origin s s' found e =
      let (plain, address, e₁) =
        past_two _ _ _ _ _ s s' origin (reject-Stops p _ _ _) (reject-Stops p _ _ _) e in
      let (port, resolved, e₂) = past_result _ _ _ s s' origin (λ x. reject-Stops p _ _ _) e₁ in
      let (same, kept) = went_on (origin_url p service port) origin s s' e₂ in
      let (some_address, headed) = neither _ _ address in
      (
        kept,
        record {
          service = service;
          port = port;
          found = found;
          type = plain_type _ _ plain;
          address = (differs _ _ some_address, differs _ _ headed);
          resolved = resolved;
          url = sym same;
        },
      )

  read_service_sound :
      (origin : Text) (s s' : State Binding)
      → Proceeds (read_service p b service_key) s origin s'
      → (s'.object ≡ s.object) × IsServed origin
  unfolding read_service
  read_service_sound origin s s' e =
      let (service, got, e₁) =
        past_read p (get_service service_key) _ _ s s' origin
          (λ x. if-Stops _ _ _ (fail-Stops _) (reject-Stops p _ _ _)) e in
      check_service_sound service origin (after p s _ _) s' (s.log, got) e₁

  validate_service_sound :
      (origin : Text) (s s' : State Binding)
      → Proceeds (validate_service p b (effective_origin_service_namespace b)) s origin s'
      → (s'.object ≡ s.object) × IsPermitted × IsServed origin
  unfolding validate_service origin_reference_permitted
  validate_service_sound origin s s' e =
      elim (either_if (effective_origin_service_namespace b == b.namespace)
        (read_service p b service_key) _ s s' origin e) [
          | inl (same, e₁) ↦
              let (kept, served) = read_service_sound origin s s' e₁ in
              (kept, inl (equal_text _ _ same), served)
          | inr (other, e₁) ↦
              let (grants, got, e₂) =
                past_wrapped p _ (list_grants (effective_origin_service_namespace b))
                  (λ grants. any_origin_permitted grants b) _ s s' origin e₁ in
              let (permitted, e₃) = past_if _ _ _ _ s' origin (reject-Stops p _ _ _) e₂ in
              let (kept, served) = read_service_sound origin _ s' e₃ in
              (kept, inr (s.log, grants, got, unnegated _ permitted), served)
        ]

  check_gateway_sound :
      (gateway : Gateway) (class : GatewayClass) (origin : Text) (s s' : State Binding)
      → (h : History) × (p.answer h
            (get_gateway (record { namespace = b.namespace; name = b.spec.gateway_ref.name }))
          ≡ ok gateway)
      → (h : History) × (p.answer h (get_gateway_class gateway.class_name) ≡ ok class)
      → Proceeds (check_gateway p b gateway class) s origin s'
      → (s'.object ≡ s.object) × IsExposed × IsPermitted × IsServed origin
  unfolding check_gateway
  check_gateway_sound gateway class origin s s' found class_found e =
      let (traefik, ready, listener, e₁) =
        past_ifs _ _ _ _ _ _ (validate_service p b (effective_origin_service_namespace b)) s s'
          origin (reject-Stops p _ _ _) (reject-Stops p _ _ _) (reject-Stops p _ _ _) e in
      let (kept, permitted, served) = validate_service_sound origin s s' e₁ in
      (
        kept,
        record {
          gateway = gateway;
          class = class;
          found = found;
          class_found = class_found;
          traefik = same_text _ _ traefik;
          accepted = (both_yes _ _ ready).0;
          programmed = (both_yes _ _ ready).1;
          listener = unnegated _ listener;
        },
        permitted,
        served,
      )

  read_class_sound :
      (gateway : Gateway) (origin : Text) (s s' : State Binding)
      → (h : History) × (p.answer h
            (get_gateway (record { namespace = b.namespace; name = b.spec.gateway_ref.name }))
          ≡ ok gateway)
      → Proceeds (read_class p b gateway) s origin s'
      → (s'.object ≡ s.object) × IsExposed × IsPermitted × IsServed origin
  unfolding read_class
  read_class_sound gateway origin s s' found e =
      let (class, got, e₁) =
        past_read p (get_gateway_class gateway.class_name) _ _ s s' origin
          (λ x. reject-Stops p _ _ _) e in
      check_gateway_sound gateway class origin (after p s _ _) s' found (s.log, got) e₁

-- If the check of the origin lets a run go on, with this URL: the object in memory is the one before;
-- an answer shows the binding's Gateway, whose class is shown to be Traefik's, which is Accepted and
-- Programmed at its generation, and which has the HTTP listener; the Service is in the binding's
-- namespace, or an answer shows a ReferenceGrant that permits it; and an answer shows the Service,
-- of type ClusterIP, with an address, and with the port that the binding names, and the URL is made
-- of its name, its namespace and that port.
pub validate_origin_service_sound :
    (p : Platform) (s s' : State Binding) (origin : Text)
    → validate_origin_service p s ≡ (ok (proceed origin), s')
    → (s'.object ≡ s.object)
      × IsExposed p s.object
      × IsPermitted p s.object
      × IsServed p s.object origin
unfolding validate_origin_service
validate_origin_service_sound p s s' origin e =
    let e₁ = past_current _ s s' origin e in
    let (gateway, got, e₂) =
      past_read p
        (get_gateway
          (record { namespace = s.object.namespace; name = s.object.spec.gateway_ref.name }))
        _ _ s s' origin (λ x. reject-Stops p _ _ _) e₁ in
    read_class_sound p s.object gateway origin (after p s _ _) s' (s.log, got) e₂
