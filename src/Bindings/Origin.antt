-- ===== src/Bindings/Origin.antt =====
-- `validateOriginService` and `originReferencePermitted`
use kflared.Base.{
  Bool, false, not, ◌&&◌, ◌||◌, Option, none, List, [], ◌∷◌, ◌++◌, String, Text, bytes, text_eq,
  ◌==◌, if◌then◌else◌,
}
use kflared.Base.Int.{ℤ}
use kflared.Base.Decimal.{format_int}
use kflared.Errors.{Err, ignore_not_found, is_not_found}
use kflared.Api.{CloudflareTunnelBinding}
use kflared.Kube.{Gateway, GatewayClass, Service, ReferenceGrant, NamespacedName}
use kflared.Platform.{Platform, M, ◌>>=◌, pure, fail, attempt, current, perform, on_result, Outcome}
use kflared.Platform.{get_gateway, get_gateway_class, get_service, list_grants}
use kflared.Conditions.{condition_true}
use kflared.References.{
  valid_http_listener, resolve_service_port, effective_origin_service_namespace,
}
use kflared.References.Grants.{reference_grant_permits_origin}
use kflared.References.Routes.{traefik_controller_name}
use kflared.Bindings.Finalize.{wrapping}
use kflared.Bindings.Status.{rejected}

abbrev Binding : Type 0
Binding = CloudflareTunnelBinding

-- What a check returns beside an error: the outcome of a run that ends there, or a result.
pub data Step (A : Type 0) : Type 0 where
  stop : Outcome → Step A
  proceed : A → Step A

-- `if result != nil || err != nil`, with the error raised.
abbrev pub on_step : {A B : Type 0} → Step A → (A → M Binding (Step B)) → M Binding (Step B)
on_step (stop o) f = pure (stop o)
on_step (proceed a) f = f a

unfoldable pub any_origin_permitted : List ReferenceGrant → Binding → Bool
unfolding reference_grant_permits_origin
any_origin_permitted [] binding = false
any_origin_permitted (grant ∷ grants) binding =
    reference_grant_permits_origin grant binding || any_origin_permitted grants binding

abbrev cluster_ip_none : Text
cluster_ip_none = bytes "None"

module _ (p : Platform) where
  -- A run that is rejected.
  unfoldable pub reject : {A : Type 0} → String → Text → Option Err → M Binding (Step A)
  reject reason text cause = do outcome ← rejected p reason text cause; pure (stop outcome)

  unfoldable pub origin_reference_permitted : Binding → Text → M Binding Bool
  origin_reference_permitted binding origin_namespace = do
    grants ←
        wrapping "list ReferenceGrants in origin Service namespace: %w"
          (perform p (list_grants origin_namespace))
    pure (any_origin_permitted grants binding)

  abbrev pub origin_url : Service → ℤ → Text
  origin_url service port =
      bytes "http://"
      ++ (service.name
          ++ (bytes "." ++ (service.namespace ++ (bytes ".svc.cluster.local:" ++ format_int port))))

  -- What is asked of the Service.
  unfoldable pub check_service : Binding → Service → M Binding (Step Text)
  check_service binding service =
      if not (service.type == []) && not (service.type == bytes "ClusterIP")
      then reject "InvalidService"
          (bytes "The origin Service must use type ClusterIP; "
            ++ (service.type ++ bytes " is not supported"))
          none
      else if service.cluster_ip == [] || service.cluster_ip == cluster_ip_none
      then reject "InvalidService"
          (bytes "The origin Service must be a non-headless ClusterIP Service") none
      else on_result (resolve_service_port service binding.spec.origin_service_ref.port)
          (λ e. reject "ServicePortNotFound" (p.error_text e) none)
          (λ port. pure (proceed (origin_url service port)))

  unfoldable pub read_service : Binding → NamespacedName → M Binding (Step Text)
  read_service binding key = do
    found ← attempt (perform p (get_service key))
    on_result found
        (λ e.
          if not (is_not_found e)
          then fail e
          else reject "ServiceNotFound"
              (bytes "The referenced origin Service "
                ++ (key.namespace ++ (bytes "/" ++ (key.name ++ bytes " was not found"))))
              none)
        (check_service binding)

  -- From the check of the ReferenceGrants on.
  unfoldable pub validate_service : Binding → Text → M Binding (Step Text)
  validate_service binding origin_namespace =
      let read =
        read_service binding
          (record { namespace = origin_namespace; name = binding.spec.origin_service_ref.name }) in
      if origin_namespace == binding.namespace then read else do
        permitted ← origin_reference_permitted binding origin_namespace
        if not permitted
            then reject "RefNotPermitted"
                (bytes "No ReferenceGrant in namespace "
                  ++ (p.quoted origin_namespace
                      ++ (bytes " permits CloudflareTunnelBinding objects from namespace "
                          ++ (p.quoted binding.namespace
                              ++ (bytes " to reference core Service "
                                  ++ p.quoted binding.spec.origin_service_ref.name)))))
                none
            else read

  -- What is asked of the Gateway and its class.
  unfoldable pub check_gateway : Binding → Gateway → GatewayClass → M Binding (Step Text)
  check_gateway binding gateway class =
      if not (class.controller_name == traefik_controller_name)
      then reject "UnsupportedGatewayClass" (bytes "The MVP supports only Traefik-managed Gateways")
          none
      else if not (condition_true p gateway.conditions gateway.generation "Accepted")
          || not (condition_true p gateway.conditions gateway.generation "Programmed")
      then reject "GatewayNotReady"
          (bytes "The Gateway must report current Accepted and Programmed conditions") none
      else if not (valid_http_listener gateway binding.spec.gateway_ref.section_name)
      then reject "ListenerInvalid" (bytes "The selected Gateway listener must exist and use HTTP")
          none
      else validate_service binding (effective_origin_service_namespace binding)

  unfoldable pub read_class : Binding → Gateway → M Binding (Step Text)
  read_class binding gateway = do
    found ← attempt (perform p (get_gateway_class gateway.class_name))
    on_result found
        (λ e.
          reject "GatewayClassNotFound"
            (bytes "The GatewayClass referenced by the Gateway was not found") (ignore_not_found e))
        (check_gateway binding gateway)

  unfoldable pub validate_origin_service : M Binding (Step Text)
  validate_origin_service = do
    binding ← current
    found ← attempt (
        perform p (
          get_gateway
            (record { namespace = binding.namespace; name = binding.spec.gateway_ref.name })))
    on_result found
        (λ e.
          reject "GatewayNotFound" (bytes "The referenced Gateway was not found")
            (ignore_not_found e))
        (read_class binding)
