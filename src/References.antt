-- ===== src/References.antt =====
-- The checks of references between objects: replicas and ports, ReferenceGrants, Gateway listeners,
-- and the parents of HTTPRoutes.
pub mod Grants
pub mod Routes
pub mod Replicas
use kflared.Base.{ℕ, Bool, true, false, ◌&&◌, ◌||◌, Option, none, some, List, [], ◌∷◌, Text, bytes}
use kflared.Base.{text_eq, ◌==◌, if◌then◌else◌}
use kflared.Base.Int.{ℤ, pos, negsuc, int_eq, lebℤ}
use kflared.Errors.{Err, message, Result, ok, err}
use kflared.Api.{
  IntOrString, int_val, str_val, CloudflareTunnelBinding, CloudflareTunnelPrivateRoute,
}
use kflared.Kube.{Service, ServicePort, Gateway, Listener}

abbrev pub default_connector_replicas : ℤ
default_connector_replicas = pos 1

abbrev pub max_connector_replicas : ℤ
max_connector_replicas = pos 10

abbrev ltℤ : ℤ → ℤ → Bool
ltℤ a b = if lebℤ b a then false else true

unfoldable pub effective_replicas : ℤ → ℤ
effective_replicas value =
    if ltℤ value default_connector_replicas
    then default_connector_replicas
    else if ltℤ max_connector_replicas value
    then max_connector_replicas
    else value

abbrev port_matches : ServicePort → IntOrString → Bool
port_matches port (str_val name) = port.name == name
port_matches port (int_val number) = port.port == number

-- The argument of the error's `%q`, `requested.String()`, is not kept.
unfoldable pub resolve_port : List ServicePort → IntOrString → Result ℤ
resolve_port [] requested = err (message "origin Service port %q was not found" [])
resolve_port (port ∷ ports) requested =
    if port_matches port requested then ok port.port else resolve_port ports requested

unfoldable pub resolve_service_port : Service → IntOrString → Result ℤ
unfolding resolve_port
resolve_service_port service requested = resolve_port service.ports requested

unfoldable pub effective_origin_service_namespace : CloudflareTunnelBinding → Text
effective_origin_service_namespace b =
    if b.spec.origin_service_ref.namespace == []
    then b.namespace
    else b.spec.origin_service_ref.namespace

unfoldable pub private_service_namespace : CloudflareTunnelPrivateRoute → Text
private_service_namespace r =
    if r.spec.service_ref.namespace == [] then r.namespace else r.spec.service_ref.namespace

unfoldable pub has_http_listener : List Listener → Text → Bool
has_http_listener [] section_name = false
has_http_listener (l ∷ ls) section_name =
    (l.name == section_name && l.protocol == bytes "HTTP") || has_http_listener ls section_name

unfoldable pub valid_http_listener : Gateway → Text → Bool
unfolding has_http_listener
valid_http_listener gateway section_name = has_http_listener gateway.listeners section_name
