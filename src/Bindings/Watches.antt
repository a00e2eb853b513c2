-- ===== src/Bindings/Watches.antt =====
-- `bindingsForObject` and `bindingClassPredicate`: which bindings a change of an object concerns.
pub mod Cover
use kflared.Base.{
  Bool, true, false, not, ◌&&◌, ◌||◌, List, [], ◌∷◌, Text, text_eq, ◌==◌, if◌then◌else◌,
}
use kflared.Errors.{Result, ok, err}
use kflared.Api.{CloudflareTunnelBinding}
use kflared.Kube.{
  NamespacedName, Object, binding_object, provider_object, gateway_class_object, gateway_object,
  http_route_object, grant_object, service_object, namespace_object,
}
use kflared.Kube.{
  Kind, kind_of, is_registered, provider_kind, gateway_class_kind, gateway_kind, http_route_kind,
  grant_kind, service_kind, namespace_kind,
}
use kflared.Platform.{Platform, History, M, ◌>>=◌, pure, attempt, perform, on_result, list_bindings}
use kflared.Base.{none}
use kflared.Settings.{Settings, owns}
use kflared.References.{effective_origin_service_namespace}
use kflared.References.Routes.{route_targets_binding}

abbrev Binding : Type 0
Binding = CloudflareTunnelBinding

-- The cases of the type switch.
unfoldable pub matches : Object → Binding → Bool
matches (provider_object changed) binding = binding.spec.provider_ref == changed.name
matches gateway_class_object binding = true
matches (gateway_object changed) binding =
    binding.namespace == changed.namespace && binding.spec.gateway_ref.name == changed.name
matches (http_route_object changed) binding =
    binding.namespace == changed.namespace && route_targets_binding changed binding
matches (grant_object namespace) binding =
    not (effective_origin_service_namespace binding == binding.namespace)
    && effective_origin_service_namespace binding == namespace
matches (service_object changed) binding =
    effective_origin_service_namespace binding == changed.namespace
    && binding.spec.origin_service_ref.name == changed.name
matches (namespace_object name) binding = binding.namespace == name
matches _ binding = false

abbrev pub key_of : Binding → NamespacedName
key_of binding = record { namespace = binding.namespace; name = binding.name }

unfoldable pub requests_for : Settings → Object → List Binding → List NamespacedName
requests_for r object [] = []
requests_for r object (binding ∷ bindings) =
    let rest = requests_for r object bindings in
    if not (owns r binding.spec.controller)
    then rest
    else if matches object binding
    then key_of binding ∷ rest
    else rest

unfoldable pub bindings_for_object :
    Platform → Settings → {O : Type 0} → Object → M O (List NamespacedName)
bindings_for_object p r object = do
  found ← attempt (perform p (list_bindings none))
  on_result found (λ _. pure []) (λ bindings. pure (requests_for r object bindings))

unfoldable pub binding_class_predicate : Text → Object → Bool
binding_class_predicate controller_class (binding_object binding) =
    not (controller_class == []) && binding.spec.controller == controller_class
binding_class_predicate controller_class _ = false

-- The `Watches` of `SetupWithManager`: the objects of other kinds whose changes go to `bindingsForObject`.
abbrev pub watched_kinds : List Kind
watched_kinds =
    provider_kind ∷ gateway_class_kind ∷ gateway_kind ∷ http_route_kind ∷ grant_kind ∷ service_kind
    ∷ namespace_kind ∷ []

-- The request names this object.
unfoldable pub requests_key : NamespacedName → List NamespacedName → Bool
requests_key key [] = false
requests_key key (k ∷ ks) =
    (k.namespace == key.namespace && k.name == key.name) || requests_key key ks

abbrev names_key : NamespacedName → Result (List NamespacedName) → Bool
names_key key (ok ks) = requests_key key ks
names_key key (err _) = false

-- A change of the object, after all that was asked so far, enqueues the binding: the kind is watched,
-- and the function that the change is mapped by returns a request for it.
unfoldable pub enqueues : Platform → Settings → History → Object → Binding → Bool
unfolding is_registered requests_key
enqueues p r later object x =
    is_registered watched_kinds (kind_of object)
    && names_key (key_of x) (bindings_for_object p r object (record { object = x; log = later })).0
