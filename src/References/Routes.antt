-- ===== src/References/Routes.antt =====
-- `parentReferenceTargetsGateway`, `routeTargetsBinding` and `routeAccepted`
use kflared.Base.{Bool, false, ◌&&◌, ◌||◌, Option, none, some, List, [], ◌∷◌, Text, bytes}
use kflared.Base.{text_eq, ◌==◌, if◌then◌else◌}
use kflared.Api.{CloudflareTunnelBinding}
use kflared.Kube.{ParentReference, RouteParentStatus, HttpRoute}
use kflared.Platform.{Platform}
use kflared.Conditions.{condition_true}

abbrev pub gateway_group : Text
gateway_group = bytes "gateway.networking.k8s.io"

abbrev pub traefik_controller_name : Text
traefik_controller_name = bytes "traefik.io/gateway-controller"

-- A pointer's value, or what a nil pointer stands for.
abbrev or_default : Option Text → Text → Text
or_default none d = d
or_default (some t) d = t

abbrev is_section : Option Text → Text → Bool
is_section none name = false
is_section (some t) name = t == name

unfoldable pub parent_reference_targets_gateway :
    ParentReference → Text → CloudflareTunnelBinding → Bool
parent_reference_targets_gateway parent route_namespace binding =
    or_default parent.group gateway_group == gateway_group
    && (or_default parent.kind (bytes "Gateway") == bytes "Gateway"
        && (or_default parent.namespace route_namespace == binding.namespace
            && (parent.name == binding.spec.gateway_ref.name
                && is_section parent.section_name binding.spec.gateway_ref.section_name)))

any_parent : List ParentReference → Text → CloudflareTunnelBinding → Bool
any_parent [] namespace binding = false
any_parent (parent ∷ parents) namespace binding =
    parent_reference_targets_gateway parent namespace binding
    || any_parent parents namespace binding

unfoldable pub route_targets_binding : HttpRoute → CloudflareTunnelBinding → Bool
unfolding any_parent parent_reference_targets_gateway
route_targets_binding route binding = any_parent route.parent_refs route.namespace binding

module _ (p : Platform) where
  parent_accepted : HttpRoute → CloudflareTunnelBinding → RouteParentStatus → Bool
  parent_accepted route binding parent =
      if parent.controller_name == traefik_controller_name
      then parent_reference_targets_gateway parent.parent_ref route.namespace binding
        && (condition_true p parent.conditions route.generation "Accepted"
            && condition_true p parent.conditions route.generation "ResolvedRefs")
      else false

  any_accepted : HttpRoute → CloudflareTunnelBinding → List RouteParentStatus → Bool
  any_accepted route binding [] = false
  any_accepted route binding (parent ∷ parents) =
      parent_accepted route binding parent || any_accepted route binding parents

  unfoldable pub route_accepted : HttpRoute → CloudflareTunnelBinding → Bool
  unfolding any_accepted parent_accepted parent_reference_targets_gateway condition_true
  route_accepted route binding = any_accepted route binding route.parents
