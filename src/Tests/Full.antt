-- ===== src/Tests/Full.antt =====
-- A platform on which everything is in place for a binding, and a binding to publish on it.
use kflared.Base.{refl, arith, none, some, [], ◌∷◌, bytes, String, text_eq}
use kflared.Base.Int.{pos}
use kflared.Errors.{not_found, Result, ok, err}
use kflared.Api.{
  Condition, CloudflareTunnelBinding, CloudflareTunnelPrivateRoute, ClusterCloudflareProvider,
  is_true,
}
use kflared.Kube.{Gateway, Service, HttpRoute, ParentReference}
use kflared.Platform.{
  Platform, Call, Reply, State, get_provider, get_namespace, get_secret, get_service, get_gateway,
  get_gateway_class, list_bindings, list_http_routes, get_configuration, update_configuration,
  get_token, find_tunnel_by_name, create_tunnel, load_child, save_child, patch_binding,
  rest_mapping, get_child, delete_child, delete_tunnel, update_binding, get_tunnel, list_routes,
  list_grants, list_private_routes, get_private_route, create_private_route, patch_route,
}
use kflared.References.Routes.{traefik_controller_name}
use kflared.Bindings.Settled.{KeepsSpec}
use kflared.Bindings.Owned.{KeepsBindingUid}
use kflared.Connector.{owner_uid_label}
use kflared.Settings.{binding_finalizer, private_finalizer}
use kflared.PrivateRoutes.Status.Patches.{KeepsUid}
use kflared.PrivateRoutes.Validation.Complete.{IsQuiet}
use kflared.Tests.Data.{child_of, older, provider, route_three, tunnel_named}
use kflared.Tests.Server.{platform}

abbrev condition_of : String → Condition
condition_of type = record {
  type = type;
  status = is_true;
  observed_generation = 1;
  reason = type;
  message = [];
}

abbrev pub ready_provider : ClusterCloudflareProvider
ready_provider = record provider {
  status = record {
    observed_generation = 1;
    conditions = condition_of "Accepted" ∷ condition_of "CredentialsValid" ∷ [];
  };
}

abbrev gateway : Gateway
gateway = record {
  generation = 1;
  class_name = bytes "traefik";
  listeners = record { name = bytes "http"; protocol = bytes "HTTP" } ∷ [];
  conditions = condition_of "Accepted" ∷ condition_of "Programmed" ∷ [];
}

abbrev parent : ParentReference
parent = record {
  group = none;
  kind = none;
  namespace = none;
  name = bytes "edge";
  section_name = some (bytes "http");
}

abbrev route : HttpRoute
route = record {
  namespace = bytes "a";
  generation = 1;
  parent_refs = parent ∷ [];
  hostnames = bytes "www.example.com" ∷ [];
  parents =
      record {
        parent_ref = parent;
        controller_name = traefik_controller_name;
        conditions = condition_of "Accepted" ∷ condition_of "ResolvedRefs" ∷ [];
      }
      ∷ [];
}

abbrev service : Service
service = record {
  namespace = bytes "a";
  name = bytes "web";
  type = [];
  cluster_ip = bytes "10.0.0.1";
  ports = record { name = bytes "http"; port = pos 80 } ∷ [];
}

abbrev pub alive : CloudflareTunnelBinding
alive = record older { metadata = record older.metadata { finalizers = binding_finalizer ∷ [] } }

abbrev pub full_answer : (c : Call) → Result (Reply c)
full_answer (get_provider _) = ok ready_provider
full_answer (get_namespace name) = ok (record { name = name; uid = bytes "cluster"; labels = [] })
full_answer (get_secret _) = ok (record { entries = (bytes "token", bytes "secret") ∷ [] })
full_answer (get_gateway _) = ok gateway
full_answer (get_gateway_class _) = ok (record { controller_name = traefik_controller_name })
full_answer (get_service _) = ok service
full_answer (list_bindings _) = ok (alive ∷ [])
full_answer (list_http_routes _) = ok (route ∷ [])
full_answer (find_tunnel_by_name _ _) = ok none
full_answer (create_tunnel _ name) = ok (tunnel_named name)
full_answer (get_tunnel _ _) = ok none
full_answer (get_configuration _ _) = ok []
full_answer (update_configuration _ _ _) = ok tt
full_answer (get_token _ _) = ok (bytes "token")
full_answer (load_child kind _) = ok (record (child_of kind "" []) { available_replicas = pos 2 })
full_answer (save_child c) = ok c
full_answer (patch_binding _ next) = ok next
full_answer rest_mapping = ok tt
full_answer list_routes = ok []
full_answer (list_grants _) = ok []
full_answer (list_private_routes _ _) = ok []
full_answer (get_private_route _ _) = ok none
full_answer (create_private_route _ network tunnel_id comment) = ok (
    some (record {
      id = bytes "cf-route";
      network = network;
      tunnel_id = tunnel_id;
      comment = comment;
      virtual_network_id = [];
    }))
full_answer (patch_route _ next) = ok next
full_answer (delete_tunnel _ _) = ok tt
full_answer (get_child kind _) = ok (child_of kind "child" ((owner_uid_label, bytes "u1") ∷ []))
full_answer (delete_child _) = ok tt
full_answer (update_binding _) = ok tt
full_answer _ = err not_found

abbrev pub full : Platform
full = record platform { answer = λ h. full_answer }

pub full-KeepsBindingUid : KeepsBindingUid full
full-KeepsBindingUid = record { same = λ h base next e. ground arith }

pub full-KeepsSpec : KeepsSpec full
full-KeepsSpec = record {
  kept = λ h base next e. (ground arith, ground arith, ground arith, ground arith);
}

pub full-KeepsUid : KeepsUid full
full-KeepsUid = record { same = λ h base next e. ground arith }

-- No read depends on what was asked before.
pub full-IsQuiet : IsQuiet full
full-IsQuiet = record { same = λ c read h h'. refl }

abbrev pub routing : State CloudflareTunnelPrivateRoute
routing = record {
  object = record route_three {
    metadata = record route_three.metadata {
      namespace = bytes "a";
      finalizers = private_finalizer ∷ [];
    };
  };
  log = [];
}

abbrev pub publishing : State CloudflareTunnelBinding
publishing = record { object = alive; log = [] }
