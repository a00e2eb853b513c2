-- ===== src/DeepCopies/PrivateRoutes.antt =====
-- The copies of CloudflareTunnelPrivateRoutes, and of their parts and lists.
use kflared.Base.{ℕ, ◌++◌, Text}
use kflared.Api.{
  CloudflareTunnelPrivateRoute, PrivateRouteSpec, PrivateRouteStatus, ConnectorResourceNames,
  Condition, ObjectMeta,
}
use kflared.DeepCopies.{
  Alloc, ◌>>=◌, pure, Pointer, Slice, Foreign, Copier, External, TypeMeta, StoredList, plain,
  foreign, lists, copy_slice, copy_pointer, copy_list, copy_object, RuntimeObject, slice_contents,
  slice_addresses,
}

pub record StoredStatus : Type 0 where
  pub observed_generation : ℕ
  pub tunnel_id : Text
  pub tunnel_name : Text
  pub route_id : Text
  pub network : Text
  pub resources : ConnectorResourceNames
  pub conditions : Slice (Foreign Condition)

pub record StoredRoute : Type 0 where
  pub type_meta : TypeMeta
  pub object_meta : Foreign ObjectMeta
  pub spec : PrivateRouteSpec
  pub status : StoredStatus

-- The spec holds no pointer.
abbrev pub spec_into : PrivateRouteSpec → Alloc PrivateRouteSpec
spec_into x = pure (record x { provider_ref = x.provider_ref; service_ref = x.service_ref })

abbrev pub spec_copy : Pointer PrivateRouteSpec → Alloc (Pointer PrivateRouteSpec)
spec_copy = copy_pointer plain

module _ (e : External) where
  unfoldable pub status_into : StoredStatus → Alloc StoredStatus
  status_into x = do
    conditions ← copy_slice (foreign e.condition) x.conditions
    pure (record x { conditions = conditions })

  abbrev pub status_contents : StoredStatus → PrivateRouteStatus
  status_contents x = record {
    observed_generation = x.observed_generation;
    tunnel_id = x.tunnel_id;
    tunnel_name = x.tunnel_name;
    route_id = x.route_id;
    network = x.network;
    resources = x.resources;
    conditions = slice_contents (foreign e.condition) x.conditions;
  }

  abbrev pub statuses : Copier StoredStatus PrivateRouteStatus
  statuses = record {
    into = status_into;
    contents = status_contents;
    addresses = λ x. slice_addresses (foreign e.condition) x.conditions;
  }

  abbrev pub status_copy : Pointer StoredStatus → Alloc (Pointer StoredStatus)
  status_copy = copy_pointer statuses

  unfoldable pub route_into : StoredRoute → Alloc StoredRoute
  route_into x = do
    object_meta ← e.object_meta x.object_meta
    status ← status_into x.status
    pure (record {
      type_meta = x.type_meta;
      object_meta = object_meta;
      spec = x.spec;
      status = status;
    })

  abbrev pub routes : Copier StoredRoute (TypeMeta × CloudflareTunnelPrivateRoute)
  routes = record {
    into = route_into;
    contents = λ x. (
      x.type_meta,
      record {
        metadata = x.object_meta.contents;
        spec = x.spec;
        status = status_contents x.status;
      },
    );
    addresses = λ x. x.object_meta.holds ++ statuses.addresses x.status;
  }

  abbrev pub route_copy : Pointer StoredRoute → Alloc (Pointer StoredRoute)
  route_copy = copy_pointer routes

  abbrev pub route_object : Pointer StoredRoute → Alloc (RuntimeObject StoredRoute)
  route_object = copy_object routes

  abbrev pub list_into : StoredList StoredRoute → Alloc (StoredList StoredRoute)
  list_into = copy_list e routes

  abbrev pub list_copy : Pointer (StoredList StoredRoute) → Alloc (Pointer (StoredList StoredRoute))
  list_copy = copy_pointer (lists e routes)

  abbrev pub list_object :
      Pointer (StoredList StoredRoute) → Alloc (RuntimeObject (StoredList StoredRoute))
  list_object = copy_object (lists e routes)
