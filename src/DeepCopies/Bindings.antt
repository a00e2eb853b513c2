-- ===== src/DeepCopies/Bindings.antt =====
-- The copies of CloudflareTunnelBindings, and of their parts and lists.
use kflared.Base.{ℕ, Bool, ◌++◌, Text}
use kflared.Base.Int.{ℤ}
use kflared.Api.{
  CloudflareTunnelBinding, BindingSpec, BindingStatus, ConnectorResourceNames, Condition,
  DeletionPolicy, DnsRecord, GatewayReference, ObjectMeta, ServiceReference,
}
use kflared.DeepCopies.{
  Alloc, ◌>>=◌, pure, Pointer, Slice, Foreign, Copier, External, TypeMeta, StoredList, plain,
  foreign, lists, copy_slice, copy_pointer, copy_list, copy_object, RuntimeObject, slice_contents,
  slice_addresses, pointer_contents, pointer_addresses,
}

pub record StoredSpec : Type 0 where
  pub controller : Text
  pub provider_ref : Text
  pub gateway_ref : GatewayReference
  pub origin_service_ref : ServiceReference
  pub connector_replicas : ℤ
  pub deletion_policy : DeletionPolicy
  pub dns_automation_enabled : Pointer Bool

pub record StoredStatus : Type 0 where
  pub observed_generation : ℕ
  pub tunnel_id : Text
  pub tunnel_name : Text
  pub tunnel_cname : Text
  pub published_hostnames : Slice Text
  pub dns_records : Slice DnsRecord
  pub resources : ConnectorResourceNames
  pub conditions : Slice (Foreign Condition)

pub record StoredBinding : Type 0 where
  pub type_meta : TypeMeta
  pub object_meta : Foreign ObjectMeta
  pub spec : StoredSpec
  pub status : StoredStatus

unfoldable pub spec_into : StoredSpec → Alloc StoredSpec
spec_into x = do
  enabled ← copy_pointer plain x.dns_automation_enabled
  pure (record x { dns_automation_enabled = enabled })

abbrev pub spec_contents : StoredSpec → BindingSpec
spec_contents x = record {
  controller = x.controller;
  provider_ref = x.provider_ref;
  gateway_ref = x.gateway_ref;
  origin_service_ref = x.origin_service_ref;
  connector_replicas = x.connector_replicas;
  deletion_policy = x.deletion_policy;
  dns_automation_enabled = pointer_contents plain x.dns_automation_enabled;
}

abbrev pub specs : Copier StoredSpec BindingSpec
specs = record {
  into = spec_into;
  contents = spec_contents;
  addresses = λ x. pointer_addresses plain x.dns_automation_enabled;
}

abbrev pub spec_copy : Pointer StoredSpec → Alloc (Pointer StoredSpec)
spec_copy = copy_pointer specs

module _ (e : External) where
  unfoldable pub status_into : StoredStatus → Alloc StoredStatus
  status_into x = do
    hostnames ← copy_slice plain x.published_hostnames
    records ← copy_slice plain x.dns_records
    conditions ← copy_slice (foreign e.condition) x.conditions
    pure (record x {
      published_hostnames = hostnames;
      dns_records = records;
      conditions = conditions;
    })

  abbrev pub status_contents : StoredStatus → BindingStatus
  status_contents x = record {
    observed_generation = x.observed_generation;
    tunnel_id = x.tunnel_id;
    tunnel_name = x.tunnel_name;
    tunnel_cname = x.tunnel_cname;
    published_hostnames = slice_contents plain x.published_hostnames;
    dns_records = slice_contents plain x.dns_records;
    resources = x.resources;
    conditions = slice_contents (foreign e.condition) x.conditions;
  }

  abbrev pub statuses : Copier StoredStatus BindingStatus
  statuses = record {
    into = status_into;
    contents = status_contents;
    addresses = λ x.
        slice_addresses plain x.published_hostnames
        ++ (slice_addresses plain x.dns_records
            ++ slice_addresses (foreign e.condition) x.conditions);
  }

  abbrev pub status_copy : Pointer StoredStatus → Alloc (Pointer StoredStatus)
  status_copy = copy_pointer statuses

  unfoldable pub binding_into : StoredBinding → Alloc StoredBinding
  binding_into x = do
    object_meta ← e.object_meta x.object_meta
    spec ← spec_into x.spec
    status ← status_into x.status
    pure (record {
      type_meta = x.type_meta;
      object_meta = object_meta;
      spec = spec;
      status = status;
    })

  abbrev pub bindings : Copier StoredBinding (TypeMeta × CloudflareTunnelBinding)
  bindings = record {
    into = binding_into;
    contents = λ x. (
      x.type_meta,
      record {
        metadata = x.object_meta.contents;
        spec = spec_contents x.spec;
        status = status_contents x.status;
      },
    );
    addresses = λ x. x.object_meta.holds ++ (specs.addresses x.spec ++ statuses.addresses x.status);
  }

  abbrev pub binding_copy : Pointer StoredBinding → Alloc (Pointer StoredBinding)
  binding_copy = copy_pointer bindings

  abbrev pub binding_object : Pointer StoredBinding → Alloc (RuntimeObject StoredBinding)
  binding_object = copy_object bindings

  abbrev pub list_into : StoredList StoredBinding → Alloc (StoredList StoredBinding)
  list_into = copy_list e bindings

  abbrev pub list_copy :
      Pointer (StoredList StoredBinding) → Alloc (Pointer (StoredList StoredBinding))
  list_copy = copy_pointer (lists e bindings)

  abbrev pub list_object :
      Pointer (StoredList StoredBinding) → Alloc (RuntimeObject (StoredList StoredBinding))
  list_object = copy_object (lists e bindings)
