-- ===== src/DeepCopies/Providers.antt =====
-- The copies of ClusterCloudflareProviders, and of their parts and lists.
use kflared.Base.{ℕ, ◌++◌, Text}
use kflared.Api.{
  ClusterCloudflareProvider, ProviderSpec, ProviderStatus, Condition, LabelSelector, ObjectMeta,
}
use kflared.DeepCopies.{
  Alloc, ◌>>=◌, pure, Pointer, Slice, Foreign, Copier, External, TypeMeta, StoredList, plain,
  foreign, lists, copy_slice, copy_pointer, copy_list, copy_object, RuntimeObject, slice_contents,
  slice_addresses,
}

pub record StoredSpec : Type 0 where
  pub controller : Text
  pub account_id : Text
  pub secret_name : Text
  pub secret_key : Text
  pub allowed_dns_zones : Slice Text
  pub binding_namespace_selector : Foreign LabelSelector

pub record StoredStatus : Type 0 where
  pub observed_generation : ℕ
  pub conditions : Slice (Foreign Condition)

pub record StoredProvider : Type 0 where
  pub type_meta : TypeMeta
  pub object_meta : Foreign ObjectMeta
  pub spec : StoredSpec
  pub status : StoredStatus

module _ (e : External) where
  unfoldable pub spec_into : StoredSpec → Alloc StoredSpec
  spec_into x = do
    zones ← copy_slice plain x.allowed_dns_zones
    selector ← e.label_selector x.binding_namespace_selector
    pure (record x { allowed_dns_zones = zones; binding_namespace_selector = selector })

  abbrev pub spec_contents : StoredSpec → ProviderSpec
  spec_contents x = record {
    controller = x.controller;
    account_id = x.account_id;
    secret_name = x.secret_name;
    secret_key = x.secret_key;
    allowed_dns_zones = slice_contents plain x.allowed_dns_zones;
    binding_namespace_selector = x.binding_namespace_selector.contents;
  }

  abbrev pub specs : Copier StoredSpec ProviderSpec
  specs = record {
    into = spec_into;
    contents = spec_contents;
    addresses =
        λ x. slice_addresses plain x.allowed_dns_zones ++ x.binding_namespace_selector.holds;
  }

  abbrev pub spec_copy : Pointer StoredSpec → Alloc (Pointer StoredSpec)
  spec_copy = copy_pointer specs

  unfoldable pub status_into : StoredStatus → Alloc StoredStatus
  status_into x = do
    conditions ← copy_slice (foreign e.condition) x.conditions
    pure (record x { conditions = conditions })

  abbrev pub status_contents : StoredStatus → ProviderStatus
  status_contents x = record {
    observed_generation = x.observed_generation;
    conditions = slice_contents (foreign e.condition) x.conditions;
  }

  abbrev pub statuses : Copier StoredStatus ProviderStatus
  statuses = record {
    into = status_into;
    contents = status_contents;
    addresses = λ x. slice_addresses (foreign e.condition) x.conditions;
  }

  abbrev pub status_copy : Pointer StoredStatus → Alloc (Pointer StoredStatus)
  status_copy = copy_pointer statuses

  unfoldable pub provider_into : StoredProvider → Alloc StoredProvider
  provider_into x = do
    object_meta ← e.object_meta x.object_meta
    spec ← spec_into x.spec
    status ← status_into x.status
    pure (record {
      type_meta = x.type_meta;
      object_meta = object_meta;
      spec = spec;
      status = status;
    })

  abbrev pub providers : Copier StoredProvider (TypeMeta × ClusterCloudflareProvider)
  providers = record {
    into = provider_into;
    contents = λ x. (
      x.type_meta,
      record {
        metadata = x.object_meta.contents;
        spec = spec_contents x.spec;
        status = status_contents x.status;
      },
    );
    addresses = λ x. x.object_meta.holds ++ (specs.addresses x.spec ++ statuses.addresses x.status);
  }

  abbrev pub provider_copy : Pointer StoredProvider → Alloc (Pointer StoredProvider)
  provider_copy = copy_pointer providers

  abbrev pub provider_object : Pointer StoredProvider → Alloc (RuntimeObject StoredProvider)
  provider_object = copy_object providers

  abbrev pub list_into : StoredList StoredProvider → Alloc (StoredList StoredProvider)
  list_into = copy_list e providers

  abbrev pub list_copy :
      Pointer (StoredList StoredProvider) → Alloc (Pointer (StoredList StoredProvider))
  list_copy = copy_pointer (lists e providers)

  abbrev pub list_object :
      Pointer (StoredList StoredProvider) → Alloc (RuntimeObject (StoredList StoredProvider))
  list_object = copy_object (lists e providers)
