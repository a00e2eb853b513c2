-- ===== src/DeepCopies/Deep.antt =====
-- The copies of the API's objects are deep.
use kflared.Base.{refl, arith}
use kflared.DeepCopies.{External, plain, foreign, slices, pointers, lists}
use kflared.DeepCopies.Laws.{
  IsDeep, IsExternal, Within-join, plain-IsDeep, slices-IsDeep, pointers-IsDeep, lists-IsDeep,
}
use kflared.DeepCopies.Bindings
use kflared.DeepCopies.PrivateRoutes
use kflared.DeepCopies.Providers

binding_specs-IsDeep : IsDeep Bindings.specs
unfolding Bindings.spec_into
binding_specs-IsDeep = record {
  copied = λ n x.
      let enabled = (pointers-IsDeep plain plain-IsDeep).copied n x.dns_automation_enabled in
      record { grows = enabled.grows; same = rw enabled.same refl; fresh = enabled.fresh };
}

module _ (e : External) (external : IsExternal e) where
  binding_statuses-IsDeep : IsDeep (Bindings.statuses e)
  unfolding Bindings.status_into
  binding_statuses-IsDeep = record {
    copied = λ n x.
        let hosts = (slices-IsDeep plain plain-IsDeep).copied n x.published_hostnames in
        let k = ((slices plain).into x.published_hostnames n).1 in
        let records = (slices-IsDeep plain plain-IsDeep).copied k x.dns_records in
        let m = ((slices plain).into x.dns_records k).1 in
        let conditions =
          (slices-IsDeep (foreign e.condition) external.condition).copied m x.conditions in
        record {
          grows = omega (arith, hosts.grows, records.grows, conditions.grows);
          same = rw (hosts.same, records.same, conditions.same) refl;
          fresh =
              Within-join n k _ _ _ hosts.grows (omega (arith, records.grows, conditions.grows))
                hosts.fresh
                (Within-join k m _ _ _ records.grows conditions.grows records.fresh
                  conditions.fresh);
        };
  }

  bindings-IsDeep : IsDeep (Bindings.bindings e)
  unfolding Bindings.binding_into
  bindings-IsDeep = record {
    copied = λ n x.
        let meta = external.object_meta.copied n x.object_meta in
        let k = (e.object_meta x.object_meta n).1 in
        let spec = binding_specs-IsDeep.copied k x.spec in
        let m = (Bindings.spec_into x.spec k).1 in
        let status = binding_statuses-IsDeep.copied m x.status in
        record {
          grows = omega (arith, meta.grows, spec.grows, status.grows);
          same = rw (meta.same, spec.same, status.same) refl;
          fresh =
              Within-join n k _ _ _ meta.grows (omega (arith, spec.grows, status.grows)) meta.fresh
                (Within-join k m _ _ _ spec.grows status.grows spec.fresh status.fresh);
        };
  }

  route_statuses-IsDeep : IsDeep (PrivateRoutes.statuses e)
  unfolding PrivateRoutes.status_into
  route_statuses-IsDeep = record {
    copied = λ n x.
        let conditions =
          (slices-IsDeep (foreign e.condition) external.condition).copied n x.conditions in
        record {
          grows = conditions.grows;
          same = rw conditions.same refl;
          fresh = conditions.fresh;
        };
  }

  routes-IsDeep : IsDeep (PrivateRoutes.routes e)
  unfolding PrivateRoutes.route_into
  routes-IsDeep = record {
    copied = λ n x.
        let meta = external.object_meta.copied n x.object_meta in
        let k = (e.object_meta x.object_meta n).1 in
        let status = route_statuses-IsDeep.copied k x.status in
        record {
          grows = omega (arith, meta.grows, status.grows);
          same = rw (meta.same, status.same) refl;
          fresh = Within-join n k _ _ _ meta.grows status.grows meta.fresh status.fresh;
        };
  }

  provider_specs-IsDeep : IsDeep (Providers.specs e)
  unfolding Providers.spec_into
  provider_specs-IsDeep = record {
    copied = λ n x.
        let zones = (slices-IsDeep plain plain-IsDeep).copied n x.allowed_dns_zones in
        let k = ((slices plain).into x.allowed_dns_zones n).1 in
        let selector = external.label_selector.copied k x.binding_namespace_selector in
        record {
          grows = omega (arith, zones.grows, selector.grows);
          same = rw (zones.same, selector.same) refl;
          fresh = Within-join n k _ _ _ zones.grows selector.grows zones.fresh selector.fresh;
        };
  }

  provider_statuses-IsDeep : IsDeep (Providers.statuses e)
  unfolding Providers.status_into
  provider_statuses-IsDeep = record {
    copied = λ n x.
        let conditions =
          (slices-IsDeep (foreign e.condition) external.condition).copied n x.conditions in
        record {
          grows = conditions.grows;
          same = rw conditions.same refl;
          fresh = conditions.fresh;
        };
  }

  providers-IsDeep : IsDeep (Providers.providers e)
  unfolding Providers.provider_into
  providers-IsDeep = record {
    copied = λ n x.
        let meta = external.object_meta.copied n x.object_meta in
        let k = (e.object_meta x.object_meta n).1 in
        let spec = provider_specs-IsDeep.copied k x.spec in
        let m = (Providers.spec_into e x.spec k).1 in
        let status = provider_statuses-IsDeep.copied m x.status in
        record {
          grows = omega (arith, meta.grows, spec.grows, status.grows);
          same = rw (meta.same, spec.same, status.same) refl;
          fresh =
              Within-join n k _ _ _ meta.grows (omega (arith, spec.grows, status.grows)) meta.fresh
                (Within-join k m _ _ _ spec.grows status.grows spec.fresh status.fresh);
        };
  }

  -- Where the copies of the types of other packages are deep, so are those of the three kinds of
  -- object and of their lists: a copy is nil only for nil, says what the original says, and holds only
  -- addresses that were not in use.
  pub objects-IsDeep :
      IsDeep (pointers (Bindings.bindings e))
      × IsDeep (pointers (PrivateRoutes.routes e))
      × IsDeep (pointers (Providers.providers e))
      × IsDeep (pointers (lists e (Bindings.bindings e)))
      × IsDeep (pointers (lists e (PrivateRoutes.routes e)))
      × IsDeep (pointers (lists e (Providers.providers e)))
  objects-IsDeep = (
    pointers-IsDeep _ bindings-IsDeep,
    pointers-IsDeep _ routes-IsDeep,
    pointers-IsDeep _ providers-IsDeep,
    pointers-IsDeep _ (lists-IsDeep e _ external bindings-IsDeep),
    pointers-IsDeep _ (lists-IsDeep e _ external routes-IsDeep),
    pointers-IsDeep _ (lists-IsDeep e _ external providers-IsDeep),
  )
