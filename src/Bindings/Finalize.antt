-- ===== src/Bindings/Finalize.antt =====
-- `deprogramTunnel` and `finalize`
pub mod Ownership
pub mod Quiet
pub mod Cleaned
use kflared.Base.{
  ℕ, Bool, true, false, not, ◌&&◌, ◌||◌, Option, none, some, List, [], ◌∷◌, String, Text, bytes,
  str_eq, text_eq, ◌==◌, if◌then◌else◌,
}
use kflared.Errors.{Err, message, wrapped, Result, ok, err, is_not_found}
use kflared.Api.{
  CloudflareTunnelBinding, ClusterCloudflareProvider, DeletionPolicy, delete, retain, unset,
  Condition,
}
use kflared.Cloudflare.{Client, Tunnel}
use kflared.Kube.{ChildKind, secret, deployment}
use kflared.Planner.Ingress.{IngressRule, ingress_rules, equal_ingress}
use kflared.Platform.{
  Platform, M, ◌>>=◌, ◌>>◌, pure, fail, attempt, current, perform, on_result, on_option, Outcome,
  outcome_of,
}
use kflared.Platform.{
  get_provider, get_tunnel, get_configuration, update_configuration, delete_tunnel, update_binding,
  record_event,
}
use kflared.Settings.{Settings, binding_finalizer, system_namespace}
use kflared.Connector.{connector_resource_name}
use kflared.PrivateRoutes.Status.{api}
use kflared.Bindings.Children.{ignoring_not_found, delete_owned_child, delete_dns_endpoint}

abbrev Binding : Type 0
Binding = CloudflareTunnelBinding

abbrev pub retains : DeletionPolicy → Bool
retains retain = true
retains _ = false

-- `fmt.Errorf` with `%w` round what a call returned.
unfoldable pub wrapping : {O A : Type 0} → String → M O A → M O A
wrapping text m = do r ← attempt m; on_result r (λ e. fail (wrapped text e)) pure

abbrev pub is_manual : Option Condition → Bool
is_manual none = false
is_manual (some c) = str_eq c.reason "ManualConfigurationRequired"

module _ (p : Platform) (r : Settings) where
  -- The configuration with no hostname, written unless Cloudflare shows that it is there.
  unfoldable pub deprogram_found : Client → Text → M Binding (Unit {0})
  deprogram_found client id = do
    present ← attempt (perform p (get_configuration client id))
    let write =
        wrapping "deprogram invalid binding tunnel: %w"
          (perform p (update_configuration client id (ingress_rules [] [])))
    on_result present (λ _. write)
        (λ rules. if not (equal_ingress rules (ingress_rules [] [])) then write else pure tt)

  unfoldable pub deprogram_tunnel : M Binding (Unit {0})
  deprogram_tunnel = do
    binding ← current
    provider ←
        wrapping "read provider while deprogramming tunnel: %w"
          (perform p (get_provider binding.spec.provider_ref))
    client ← wrapping "read API token while deprogramming tunnel: %w" (api p r provider)
    tunnel ←
        wrapping "read tunnel while deprogramming invalid binding: %w"
          (perform p (get_tunnel client binding.status.tunnel_id))
    on_option tunnel (pure tt) (λ _. deprogram_found client binding.status.tunnel_id)
    wrapping "delete DNS automation for invalid binding: %w"
        (delete_dns_endpoint p (connector_resource_name binding.uid))

  -- The provider of a binding that has a tunnel; it may be gone if the tunnel is retained.
  unfoldable pub final_provider : M Binding (Option ClusterCloudflareProvider)
  final_provider = do
    binding ← current
    if binding.status.tunnel_id == [] then pure none else do
      found ← attempt (perform p (get_provider binding.spec.provider_ref))
      on_result found
          (λ e.
            if not (retains binding.spec.deletion_policy) || not (is_not_found e)
            then fail e
            else pure none)
          λ provider.
            if not (provider.spec.controller == binding.spec.controller)
            then fail (
                message
                  "refusing to finalize binding: referenced ClusterCloudflareProvider belongs to controller class %q"
                  (provider.spec.controller ∷ []))
            else pure (some provider)

  unfoldable pub event : String → String → M Binding (Unit {0})
  event reason text = do sent ← attempt (perform p (record_event reason text)); pure tt

  unfoldable pub delete_tunnel_of : ClusterCloudflareProvider → M Binding (Unit {0})
  delete_tunnel_of provider = do
    binding ← current
    client ← api p r provider
    wrapping "delete Cloudflare Tunnel: %w"
        (perform p (delete_tunnel client binding.status.tunnel_id))
    event "TunnelDeleted" "Deleted the owned Cloudflare Tunnel"

  unfoldable pub finish_tunnel : Option ClusterCloudflareProvider → M Binding (Unit {0})
  finish_tunnel provider = do
    binding ← current
    if not (retains binding.spec.deletion_policy) && not (binding.status.tunnel_id == [])
        then on_option provider
            (fail (message "referenced ClusterCloudflareProvider is unavailable" []))
            delete_tunnel_of
        else if retains binding.spec.deletion_policy
        then event "TunnelRetained"
            "Retained the remote Cloudflare Tunnel and removed Kubernetes connector resources"
        else pure tt

  unfoldable pub finalize : M Binding Outcome
  finalize = do
    binding ← current
    if not (p.contains_finalizer binding.finalizers binding_finalizer)
        then pure (record { requeue_after = 0; error = none })
        else do
          provider ← final_provider
          ignoring_not_found (
              delete_owned_child p deployment (record {
                namespace = system_namespace r;
                name = connector_resource_name binding.uid;
              }))
          ignoring_not_found (
              delete_owned_child p secret (record {
                namespace = system_namespace r;
                name = connector_resource_name binding.uid;
              }))
          delete_dns_endpoint p (connector_resource_name binding.uid)
          finish_tunnel provider
          if is_manual (p.find_status_condition binding.status.conditions "DNSAutomationReady")
              then event "ManualDNSRetained"
                  "Manual DNS records were not removed and may return Cloudflare error 1016"
              else pure tt
          updated ← attempt (
              perform p (
                update_binding (record binding {
                  metadata = record binding.metadata {
                    finalizers = p.remove_finalizer binding.finalizers binding_finalizer;
                  };
                })))
          pure (outcome_of 0 updated)
