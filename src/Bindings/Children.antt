-- ===== src/Bindings/Children.antt =====
-- The objects that a connector is made of: `reconcileConnectorSecret`,
-- `reconcileConnectorDeployment`, `deleteOwnedChild` and `deleteDNSEndpoint`. A reconciler without a
-- REST mapper is one whose mapper knows no such kind, since the code does the same for both.
pub mod Gone
use kflared.Base.{not, [], ◌∷◌, Text, text_eq, ◌==◌, if◌then◌else◌}
use kflared.Errors.{message, is_not_found, is_no_match}
use kflared.Api.{CloudflareTunnelBinding}
use kflared.Kube.{
  Child, ChildKind, secret, deployment, endpoint, ChildBody, token_secret, connector,
  NamespacedName,
}
use kflared.Platform.{
  Platform, M, ◌>>=◌, ◌>>◌, pure, fail, lift, attempt, current, perform, on_result,
}
use kflared.Platform.{get_child, delete_child, load_child, save_child, rest_mapping}
use kflared.Settings.{Settings, system_namespace, cloudflared_image}
use kflared.References.{effective_replicas}
use kflared.Connector.{
  label, owner_uid_label, managed_labels, verify_child_ownership, connector_pod_spec,
}

abbrev Binding : Type 0
Binding = CloudflareTunnelBinding

-- An object that is gone is no error.
unfoldable pub ignoring_not_found : {O : Type 0} → M O (Unit {0}) → M O (Unit {0})
ignoring_not_found m = do
  r ← attempt m
  on_result r (λ e. if is_not_found e then pure tt else fail e) pure

module _ (p : Platform) where
  unfoldable pub delete_owned_child : ChildKind → NamespacedName → M Binding (Unit {0})
  delete_owned_child kind key = do
    binding ← current
    child ← perform p (get_child kind key)
    if not (label owner_uid_label child.labels == binding.uid)
        then fail (
            message "refusing to delete child %s/%s not owned by this binding"
              (key.namespace ∷ key.name ∷ []))
        else perform p (delete_child child)

  -- The DNSEndpoint that was found.
  unfoldable pub delete_found_endpoint : Text → Child → M Binding (Unit {0})
  delete_found_endpoint name child = do
    binding ← current
    if not (label owner_uid_label child.labels == binding.uid)
        then fail (
            message "refusing to delete DNSEndpoint %s/%s not owned by this binding"
              (binding.namespace ∷ name ∷ []))
        else ignoring_not_found (perform p (delete_child child))

  -- The kind is known to the REST mapper.
  unfoldable pub delete_known_endpoint : Text → M Binding (Unit {0})
  delete_known_endpoint name = do
    binding ← current
    found ←
        attempt
          (perform p (get_child endpoint (record { namespace = binding.namespace; name = name })))
    on_result found (λ e. if is_not_found e then pure tt else fail e) (delete_found_endpoint name)

  unfoldable pub delete_dns_endpoint : Text → M Binding (Unit {0})
  delete_dns_endpoint name = do
    mapped ← attempt (perform p rest_mapping)
    on_result mapped (λ e. if is_no_match e then pure tt else fail e)
        (λ _. delete_known_endpoint name)

  module _ (r : Settings) where
    -- `CreateOrPatch` of one child.
    unfoldable pub write_child : ChildKind → Text → ChildBody → M Binding Child
    write_child kind name body = do
      binding ← current
      child ← perform p (load_child kind (record { namespace = system_namespace r; name = name }))
      lift (verify_child_ownership binding.uid child)
      perform p (save_child (record child { labels = managed_labels binding.uid; body = body }))

    unfoldable pub reconcile_connector_secret : Text → Text → M Binding Child
    reconcile_connector_secret name token = write_child secret name (token_secret token)

    unfoldable pub reconcile_connector_deployment : Text → M Binding Child
    reconcile_connector_deployment name = do
      binding ← current
      write_child deployment name (
          connector (effective_replicas binding.spec.connector_replicas)
            (managed_labels binding.uid) (managed_labels binding.uid)
            (connector_pod_spec name (cloudflared_image r)))
