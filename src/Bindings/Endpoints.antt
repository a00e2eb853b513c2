-- ===== src/Bindings/Endpoints.antt =====
-- `reconcileDNSEndpoint`. A reconciler without a REST mapper is one whose mapper knows no such kind.
use kflared.Base.{Bool, true, false, not, List, [], ◌∷◌, map, Text, if◌then◌else◌}
use kflared.Errors.{is_no_match}
use kflared.Api.{CloudflareTunnelBinding}
use kflared.Kube.{Child, endpoint, dns_endpoint, Endpoint}
use kflared.Platform.{
  Platform, M, ◌>>=◌, ◌>>◌, pure, fail, lift, attempt, current, perform, on_result,
}
use kflared.Platform.{load_child, save_child, rest_mapping}
use kflared.Connector.{managed_labels, verify_child_ownership}
use kflared.Bindings.Children.{delete_dns_endpoint}
use kflared.Bindings.Status.{no_hostnames}

abbrev Binding : Type 0
Binding = CloudflareTunnelBinding

abbrev pub endpoint_of : Text → Text → Endpoint
endpoint_of target hostname = record {
  dns_name = hostname;
  record_type = "CNAME";
  targets = target ∷ [];
  provider_specific = ("cloudflare/proxied", "true") ∷ [];
}

module _ (p : Platform) where
  -- The function that `CreateOrPatch` is given, and the write after it.
  unfoldable pub save_endpoint : List Text → Text → Child → M Binding Child
  save_endpoint hostnames target child = do
    binding ← current
    lift (verify_child_ownership binding.uid child)
    owner ←
        lift (p.controller_reference binding (record child { labels = managed_labels binding.uid }))
    perform p (
        save_child (record child {
          labels = managed_labels binding.uid;
          body = dns_endpoint (map (endpoint_of target) hostnames) owner;
        }))

  unfoldable pub write_endpoint : Text → List Text → Text → M Binding Child
  write_endpoint name hostnames target = do
    binding ← current
    child ← perform p (load_child endpoint (record { namespace = binding.namespace; name = name }))
    save_endpoint hostnames target child

  -- Whether a DNSEndpoint was written.
  unfoldable pub reconcile_dns_endpoint : Text → List Text → Text → Bool → M Binding Bool
  reconcile_dns_endpoint name hostnames target enabled =
      if not enabled then (do delete_dns_endpoint p name; pure false) else do
        mapped ← attempt (perform p rest_mapping)
        on_result mapped (λ e. if is_no_match e then pure false else fail e)
            λ _.
              if no_hostnames hostnames
              then (do delete_dns_endpoint p name; pure false)
              else (do write_endpoint name hostnames target; pure true)
