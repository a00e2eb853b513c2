-- ===== src/PrivateRoutes/Connectors.antt =====
-- `ensureConnector`
pub mod Ownership
pub mod Written
use kflared.Base.{Bool, ◌&&◌, [], Text, text_eq, nat_eq, leb}
use kflared.Base.Int.{ℤ, lebℤ}
use kflared.Api.{CloudflareTunnelPrivateRoute, PrivateRouteStatus}
use kflared.Kube.{Child, ChildKind, secret, deployment, ChildBody, token_secret, connector}
use kflared.Platform.{
  Platform, M, ◌>>=◌, ◌>>◌, pure, lift, current, perform, load_child, save_child,
}
use kflared.Settings.{Settings, system_namespace, cloudflared_image}
use kflared.References.{effective_replicas}
use kflared.Connector.{
  private_resource_name, private_labels, verify_private_child, connector_pod_spec,
}
use kflared.PrivateRoutes.Status.{patch_status}

abbrev Route : Type 0
Route = CloudflareTunnelPrivateRoute

abbrev pub note_resources : Text → Route → PrivateRouteStatus
note_resources name route = record route.status {
  resources = record { deployment = name; secret = name; dns_endpoint = [] };
}

abbrev pub is_connector_ready : Child → ℤ → Bool
is_connector_ready d replicas =
    leb d.generation d.observed_generation
    && lebℤ (effective_replicas replicas) d.available_replicas

module _ (p : Platform) (r : Settings) where
  -- `CreateOrPatch` of one child: the existing object is checked before it is written.
  unfoldable pub write_child : ChildKind → ChildBody → M Route Child
  write_child kind body = do
    route ← current
    child ← perform p (
        load_child kind
          (record { namespace = system_namespace r; name = private_resource_name route.uid }))
    lift (verify_private_child route.uid child)
    perform p (save_child (record child { labels = private_labels route.uid; body = body }))

  unfoldable pub ensure_connector : Text → M Route Child
  ensure_connector token = do
    route ← current
    write_child secret (token_secret token)
    d ← write_child deployment (
        connector (effective_replicas route.spec.connector_replicas) (private_labels route.uid)
          (private_labels route.uid)
          (connector_pod_spec (private_resource_name route.uid) (cloudflared_image r)))
    patch_status p (note_resources (private_resource_name route.uid))
    pure d
