-- ===== src/PrivateRoutes/Connectors/Written.antt =====
-- What is written where `ensureConnector` succeeds.
use kflared.Base.{◌≡◌, Text}
use kflared.Base.Int.{ℤ}
use kflared.Errors.{ok}
use kflared.Api.{CloudflareTunnelPrivateRoute}
use kflared.Kube.{Child, ChildKind, secret, deployment, ChildBody, token_secret, connector}
use kflared.Platform.{Platform, load_child, save_child}
use kflared.Platform.Gives.{
  Gives, Once, Gives-current, Gives-bind, Gives-lift, Gives-perform, Gives-pure, Gives-weaken,
}
use kflared.Settings.{Settings, system_namespace, cloudflared_image}
use kflared.References.{effective_replicas}
use kflared.Connector.{
  private_resource_name, private_labels, verify_private_child, connector_pod_spec,
}
use kflared.PrivateRoutes.Status.Patches.{KeepsUid, HasUid, patch_status-Gives}
use kflared.PrivateRoutes.Connectors.{note_resources, write_child, ensure_connector}

abbrev Route : Type 0
Route = CloudflareTunnelPrivateRoute

module _ (p : Platform) (r : Settings) (uid : Text) where
  -- The child was found to be new or labelled with the UID, and was written with the body and the
  -- labels.
  pub record IsWritten (kind : ChildKind) (body : ChildBody) (written : Child) : Type 0 where
    pub child : Child
    pub loaded :
        Once p
          (load_child kind
            (record { namespace = system_namespace r; name = private_resource_name uid }))
          child
    pub own : verify_private_child uid child ≡ ok tt
    pub saved :
        Once p (save_child (record child { labels = private_labels uid; body = body })) written

  write_child-Gives :
      (kind : ChildKind) (body : ChildBody)
      → Gives (HasUid uid) (write_child p r kind body) (IsWritten kind body)
  unfolding write_child
  write_child-Gives kind body = Gives-current _ λ route u.
      Gives-bind _ _
        (Gives-perform p (
          load_child kind
            (record { namespace = system_namespace r; name = private_resource_name route.uid })))
        λ child loaded.
          Gives-bind _ _ (Gives-lift (verify_private_child route.uid child) (λ a own. own)) λ a own.
            Gives-weaken _
              (Gives-perform p
                (save_child (record child { labels = private_labels route.uid; body = body })))
              λ written saved. record {
                child = child;
                loaded = rw (← u) loaded;
                own = rw (← u) own;
                saved = rw (← u) saved;
              }

  -- The Secret holds the token, and the Deployment runs the connector on it.
  pub record IsConnected (token : Text) (written : Child) : Type 0 where
    pub replicas : ℤ
    pub kept : Child
    pub token_kept : IsWritten secret (token_secret token) kept
    pub running :
        IsWritten deployment
          (connector
            (effective_replicas replicas)
            (private_labels uid)
            (private_labels uid)
            (connector_pod_spec (private_resource_name uid) (cloudflared_image r)))
          written

  pub ensure_connector-Gives :
      (server : KeepsUid p) (token : Text)
      → Gives (HasUid uid) (ensure_connector p r token) (IsConnected token)
  unfolding ensure_connector
  ensure_connector-Gives server token = Gives-current _ λ route u.
      Gives-bind _ _ (write_child-Gives secret (token_secret token)) λ kept secret_kept.
        Gives-bind _ _ (write_child-Gives deployment _) λ d running.
          Gives-bind _ _
            (patch_status-Gives p server uid (note_resources (private_resource_name route.uid)))
            λ _ _. Gives-pure d (record {
              replicas = route.spec.connector_replicas;
              kept = kept;
              token_kept = secret_kept;
              running = (rw u at running);
            })
