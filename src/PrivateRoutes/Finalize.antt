-- ===== src/PrivateRoutes/Finalize.antt =====
-- `finalize`
pub mod Gone
pub mod Quiet
pub mod Ownership
pub mod Cleaned
use kflared.Base.{Bool, true, false, not, ◌||◌, none, []}
use kflared.Base.{text_eq, ◌==◌, if◌then◌else◌}
use kflared.Errors.{message, is_not_found}
use kflared.Api.{CloudflareTunnelPrivateRoute, DeletionPolicy, retain}
use kflared.Cloudflare.{Client}
use kflared.Kube.{ChildKind, secret, deployment}
use kflared.Platform.{
  on_result, on_option, Platform, M, ◌>>=◌, ◌>>◌, pure, fail, lift, attempt, current, perform,
  Outcome, outcome_of,
}
use kflared.Platform.{
  get_provider, get_tunnel, delete_tunnel, get_child, delete_child, update_route,
}
use kflared.Settings.{Settings, system_namespace, private_finalizer}
use kflared.Connector.{private_resource_name, verify_private_child}
use kflared.PrivateRoutes.Status.{api}
use kflared.PrivateRoutes.Routes.{remove_route}
use kflared.PrivateRoutes.Tunnels.{is_tunnel_named}

abbrev Route : Type 0
Route = CloudflareTunnelPrivateRoute

abbrev pub retains : DeletionPolicy → Bool
retains retain = true
retains _ = false

module _ (p : Platform) (r : Settings) where
  -- One round of the loop over the Deployment and the Secret.
  unfoldable pub delete_private_child : ChildKind → M Route (Unit {0})
  delete_private_child kind = do
    route ← current
    found ← attempt (
        perform p (
          get_child kind
            (record { namespace = system_namespace r; name = private_resource_name route.uid })))
    on_result found (λ e. if is_not_found e then pure tt else fail e)
        λ child. do
          lift (verify_private_child route.uid child)
          gone ← attempt (perform p (delete_child child))
          on_result gone (λ e. if is_not_found e then pure tt else fail e) pure

  unfoldable pub delete_known_tunnel : Client → M Route (Unit {0})
  delete_known_tunnel client = do
    route ← current
    found ← perform p (get_tunnel client route.status.tunnel_id)
    on_option found (pure tt) λ tunnel.
        if not (is_tunnel_named route.status.tunnel_name tunnel)
        then fail (message "refusing to delete tunnel with mismatched identity" [])
        else perform p (delete_tunnel client tunnel.id)

  unfoldable pub delete_route_tunnel : M Route (Unit {0})
  delete_route_tunnel = do
    route ← current
    provider ← perform p (get_provider route.spec.provider_ref)
    if not (provider.spec.controller == route.spec.controller)
        then fail (message "provider class mismatch" [])
        else do client ← api p r provider; delete_known_tunnel client

  -- What `finalize` does before it removes the finalizer.
  unfoldable pub clean_up : M Route (Unit {0})
  clean_up = do
    route ← current
    if retains route.spec.deletion_policy || route.status.network == []
        then pure tt
        else remove_route p r
    delete_private_child deployment
    delete_private_child secret
    after ← current
    if retains after.spec.deletion_policy || after.status.tunnel_id == []
        then pure tt
        else delete_route_tunnel

  unfoldable pub finalize : M Route Outcome
  finalize = do
    route ← current
    if not (p.contains_finalizer route.finalizers private_finalizer)
        then pure (record { requeue_after = 0; error = none })
        else do
          clean_up
          cleaned ← current
          updated ← attempt (
              perform p (
                update_route (record cleaned {
                  metadata = record cleaned.metadata {
                    finalizers = p.remove_finalizer cleaned.finalizers private_finalizer;
                  };
                })))
          pure (outcome_of 0 updated)
