-- ===== src/PrivateRoutes/Reconcile.antt =====
-- `Reconcile` and `reconcile`
pub mod Ownership
pub mod Uid
pub mod Published
use kflared.Base.{
  ℕ, Bool, true, false, not, ◌&&◌, ◌||◌, Option, none, some, List, [], ◌∷◌, String, Text, bytes,
  str_eq,
}
use kflared.Base.{text_eq, ◌==◌, if◌then◌else◌}
use kflared.Errors.{Err, wrapped, Result, ok, err, ignore_not_found}
use kflared.Api.{CloudflareTunnelPrivateRoute, PrivateRouteStatus, ClusterCloudflareProvider}
use kflared.Api.{is_true, is_false, unknown}
use kflared.Cloudflare.{Client, Tunnel}
use kflared.Kube.{NamespacedName}
use kflared.Platform.{
  on_result, on_option, Platform, M, State, ◌>>=◌, ◌>>◌, pure, fail, attempt, current, assign,
  perform, Outcome, outcome_of,
}
use kflared.Platform.{get_route, get_namespace, get_token, update_route}
use kflared.Conditions.{set_condition}
use kflared.Settings.{Settings, private_finalizer, provider_controller_class_mismatch}
use kflared.PrivateRoutes.Validation.{Validation, rejected, valid, is_deleted, validate}
use kflared.PrivateRoutes.Status.{private_tunnel_name, patch_status, status, api}
use kflared.PrivateRoutes.Routes.{forget_route, ensure_route, delete_route, remove_route}
use kflared.PrivateRoutes.Tunnels.{ensure_tunnel}
use kflared.PrivateRoutes.Connectors.{is_connector_ready, ensure_connector}
use kflared.PrivateRoutes.Finalize.{finalize}

abbrev Route : Type 0
Route = CloudflareTunnelPrivateRoute

abbrev pub done : Outcome
done = record { requeue_after = 0; error = none }

module _ (p : Platform) (r : Settings) where
  -- A route for another network is removed before the new one is made.
  unfoldable pub leave_old_network : Client → Text → M Route (Unit {0})
  leave_old_network client network = do
    route ← current
    if not (route.status.network == []) && not (route.status.network == network)
        then (do delete_route p client; patch_status p forget_route)
        else pure tt

  -- The tunnel, the route and the connector, in that order.
  unfoldable pub program : ClusterCloudflareProvider → Text → M Route Outcome
  program provider network = do
    client ← api p r provider
    system ← perform p (get_namespace (bytes "kube-system"))
    before ← current
    tunnel ← ensure_tunnel p client (private_tunnel_name p system.uid before.uid)
    leave_old_network client network
    ensure_route p client tunnel network
    token ← perform p (get_token client tunnel.id)
    d ← ensure_connector p r token
    route ← current
    status p true "Accepted" (is_connector_ready d route.spec.connector_replicas)
    pure (record { requeue_after = 120; error = none })

  -- A route that is no longer valid is withdrawn, unless its provider went to another controller.
  unfoldable pub withdraw : String → M Route Outcome
  withdraw reason = do
    route ← current
    if not (route.status.network == []) && not (str_eq reason provider_controller_class_mismatch)
        then remove_route p r
        else pure tt
    written ← attempt (status p false reason false)
    pure (outcome_of 300 written)

  unfoldable pub by_validation : Validation → M Route Outcome
  by_validation (rejected reason) = withdraw reason
  by_validation (valid provider network) = program provider network

  -- A route of this controller's class.
  unfoldable pub reconcile_owned : M Route Outcome
  reconcile_owned = do
    route ← current
    if is_deleted route
        then finalize p r
        else if not (p.contains_finalizer route.finalizers private_finalizer)
        then (do
          updated ← attempt (
              perform p (
                update_route (record route {
                  metadata = record route.metadata {
                    finalizers = p.add_finalizer route.finalizers private_finalizer;
                  };
                })))
          pure (outcome_of 0 updated))
        else do validation ← validate p route; by_validation validation

  unfoldable pub reconcile : NamespacedName → M Route Outcome
  reconcile key = do
    found ← attempt (perform p (get_route key))
    on_result found (λ e. pure (record { requeue_after = 0; error = ignore_not_found e }))
        λ route. do
          assign route
          if r.controller_class == [] || not (route.spec.controller == r.controller_class)
              then pure done
              else reconcile_owned

  unfoldable pub failed_status : Route → PrivateRouteStatus
  failed_status route =
      let cs₁ =
        set_condition p route.status.conditions route.generation "Programmed" unknown
          "ReconciliationFailed"
          (bytes "Cloudflare private route reconciliation could not complete") in
      let cs₂ =
        set_condition p cs₁ route.generation "ConnectorReady" unknown "ReconciliationFailed"
          (bytes "Cloudflare connector reconciliation could not complete") in
      let cs₃ =
        set_condition p cs₂ route.generation "Ready" is_false "ReconciliationFailed"
          (bytes "Private route reconciliation could not complete") in
      record route.status { conditions = cs₃ }

  -- The status patch after a failure, on a fresh copy of the route. `%v` keeps no cause.
  unfoldable pub report_failure : NamespacedName → Outcome → Err → M Route Outcome
  report_failure key outcome e = do
    found ← attempt (perform p (get_route key))
    on_result found (λ _. pure outcome)
        λ route. do
          assign route
          if route.spec.controller == r.controller_class && not (is_deleted route)
              then (do
                written ← attempt (patch_status p failed_status)
                on_result written
                    (λ _. pure (record outcome {
                      error = some (wrapped "reconcile: %w; update failure status: %v" e);
                    }))
                    (λ _. pure outcome))
              else pure outcome

  -- The outcome of `reconcile`, an error that it raised included.
  abbrev outcome : Result Outcome → Outcome
  outcome (ok o) = o
  outcome (err e) = record { requeue_after = 0; error = some e }

  unfoldable pub reconcile_route : NamespacedName → M Route Outcome
  reconcile_route key = do
    ran ← attempt (reconcile key)
    let o = outcome ran
    on_option o.error (pure o) (report_failure key o)
