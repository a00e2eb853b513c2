-- ===== src/Bindings/Reconcile.antt =====
-- `Reconcile`
pub mod Requeues
pub mod Programmed
pub mod Published
use kflared.Base.{
  Bool, true, false, not, ◌||◌, Option, none, some, List, [], ◌++◌, String, Text, bytes, str_eq,
  text_eq, ◌==◌, if◌then◌else◌,
}
use kflared.Base.Int.{lebℤ}
use kflared.Errors.{Err, join, is_status_unknown, ignore_not_found}
use kflared.Api.{CloudflareTunnelBinding, Condition}
use kflared.Cloudflare.{Client, Tunnel}
use kflared.Kube.{NamespacedName}
use kflared.Planner.Ingress.{ingress_rules, equal_ingress}
use kflared.Planner.Names.{tunnel_name}
use kflared.Platform.{
  Platform, M, ◌>>=◌, ◌>>◌, pure, attempt, current, assign, perform, on_result, Outcome, outcome_of,
}
use kflared.Platform.{
  get_binding, get_namespace, get_configuration, update_configuration, get_token, update_binding,
}
use kflared.Settings.{Settings, owns, binding_finalizer, provider_controller_class_mismatch}
use kflared.References.{effective_replicas}
use kflared.Connector.{connector_resource_name}
use kflared.PrivateRoutes.Status.{read_api_token}
use kflared.Bindings.Winners.{is_deleted}
use kflared.Bindings.Children.{reconcile_connector_secret, reconcile_connector_deployment}
use kflared.Bindings.Finalize.{wrapping, deprogram_tunnel, finalize}
use kflared.Bindings.Tunnels.{tunnel_cname_zone, ensure_tunnel}
use kflared.Bindings.Status.{error_of, report_operational_failure, set_ready_status}
use kflared.Bindings.Endpoints.{reconcile_dns_endpoint}
use kflared.Bindings.Origin.{Step, stop, proceed}
use kflared.Bindings.Validation.{Plan, validate_and_plan}

abbrev Binding : Type 0
Binding = CloudflareTunnelBinding

unfoldable pub binding_dns_automation_enabled : Binding → Bool
binding_dns_automation_enabled binding = elim binding.spec.dns_automation_enabled [
  | none ↦ true
  | some enabled ↦ enabled
]

abbrev pub is_class_mismatch : Option Condition → Bool
is_class_mismatch none = false
is_class_mismatch (some c) = str_eq c.reason provider_controller_class_mismatch

module _ (p : Platform) (r : Settings) where
  -- `if err != nil`, with the failure reported and the run ended.
  unfoldable pub reporting :
      {A : Type 0}
      → String
      → String
      → String
      → M Binding A
      → (A → M Binding Outcome)
      → M Binding Outcome
  reporting failed_condition reason text m f = do
    result ← attempt m
    on_result result (report_operational_failure p failed_condition reason (bytes text)) f

  abbrev tunnel_step : {A : Type 0} → M Binding A → (A → M Binding Outcome) → M Binding Outcome
  tunnel_step =
      reporting "Programmed" "TunnelReconciliationFailed" "Tunnel reconciliation could not complete"

  abbrev connector_step : {A : Type 0} → M Binding A → (A → M Binding Outcome) → M Binding Outcome
  connector_step =
      reporting "ConnectorReady" "ConnectorReconciliationFailed"
        "Connector reconciliation could not complete"

  -- From the connector's Deployment on.
  unfoldable pub publish : Tunnel → Text → List Text → Bool → M Binding Outcome
  publish tunnel resource_name hostnames connector_ready = do
    binding ← current
    let cname = tunnel.id ++ (bytes "." ++ tunnel_cname_zone)
    let enabled = binding_dns_automation_enabled binding
    reporting "DNSAutomationReady" "DNSReconciliationFailed"
        "DNS automation reconciliation could not complete"
        (reconcile_dns_endpoint p resource_name hostnames cname enabled)
        λ automated. do
          set_ready_status p (record {
            tunnel = tunnel;
            cname = cname;
            resource_name = resource_name;
            hostnames = hostnames;
            connector_ready = connector_ready;
            dns_automation_enabled = enabled;
            dns_automated = automated;
          })
          pure (record { requeue_after = 120; error = none })

  -- From the connector's token on.
  unfoldable pub connect : Client → Tunnel → List Text → M Binding Outcome
  connect client tunnel hostnames = do
    binding ← current
    let name = connector_resource_name binding.uid
    connector_step
        (wrapping "retrieve Cloudflare Tunnel token: %w" (perform p (get_token client tunnel.id)))
        λ token. connector_step (reconcile_connector_secret p r name token) λ _.
          connector_step (reconcile_connector_deployment p r name) λ deployment.
            publish tunnel name hostnames (
              lebℤ (effective_replicas binding.spec.connector_replicas)
                deployment.available_replicas)

  -- The tunnel's configuration, written if it is another one.
  unfoldable pub configure : Client → Tunnel → List Text → Text → M Binding Outcome
  configure client tunnel hostnames origin =
      tunnel_step
        (wrapping "get Cloudflare Tunnel configuration: %w"
          (perform p (get_configuration client tunnel.id)))
        λ rules.
          if equal_ingress rules (ingress_rules hostnames origin)
          then connect client tunnel hostnames
          else tunnel_step
              (wrapping "update Cloudflare Tunnel configuration: %w" (
                perform p (update_configuration client tunnel.id (ingress_rules hostnames origin))))
              (λ _. connect client tunnel hostnames)

  -- From the provider's token on.
  unfoldable pub program : Plan → M Binding Outcome
  program plan = connector_step (read_api_token p r plan.provider) λ token.
      let client : Client = record {
        api_token = token;
        account_id = plan.provider.spec.account_id;
      } in
      tunnel_step
        (wrapping "read cluster identity: %w" (perform p (get_namespace (bytes "kube-system"))))
        λ system. do
          binding ← current
          tunnel_step (ensure_tunnel p client (tunnel_name system.uid binding))
              λ tunnel. configure client tunnel plan.hostnames plan.origin

  abbrev pub with_finalizer : Binding → Binding
  with_finalizer binding = record binding {
    metadata = record binding.metadata {
      finalizers = p.add_finalizer binding.finalizers binding_finalizer;
    };
  }

  unfoldable pub protect : Binding → M Binding Outcome
  protect binding = do
    updated ← attempt (perform p (update_binding (with_finalizer binding)))
    pure (outcome_of 0 updated)

  -- The finalizer comes first, in a run of its own.
  unfoldable pub follow : Plan → M Binding Outcome
  follow plan = do
    binding ← current
    if p.contains_finalizer binding.finalizers binding_finalizer
        then program plan
        else protect binding

  -- A rejected binding loses its hostnames, unless its provider went to another controller.
  unfoldable pub withdraw : Outcome → M Binding Outcome
  withdraw outcome = do
    binding ← current
    if is_class_mismatch (p.find_status_condition binding.status.conditions "Accepted")
          || binding.status.tunnel_id == []
        then pure outcome
        else do
          gone ← attempt (deprogram_tunnel p r)
          pure (record outcome { error = join outcome.error (error_of gone) })

  unfoldable pub report_plan_failure : Err → M Binding Outcome
  report_plan_failure e =
      if is_status_unknown e
      then report_operational_failure p "Ready" "ProviderStatusUnknown"
          (bytes "The referenced ClusterCloudflareProvider status is not currently known") e
      else report_operational_failure p "Programmed" "TunnelReconciliationFailed"
          (bytes "Tunnel reconciliation could not complete") e

  unfoldable pub by_step : Step Plan → M Binding Outcome
  by_step (stop outcome) = withdraw outcome
  by_step (proceed plan) = follow plan

  -- A binding of this controller's class that is not being deleted.
  unfoldable pub reconcile_alive : M Binding Outcome
  reconcile_alive = do
    planned ← attempt (validate_and_plan p r)
    on_result planned report_plan_failure by_step

  unfoldable pub reconcile : NamespacedName → M Binding Outcome
  reconcile key = do
    found ← attempt (perform p (get_binding key))
    on_result found (λ e. pure (record { requeue_after = 0; error = ignore_not_found e }))
        λ binding. do
          assign binding
          if not (owns r binding.spec.controller)
              then pure (record { requeue_after = 0; error = none })
              else if is_deleted binding
              then finalize p r
              else reconcile_alive
