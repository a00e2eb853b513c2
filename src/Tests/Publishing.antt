-- ===== src/Tests/Publishing.antt =====
-- Runs of the binding reconciler on a platform on which everything is in place.
use kflared.Base.{
  ◌≡◌, refl, Bool, true, false, ◌||◌, [], ◌∷◌, String, bytes, inl, text_eq, nat_eq, str_eq,
  if◌then◌else◌,
}
use kflared.Base.Int.{int_eq}
use kflared.Base.Decimal.{format_int}
use kflared.Errors.{ok}
use kflared.Conditions.{condition_true}
use kflared.Platform.Keeps.{Obeys}
use kflared.Bindings.Status.{Programmed, ready_status, rejected_status, failed_status}
use kflared.Bindings.Status.Ready.{says, ready_status_conditions, failure_conditions}
use kflared.Bindings.Origin.{
  proceed, validate_origin_service, read_class, check_gateway, validate_service, read_service,
  check_service,
}
use kflared.Bindings.Reconcile.{reconcile_alive}
use kflared.Bindings.Owned.{managing}
use kflared.Bindings.Owned.Runs.{reconcile_alive-Obeys}
use kflared.Bindings.Watches.Cover.{watched, validate_origin_service-Obeys}
use kflared.Platform.{perform, on_result, on_option, ◌>>=◌}
use kflared.Planner.Zones.{normalize_zones}
use kflared.Planner.Hostnames.{normalize_hostnames}
use kflared.Settings.{owns}
use kflared.References.{
  valid_http_listener, resolve_service_port, effective_origin_service_namespace,
}
use kflared.References.Routes.{route_targets_binding, route_accepted}
use kflared.PrivateRoutes.Validation.{selects_namespace}
use kflared.Bindings.Winners.{
  is_passed, gateway_winner, first_gateway_winner, accepted_route_hostnames, accepted_hostnames,
  hostname_winner, first_hostname_winner,
}
use kflared.Bindings.Finalize.{wrapping}
use kflared.Bindings.Validation.{
  Plan, validate_and_plan, validate_cluster_provider, check_provider, provider_says,
  check_namespace, check_gateway_winner, plan_routes, plan_hostnames, check_hostname_winner,
}
use kflared.Tests.Data.{tunnel_named, settings, older}
use kflared.Tests.Server.{platform, platform-IsConditionStore}
use kflared.Bindings.Validation.Plans.{IsValid, validate_and_plan_sound}
use kflared.Tests.Full.{full, full-KeepsBindingUid, alive, publishing, ready_provider}

reconcile_alive-Obeys_example :
    Obeys (managing (bytes "u1")) (reconcile_alive full settings publishing).1.log
reconcile_alive-Obeys_example =
    reconcile_alive-Obeys full full-KeepsBindingUid settings publishing tt

validate_origin_service-Obeys_example :
    Obeys (watched full settings [] alive) (validate_origin_service full publishing).1.log
unfolding owns text_eq
validate_origin_service-Obeys_example =
    validate_origin_service-Obeys full settings [] publishing refl
      (record { bindings = alive ∷ []; status = alive.status; answered = refl; listed = inl refl })
      tt

abbrev programmed : Programmed
programmed = record {
  tunnel = tunnel_named (bytes "kflared-x");
  cname = bytes "tunnel.cfargotunnel.com";
  resource_name = bytes "kflared-u1";
  hostnames = bytes "www.example.com" ∷ [];
  connector_ready = true;
  dns_automation_enabled = true;
  dns_automated = false;
}

abbrev told : String → Bool
told = says platform platform-IsConditionStore older (ready_status platform programmed older)

ready_status_conditions_example :
    (told "Accepted" ≡ true)
    × (told "Programmed" ≡ true)
    × (told "ConnectorReady" ≡ true)
    × (told "DNSAutomationReady" ≡ false)
    × (told "Ready" ≡ false)
ready_status_conditions_example =
    ready_status_conditions platform platform-IsConditionStore older programmed

abbrev refused : String → Bool
refused =
    says platform platform-IsConditionStore older
      (rejected_status platform "GatewayConflict" (bytes "taken") older)

failure_conditions_example :
    (refused "Accepted" ≡ false)
    × (refused "Programmed" ≡ false)
    × (refused "DNSAutomationReady" ≡ false)
    × (refused "Ready" ≡ false)
    × (refused "ConnectorReady"
        ≡ says platform platform-IsConditionStore older older.status "ConnectorReady")
    × ((failed type : String)
        → says platform platform-IsConditionStore older
            (failed_status platform failed "GatewayConflict" (bytes "taken") older)
            type
          ≡ (if str_eq failed type || str_eq "Ready" type
              then false
              else says platform platform-IsConditionStore older older.status type))
failure_conditions_example =
    failure_conditions platform platform-IsConditionStore older "GatewayConflict" (bytes "taken")

abbrev plan : Plan
plan = record {
  provider = ready_provider;
  hostnames = bytes "www.example.com" ∷ [];
  origin = bytes "http://web.a.svc.cluster.local:80";
}

planned :
    validate_and_plan full settings publishing
    ≡ (ok (proceed plan), (validate_and_plan full settings publishing).1)
unfolding validate_and_plan validate_cluster_provider check_provider provider_says check_namespace
    check_gateway_winner gateway_winner first_gateway_winner selects_namespace
    validate_origin_service read_class check_gateway validate_service read_service check_service
    condition_true valid_http_listener resolve_service_port effective_origin_service_namespace
    plan_routes accepted_route_hostnames accepted_hostnames route_targets_binding route_accepted
    normalize_zones normalize_hostnames plan_hostnames check_hostname_winner hostname_winner
    first_hostname_winner is_passed wrapping perform on_result on_option ◌>>=◌ text_eq nat_eq int_eq
    format_int
planned = refl

validate_and_plan-proceeds_example : IsValid full settings alive plan
validate_and_plan-proceeds_example =
    validate_and_plan_sound full settings publishing (validate_and_plan full settings publishing).1
      plan planned
