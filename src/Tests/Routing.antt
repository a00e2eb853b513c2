-- ===== src/Tests/Routing.antt =====
-- Runs of the private-route reconciler on a platform on which everything is in place.
use kflared.Base.{◌≡◌, ◌↔◌, refl, none, bytes, text_eq, nat_eq}
use kflared.Base.Int.{int_eq}
use kflared.Errors.{ok}
use kflared.Api.{ClusterCloudflareProvider}
use kflared.Platform.{perform, on_result, on_option, ◌>>=◌}
use kflared.Platform.Gives.{Once}
use kflared.PrivateRoutes.Validation.{
  valid, validate, check_provider, validate_namespace, selects_namespace, validate_target,
  validate_service, check_service, is_cluster_ip, validate_address, private_route_conflicts,
  any_conflict,
}
use kflared.Conditions.{condition_true}
use kflared.Base.Strings.{trim_space}
use kflared.Connector.{label, verify_private_child}
use kflared.References.{private_service_namespace, resolve_service_port}
use kflared.Addresses.{parse_ipv4, is_unspecified, host_prefix}
use kflared.Settings.{system_namespace}
use kflared.PrivateRoutes.Status.{
  private_tunnel_name, api, read_api_token, secret_data, patch_status, status, private_comment,
}
use kflared.PrivateRoutes.Routes.{
  check_known, ensure_route, adopt_or_create, record_network, create_route, note_created,
  private_owned, adopt_first, first_on_network,
}
use kflared.PrivateRoutes.Connectors.{ensure_connector, write_child}
use kflared.PrivateRoutes.Tunnels.{ensure_tunnel, known_tunnel, find_or_create}
use kflared.PrivateRoutes.Validation.Acceptable.{IsAcceptable}
use kflared.PrivateRoutes.Validation.Complete.{validate_iff}
use kflared.PrivateRoutes.Reconcile.{reconcile_owned, by_validation, program, leave_old_network}
use kflared.PrivateRoutes.Reconcile.Published.{IsProgrammed, reconcile_owned_published}
use kflared.Base.{Text}
use kflared.Tests.Data.{settings}
use kflared.Tests.Full.{full, full-KeepsUid, full-IsQuiet, routing, ready_provider}

validate_iff_example :
    ((validate full routing.object routing).0 ≡ ok (valid ready_provider (bytes "10.0.0.1/32")))
    ↔ IsAcceptable full (Once full) routing.object ready_provider (bytes "10.0.0.1/32")
validate_iff_example =
    validate_iff full full-IsQuiet routing.object ready_provider (bytes "10.0.0.1/32") routing

-- The run programs the network, and runs again after two minutes.
routed_run :
    reconcile_owned full settings routing
    ≡ (ok (record { requeue_after = 120; error = none }), (reconcile_owned full settings routing).1)
unfolding reconcile_owned validate check_provider condition_true validate_namespace
    selects_namespace validate_target private_service_namespace validate_service check_service
    is_cluster_ip parse_ipv4 is_unspecified validate_address resolve_service_port host_prefix
    private_route_conflicts any_conflict by_validation program api read_api_token secret_data
    trim_space ensure_tunnel known_tunnel find_or_create patch_status leave_old_network ensure_route
    adopt_or_create record_network create_route note_created private_owned private_comment
    adopt_first first_on_network ensure_connector write_child verify_private_child label status
    perform on_result on_option ◌>>=◌ text_eq nat_eq int_eq system_namespace private_tunnel_name
    check_known
routed_run = refl

reconcile_owned_published_example :
    (provider : ClusterCloudflareProvider) × (network : Text) × IsAcceptable full
      (Once full)
      routing.object
      provider
      network
    × IsProgrammed full settings (bytes "u3") provider network
reconcile_owned_published_example =
    reconcile_owned_published full settings full-KeepsUid routing
      (reconcile_owned full settings routing).1 (record { requeue_after = 120; error = none })
      routed_run refl
