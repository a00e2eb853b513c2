-- ===== src/Tests/Controllers.antt =====
-- Runs of the controllers.
use kflared.Base.{
  ◌≡◌, ◌⊎◌, inl, refl, Bool, true, not, none, some, List, [], ◌∷◌, String, bytes, text_eq, nat_eq,
}
use kflared.Errors.{ok, err}
use kflared.Api.{CloudflareTunnelBinding, CloudflareTunnelPrivateRoute, ClusterCloudflareProvider}
use kflared.Platform.{
  Platform, event, History, State, outcome_of, Call, list_bindings, list_routes, update_provider,
}
use kflared.Platform.Keeps.{Obeys}
use kflared.Conditions.{condition_true}
use kflared.PrivateRoutes.Status.{route_status}
use kflared.PrivateRoutes.Status.Ready.{route_status_conditions}
use kflared.PrivateRoutes.Owned.{owned_only}
use kflared.PrivateRoutes.Reconcile.{reconcile_owned}
use kflared.PrivateRoutes.Reconcile.Ownership.{reconcile_owned-Obeys}
use kflared.Providers.Finalize.{
  binding_refers, route_refers, finalize, without_finalizer, held_by_binding, held_by_route,
}
use kflared.Providers.Finalize.References.{finalize_releases, finalize_refuses}
use kflared.Providers.Validation.{rejected_or_unavailable}
use kflared.Providers.Validation.Conditions.{stands, judged_conditions}
use kflared.Errors.{status_code, is_credential_rejected}
use kflared.Api.{is_true, unknown}
use kflared.PrivateRoutes.Validation.{conflicts_with, claimed_network}
use kflared.PrivateRoutes.Validation.Conflicts.{IsRival, conflicts_with_one}
use kflared.Platform.{perform, on_option, ◌>>=◌}
use kflared.PrivateRoutes.Status.{patch_status}
use kflared.PrivateRoutes.Tunnels.{ensure_tunnel, known_tunnel, find_or_create}
use kflared.PrivateRoutes.Tunnels.Identity.{ensure_tunnel_identity}
use kflared.Cloudflare.{config_source_cloudflare}
use kflared.PrivateRoutes.Validation.{validate}
use kflared.PrivateRoutes.Watches.Cover.{watched, validate-Obeys}
use kflared.Tests.Data.{
  client, tunnel_named, differ, settings, provider, older, route_one, route_two, route_three,
}
use kflared.Tests.Server.{
  platform, platform_of, platform-IsConditionStore, platform-KeepsUid, platform-KeepsTunnelName,
}

abbrev deleted_route : State CloudflareTunnelPrivateRoute
deleted_route = record { object = route_one; log = [] }

reconcile_owned-Obeys_example :
    Obeys
      (owned_only (bytes "u1") route_one.status.tunnel_name)
      (reconcile_owned platform settings deleted_route).1.log
reconcile_owned-Obeys_example =
    reconcile_owned-Obeys platform platform-KeepsUid platform-KeepsTunnelName settings deleted_route
      tt

abbrev shown : String → Bool
shown type =
    condition_true platform (route_status platform true "Ready" true route_one).conditions 1 type

route_status_conditions_example :
    (shown "Accepted" ≡ true)
    × (shown "Programmed" ≡ true)
    × (shown "ConnectorReady" ≡ true)
    × (shown "Ready" ≡ true)
unfolding nat_eq text_eq route_status
route_status_conditions_example =
    route_status_conditions platform platform-IsConditionStore true "Ready" true route_one

abbrev unwanted : State ClusterCloudflareProvider
unwanted = record { object = provider; log = [] }

abbrev both_listed : List CloudflareTunnelBinding → History
both_listed bs = event list_routes (ok []) ∷ event (list_bindings none) (ok bs) ∷ []

abbrev update : Call
update = update_provider (without_finalizer platform settings provider)

finalize_releases_example : finalize platform settings unwanted ≡ (
  ok (outcome_of 0 (platform.answer (both_listed []) update)),
  record unwanted { log = event update (platform.answer (both_listed []) update) ∷ both_listed [] },
)
finalize_releases_example =
    finalize_releases platform settings unwanted [] [] refl refl refl refl refl

finalize_refuses_example :
    ((b : CloudflareTunnelBinding) × (binding_refers settings (bytes "provider") b ≡ true)
      × (finalize (platform_of (older ∷ []) []) settings unwanted ≡ (
        err (held_by_binding b),
        record unwanted { log = event (list_bindings none) (ok (older ∷ [])) ∷ [] },
      )))
    ⊎ ((x : CloudflareTunnelPrivateRoute) × (route_refers settings (bytes "provider") x ≡ true)
        × (finalize (platform_of (older ∷ []) []) settings unwanted
            ≡ (err (held_by_route x), record unwanted { log = both_listed (older ∷ []) })))
unfolding binding_refers text_eq
finalize_refuses_example =
    finalize_refuses (platform_of (older ∷ []) []) settings unwanted (older ∷ []) [] refl refl refl
      refl

judged_conditions_example :
    (stands platform platform-IsConditionStore provider
        (rejected_or_unavailable (status_code 503))
        "Accepted"
      ≡ some (is_true, 1))
    × (stands platform platform-IsConditionStore provider
          (rejected_or_unavailable (status_code 503))
          "CredentialsValid"
        ≡ some (unknown, 1))
unfolding is_credential_rejected
judged_conditions_example =
    judged_conditions platform platform-IsConditionStore provider
      (rejected_or_unavailable (status_code 503))

rivals : IsRival route_two route_three
unfolding text_eq
rivals = record {
  distinct = differ (bytes "u2") (bytes "u3") refl;
  alive_left = refl;
  alive_right = refl;
  provider = refl;
  controller = refl;
}

conflicts_with_one_example :
    conflicts_with route_three (bytes "b") (bytes "web") (bytes "10.0.0.1/32") route_two
    ≡ not (conflicts_with route_two (bytes "a") (bytes "web") (bytes "10.0.0.1/32") route_three)
unfolding claimed_network text_eq
conflicts_with_one_example =
    conflicts_with_one route_two route_three (bytes "a") (bytes "web") (bytes "b") (bytes "web")
      (bytes "10.0.0.1/32") rivals refl refl

abbrev no_tunnel : State CloudflareTunnelPrivateRoute
no_tunnel = record { object = route_three; log = [] }

ensure_tunnel_identity_example :
    (bytes "kflared-private-x" ≡ bytes "kflared-private-x")
    × (config_source_cloudflare ≡ config_source_cloudflare)
unfolding ensure_tunnel perform patch_status known_tunnel find_or_create on_option ◌>>=◌ text_eq
    nat_eq
ensure_tunnel_identity_example =
    ensure_tunnel_identity platform (bytes "kflared-private-x") client
      (tunnel_named (bytes "kflared-private-x")) no_tunnel
      (ensure_tunnel platform client (bytes "kflared-private-x") no_tunnel).1 refl

abbrev listing : Platform
listing = platform_of [] (route_three ∷ [])

validate-Obeys_example :
    Obeys
      (watched listing settings [] provider route_three)
      (validate listing route_three no_tunnel).1.log
unfolding text_eq
validate-Obeys_example =
    validate-Obeys listing settings [] provider route_three no_tunnel refl
      (record {
        routes = route_three ∷ [];
        status = route_three.status;
        answered = refl;
        listed = inl refl;
      })
      tt
