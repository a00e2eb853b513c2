-- ===== src/Providers/Finalize.antt =====
-- `finalize` of the provider reconciler.
pub mod References
use kflared.Base.{
  ℕ, Bool, true, false, not, ◌&&◌, ◌||◌, Option, none, some, List, [], ◌∷◌, Text, text_eq, ◌==◌,
  if◌then◌else◌,
}
use kflared.Errors.{Err, message, Result, ok, err}
use kflared.Api.{ClusterCloudflareProvider, CloudflareTunnelBinding, CloudflareTunnelPrivateRoute}
use kflared.Platform.{
  on_option, Platform, M, ◌>>=◌, ◌>>◌, pure, fail, attempt, current, perform, Outcome, outcome_of,
}
use kflared.Platform.{list_bindings, list_routes, update_provider}
use kflared.Settings.{Settings, cluster_provider_finalizer}

abbrev Provider : Type 0
Provider = ClusterCloudflareProvider

unfoldable pub binding_refers : Settings → Text → CloudflareTunnelBinding → Bool
binding_refers r name b = b.spec.controller == r.controller_class && b.spec.provider_ref == name

unfoldable pub route_refers : Settings → Text → CloudflareTunnelPrivateRoute → Bool
route_refers r name x = x.spec.controller == r.controller_class && x.spec.provider_ref == name

abbrev pub held_by_binding : CloudflareTunnelBinding → Err
held_by_binding b =
    message "provider is still referenced by CloudflareTunnelBinding %s/%s"
      (b.namespace ∷ b.name ∷ [])

abbrev pub held_by_route : CloudflareTunnelPrivateRoute → Err
held_by_route x =
    message "provider is still referenced by CloudflareTunnelPrivateRoute %s/%s"
      (x.namespace ∷ x.name ∷ [])

-- The loops: the error for the first object that refers to the provider.
unfoldable pub first_binding : Settings → Text → List CloudflareTunnelBinding → Option Err
first_binding r name [] = none
first_binding r name (b ∷ bs) =
    if binding_refers r name b then some (held_by_binding b) else first_binding r name bs

unfoldable pub first_route : Settings → Text → List CloudflareTunnelPrivateRoute → Option Err
first_route r name [] = none
first_route r name (x ∷ xs) =
    if route_refers r name x then some (held_by_route x) else first_route r name xs

module _ (p : Platform) (r : Settings) where
  unfoldable pub without_finalizer : Provider → Provider
  without_finalizer provider = record provider {
    metadata = record provider.metadata {
      finalizers = p.remove_finalizer provider.finalizers cluster_provider_finalizer;
    };
  }

  unfoldable pub release : M Provider Outcome
  release = do
    provider ← current
    updated ← attempt (perform p (update_provider (without_finalizer provider)))
    pure (outcome_of 0 updated)

  unfoldable pub check_routes : Provider → M Provider Outcome
  check_routes provider = do
    routes ← perform p list_routes
    on_option (first_route r provider.name routes) release fail

  unfoldable pub finalize : M Provider Outcome
  finalize = do
    provider ← current
    if not (p.contains_finalizer provider.finalizers cluster_provider_finalizer)
        then pure (record { requeue_after = 0; error = none })
        else do
          bindings ← perform p (list_bindings none)
          on_option (first_binding r provider.name bindings) (check_routes provider) fail
