-- ===== src/Providers/Reconcile.antt =====
-- `Reconcile` of the provider reconciler.
use kflared.Base.{Bool, true, false, not, none, some, Text, text_eq, if◌then◌else◌}
use kflared.Errors.{ignore_not_found}
use kflared.Api.{ClusterCloudflareProvider}
use kflared.Platform.{
  on_result, Platform, M, ◌>>=◌, ◌>>◌, pure, attempt, assign, perform, Outcome, outcome_of,
}
use kflared.Platform.{get_provider, update_provider}
use kflared.Settings.{Settings, cluster_provider_finalizer, owns}
use kflared.Providers.Validation.{validate_provider}
use kflared.Providers.Finalize.{finalize}

abbrev Provider : Type 0
Provider = ClusterCloudflareProvider

abbrev pub is_deleted : Provider → Bool
is_deleted provider = elim provider.deletion_timestamp [ none ↦ false | some _ ↦ true ]

module _ (p : Platform) (r : Settings) where
  unfoldable pub with_finalizer : Provider → Provider
  with_finalizer provider = record provider {
    metadata = record provider.metadata {
      finalizers = p.add_finalizer provider.finalizers cluster_provider_finalizer;
    };
  }

  unfoldable pub protect : Provider → M Provider Outcome
  protect provider = do
    updated ← attempt (perform p (update_provider (with_finalizer provider)))
    pure (outcome_of 0 updated)

  unfoldable pub reconcile_owned : Provider → M Provider Outcome
  reconcile_owned provider =
      if is_deleted provider
      then finalize p r
      else if not (p.contains_finalizer provider.finalizers cluster_provider_finalizer)
      then protect provider
      else validate_provider p r

  unfoldable pub reconcile_provider : Text → M Provider Outcome
  reconcile_provider name = do
    found ← attempt (perform p (get_provider name))
    on_result found (λ e. pure (record { requeue_after = 0; error = ignore_not_found e }))
        λ provider. do
          assign provider
          if not (owns r provider.spec.controller)
              then pure (record { requeue_after = 0; error = none })
              else reconcile_owned provider
