-- ===== src/Bindings/Reconcile/Requeues.antt =====
-- After how long the runs that do not publish run again.
use kflared.Base.{String, Text}
use kflared.Errors.{join, Err}
use kflared.Api.{CloudflareTunnelBinding}
use kflared.Platform.{Platform, Outcome, current, pure, attempt}
use kflared.Platform.Requeues.{Requeues, Requeues-pure, Requeues-if, Requeues-bind, requeue_rules}
use kflared.Settings.{Settings}
use kflared.Bindings.Finalize.{deprogram_tunnel}
use kflared.Bindings.Status.{error_of, report_operational_failure}
use kflared.Bindings.Reconcile.{protect, withdraw, report_plan_failure}

abbrev Binding : Type 0
Binding = CloudflareTunnelBinding

module _ (p : Platform) where
  pub failure-Requeues :
      (c reason : String) (text : Text) (x : Err)
      → Requeues 0 (report_operational_failure p c reason text x)
  unfolding report_operational_failure
  failure-Requeues c reason text x = search requeue_rules

  module _ (r : Settings) where
    pub protect-Requeues : (b : Binding) → Requeues 0 (protect p r b)
    unfolding protect
    protect-Requeues b = search requeue_rules

    pub withdraw-Requeues : (a : Outcome) → Requeues a.requeue_after (withdraw p r a)
    unfolding withdraw
    withdraw-Requeues a = Requeues-bind a.requeue_after current _ λ b.
        Requeues-if a.requeue_after _ (pure a) _ (Requeues-pure a) (
          Requeues-bind a.requeue_after (attempt (deprogram_tunnel p r)) _
            λ gone. Requeues-pure (record a { error = join a.error (error_of gone) }))

    pub plan_failure-Requeues : (x : Err) → Requeues 0 (report_plan_failure p r x)
    unfolding report_plan_failure
    plan_failure-Requeues x = search (requeue_rules, failure-Requeues)
