-- ===== src/Bindings/Owned/Runs.antt =====
-- Ownership over the run for a binding that is not being deleted.
use kflared.Base.{text_eq, refl, Bool, List, String, Text}
use kflared.Api.{CloudflareTunnelBinding, ClusterCloudflareProvider}
use kflared.Cloudflare.{Client, Tunnel}
use kflared.Platform.{Platform, State, M, Outcome, outcome_of, update_binding}
use kflared.Platform.Keeps.{
  Obeys, Keeps, Keeps-current, Keeps-bind, Keeps-perform, Keeps-attempt, Keeps-result, Keeps-if,
  Keeps-pure,
}
use kflared.Settings.{Settings, binding_finalizer}
use kflared.PrivateRoutes.Status.{read_api_token}
use kflared.Bindings.Winners.{}
use kflared.Bindings.Status.{}
use kflared.Bindings.Origin.{Step, stop, proceed}
use kflared.Bindings.Validation.{Plan}
use kflared.Bindings.Reconcile.{
  reporting, publish, connect, configure, program, with_finalizer, protect, follow, withdraw,
  report_plan_failure, by_step, reconcile_alive,
}
use kflared.Bindings.Owned.{managing, HasUid, KeepsBindingUid}
use kflared.Bindings.Owned.Steps.{
  self_text, owns_rules, deployment-Owns, deprogram-Owns, ensure_tunnel-Owns,
  reconcile_dns_endpoint-Owns, report-Owns, secret-Owns, set_ready_status-Owns,
}
use kflared.Bindings.Owned.Plans.{plan-Owns}

abbrev Binding : Type 0
Binding = CloudflareTunnelBinding

module _ (p : Platform) (server : KeepsBindingUid p) (uid : Text) where
  abbrev Owns : {A : Type 0} → M Binding A → Type 0
  Owns m = Keeps (managing uid) (HasUid uid) m

  reporting-Owns :
      {A : Type 0} (r : Settings) (condition reason text : String) (m : M Binding A)
      (f : A → M Binding Outcome)
      → Owns m
      → ((a : A) → Owns (f a))
      → Owns (reporting p r condition reason text m f)
  unfolding reporting
  reporting-Owns r condition reason text m f km kf =
      Keeps-bind _ _ (Keeps-attempt m km)
        λ x. Keeps-result x _ _ (λ e. report-Owns p server uid condition reason _ e) kf

  ruleset run_rules = (owns_rules, reporting-Owns, report-Owns, set_ready_status-Owns)

  publish-Owns :
      (r : Settings) (t : Tunnel) (name : Text) (hostnames : List Text) (ready : Bool)
      → Owns (publish p r t name hostnames ready)
  unfolding publish
  publish-Owns r t name hostnames ready = search (run_rules, reconcile_dns_endpoint-Owns) depth 12

  connect-Owns :
      (r : Settings) (client : Client) (t : Tunnel) (hostnames : List Text)
      → Owns (connect p r client t hostnames)
  unfolding connect
  connect-Owns r client t hostnames =
      search (run_rules, secret-Owns, deployment-Owns, publish-Owns) depth 15

  configure-Owns :
      (r : Settings) (client : Client) (t : Tunnel) (hostnames : List Text) (origin : Text)
      → Owns (configure p r client t hostnames origin)
  unfolding configure
  configure-Owns r client t hostnames origin = search (run_rules, connect-Owns) depth 15

  token-Owns :
      (r : Settings) (provider : ClusterCloudflareProvider) → Owns (read_api_token p r provider)
  unfolding read_api_token
  token-Owns r provider = search owns_rules

  program-Owns : (r : Settings) (plan : Plan) → Owns (program p r plan)
  unfolding program
  program-Owns r plan = search (run_rules, token-Owns, ensure_tunnel-Owns, configure-Owns) depth 15

  protect-Owns : (r : Settings) (b : Binding) → HasUid uid b → Owns (protect p r b)
  unfolding protect
  protect-Owns r b u =
      Keeps-bind _ _
        (Keeps-attempt _
          (Keeps-perform p (update_binding (with_finalizer p r b)) (λ h. self_text _ _ u)))
        (λ updated. Keeps-pure (outcome_of 0 updated))

  follow-Owns : (r : Settings) (plan : Plan) → Owns (follow p r plan)
  unfolding follow
  follow-Owns r plan = Keeps-current _ λ b u.
      Keeps-if (p.contains_finalizer b.finalizers binding_finalizer) (program p r plan)
        (protect p r b) (λ _. program-Owns r plan) (λ _. protect-Owns r b u)

  withdraw-Owns : (r : Settings) (o : Outcome) → Owns (withdraw p r o)
  unfolding withdraw
  withdraw-Owns r o = search (run_rules, deprogram-Owns) depth 12

  by_step-Owns : (r : Settings) (x : Step Plan) → Owns (by_step p r x)
  unfolding by_step
  by_step-Owns r (stop o) = withdraw-Owns r o
  by_step-Owns r (proceed plan) = follow-Owns r plan

  reconcile_alive-Owns : (r : Settings) → Owns (reconcile_alive p r)
  unfolding reconcile_alive report_plan_failure
  reconcile_alive-Owns r = search (run_rules, plan-Owns, by_step-Owns) depth 12

-- For a server whose status patches keep the UID, and from a history that already obeys them, a
-- run for a binding that is not being deleted obeys the following rules, each with the UID of the
-- object. A child is deleted only if it is labelled with the UID, and written only with that label,
-- where an answer before shows the object so labelled, or new and unlabelled. Only the object with
-- that UID is updated or patched. No tunnel is deleted, no private route of Cloudflare is made or
-- deleted, and no provider or private route object is changed.
pub reconcile_alive-Obeys :
    (p : Platform)
    → KeepsBindingUid p
    → (r : Settings) (s : State Binding) → Obeys (managing s.object.uid) s.log
    → Obeys (managing s.object.uid) (reconcile_alive p r s).1.log
reconcile_alive-Obeys p server r s o =
    ((reconcile_alive-Owns p server s.object.uid r).at s (record { obeys = o; holds = refl })).obeys
