-- ===== src/Bindings/Reconcile/Programmed.antt =====
-- What a run programmed that ends with a requeue after two minutes.
pub mod Runs
use kflared.Base.{◌≡◌, refl, ap, arith, ◌⊎◌, inl, inr, Bool, true, List, ◌++◌, String, Text, bytes}
use kflared.Base.Int.{lebℤ}
use kflared.References.{effective_replicas}
use kflared.Errors.{wrapped, Result, ok, err}
use kflared.Api.{CloudflareTunnelBinding, BindingSpec}
use kflared.Cloudflare.{Client, Tunnel}
use kflared.Planner.Ingress.{IngressRule, ingress_rules, equal_ingress}
use kflared.Kube.{Namespace, Child}
use kflared.Platform.{
  Platform, Call, Reply, History, State, M, Outcome, ◌>>=◌, pure, fail, perform, on_result,
  get_namespace, get_configuration, update_configuration, get_token,
}
use kflared.Platform.Chains.{bind-first}
use kflared.Settings.{Settings}
use kflared.PrivateRoutes.Status.{read_api_token}
use kflared.Bindings.Finalize.{wrapping}
use kflared.Bindings.Tunnels.{tunnel_cname_zone, ensure_tunnel}
use kflared.Bindings.Children.{reconcile_connector_secret, reconcile_connector_deployment}
use kflared.Bindings.Status.{report_operational_failure, set_ready_status}
use kflared.Planner.Names.{tunnel_name}
use kflared.Connector.{connector_resource_name}
use kflared.Bindings.Endpoints.{reconcile_dns_endpoint}
use kflared.Bindings.Validation.{Plan}
use kflared.Bindings.Reconcile.{
  binding_dns_automation_enabled, reporting, publish, connect, configure, program,
}
use kflared.Platform.Requeues.{Publishes, either_if}
use kflared.Platform.Keeps.{Inv, Keeps, Keeps-perform}
use kflared.Bindings.Keeps.{wrapping-Keeps}
use kflared.Bindings.Settled.{
  IsSettled, KeepsSpec, anything, anything-Obeys, token-Settles, ensure_tunnel-Settles,
  secret-Settles, deployment-Settles, dns_endpoint-Settles,
}
use kflared.Bindings.Reconcile.Requeues.{failure-Requeues}

abbrev Binding : Type 0
Binding = CloudflareTunnelBinding

module _ (p : Platform) where
  went_well :
      {A : Type 0} (r : Result A) (c reason : String) (text : Text) (f : A → M Binding Outcome)
      (t s' : State Binding) (o : Outcome)
      → Publishes (on_result r (report_operational_failure p c reason text) f) t o s'
      → (a : A) × (r ≡ ok a) × Publishes (f a) t o s'
  unfolding on_result
  went_well (ok a) c reason text f t s' o (e, d) = (a, refl, (e, d))
  went_well (err x) c reason text f t s' o (e, d) =
      absurd (ground (arith, (failure-Requeues p c reason text x).at t s' o e, d))

  -- A step whose failure is reported, and which leaves the object what it is but for its status.
  pub reported :
      {A : Type 0} (b : Binding) (r : Settings) (c reason text : String) (m : M Binding A)
      (f : A → M Binding Outcome) (s s' : State Binding) (o : Outcome)
      → Keeps anything (IsSettled b) m
      → IsSettled b s.object
      → Publishes (reporting p r c reason text m f) s o s'
      → (a : A) × ((m s).0 ≡ ok a) × IsSettled b (m s).1.object × Publishes (f a) (m s).1 o s'
  unfolding reporting ◌>>=◌
  reported b r c reason text m f s s' o keeps j e =
      let (a, got, e₁) = went_well (m s).0 c reason (bytes text) f (m s).1 s' o e in
      let i : Inv anything (IsSettled b) s = record { obeys = anything-Obeys s.log; holds = j } in
      (a, got, (keeps.at s i).holds, e₁)

  pub called-Settles :
      (b : Binding) (c : Call) (text : String)
      → Keeps anything (IsSettled b) (wrapping text (perform p c))
  called-Settles b c text = wrapping-Keeps text (perform p c) (Keeps-perform p c (λ h. refl))

  wrapped-ok :
      {A : Type 0} (r : Result A) (text : String) (t : State Binding) (a : A)
      → (on_result r (λ e. fail (wrapped text e)) pure t).0 ≡ ok a
      → r ≡ ok a
  unfolding ◌>>=◌ on_result
  wrapped-ok (ok v) text t a e = e
  wrapped-ok (err x) text t a e = absurd (ground arith)

  -- A call whose error is wrapped returned the answer.
  pub answered :
      (c : Call) (text : String) (s : State Binding) (a : Reply c)
      → (wrapping text (perform p c) s).0 ≡ ok a
      → p.answer s.log c ≡ ok a
  unfolding wrapping perform ◌>>=◌
  answered c text s a e = wrapped-ok (p.answer s.log c) text _ a e

  -- Some answer shows the rules of the plan as the tunnel's configuration, or they were written.
  abbrev pub IsConfigured : Client → Tunnel → List IngressRule → Type 0
  IsConfigured client tunnel rules =
      ((h : History) × (present : List IngressRule) × (p.answer h
            (get_configuration client tunnel.id)
          ≡ ok present)
        × (equal_ingress present rules ≡ true))
      ⊎ ((h : History) × (p.answer h (update_configuration client tunnel.id rules) ≡ ok tt))

  module _ (r : Settings) (b : Binding) where
    -- A part of the run returned this, with the binding `b` in memory, but for its status.
    abbrev pub Yielded : {A : Type 0} → M Binding A → A → Type 0
    Yielded m a = (s : State Binding) × IsSettled b s.object × ((m s).0 ≡ ok a)

    -- The children of the binding's connector hold the tunnel's token, and its DNS is reconciled for
    -- the hostnames as the binding asks; at last the status says so.
    pub record IsConnected (client : Client) (tunnel : Tunnel) (hostnames : List Text)
        : Type 0 where
      pub token : Text
      pub kept : Child
      pub deployment : Child
      pub automated : Bool
      pub got : (h : History) × (p.answer h (get_token client tunnel.id) ≡ ok token)
      pub secret :
          Yielded (reconcile_connector_secret p r (connector_resource_name b.uid) token) kept
      pub deployed :
          Yielded (reconcile_connector_deployment p r (connector_resource_name b.uid)) deployment
      pub named :
          Yielded
            (reconcile_dns_endpoint p
              (connector_resource_name b.uid)
              hostnames
              (tunnel.id ++ (bytes "." ++ tunnel_cname_zone))
              (binding_dns_automation_enabled b))
            automated
      pub said :
          Yielded
            (set_ready_status p (record {
              tunnel = tunnel;
              cname = tunnel.id ++ (bytes "." ++ tunnel_cname_zone);
              resource_name = connector_resource_name b.uid;
              hostnames = hostnames;
              connector_ready =
                  lebℤ (effective_replicas b.spec.connector_replicas) deployment.available_replicas;
              dns_automation_enabled = binding_dns_automation_enabled b;
              dns_automated = automated;
            }))
            tt

    pub record IsProgrammed (plan : Plan) : Type 0 where
      pub client : Client
      pub system : Namespace
      pub tunnel : Tunnel
      pub account : client.account_id ≡ plan.provider.spec.account_id
      pub token : Yielded (read_api_token p r plan.provider) client.api_token
      pub cluster : (h : History) × (p.answer h (get_namespace (bytes "kube-system")) ≡ ok system)
      pub ensured : Yielded (ensure_tunnel p client (tunnel_name system.uid b)) tunnel
      pub configured : IsConfigured client tunnel (ingress_rules plan.hostnames plan.origin)
      pub connected : IsConnected client tunnel plan.hostnames

  pub same_tunnel_name :
      (b o : Binding) (cluster : Text)
      → IsSettled b o
      → tunnel_name cluster o ≡ tunnel_name cluster b
  unfolding tunnel_name
  same_tunnel_name b o cluster (n, m, u, s) = rw (n, u, s) refl

  pub same_enabled :
      (b o : Binding)
      → IsSettled b o
      → binding_dns_automation_enabled o ≡ binding_dns_automation_enabled b
  unfolding binding_dns_automation_enabled
  same_enabled b o (n, m, u, s) = rw s refl
