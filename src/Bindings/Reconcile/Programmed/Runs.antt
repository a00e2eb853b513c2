-- ===== src/Bindings/Reconcile/Programmed/Runs.antt =====
-- The runs that end with a requeue after two minutes, part by part.
use kflared.Base.{refl, ap, inl, inr, Bool, List, ◌++◌, Text, bytes}
use kflared.References.{effective_replicas}
use kflared.Api.{CloudflareTunnelBinding, BindingSpec}
use kflared.Cloudflare.{Client, Tunnel}
use kflared.Planner.Ingress.{ingress_rules, equal_ingress}
use kflared.Platform.{
  Platform, State, Outcome, ◌>>=◌, perform, get_namespace, get_configuration, update_configuration,
  get_token,
}
use kflared.Platform.Chains.{bind-first}
use kflared.Settings.{Settings}
use kflared.PrivateRoutes.Status.{read_api_token}
use kflared.Bindings.Finalize.{wrapping}
use kflared.Bindings.Tunnels.{tunnel_cname_zone}
use kflared.Bindings.Status.{set_ready_status}
use kflared.Connector.{connector_resource_name}
use kflared.Bindings.Endpoints.{reconcile_dns_endpoint}
use kflared.Bindings.Validation.{Plan}
use kflared.Bindings.Reconcile.{
  binding_dns_automation_enabled, publish, connect, configure, program,
}
use kflared.Platform.Requeues.{Publishes, either_if}
use kflared.Bindings.Settled.{
  IsSettled, KeepsSpec, token-Settles, ensure_tunnel-Settles, secret-Settles, deployment-Settles,
  dns_endpoint-Settles,
}
use kflared.Bindings.Reconcile.Programmed.{
  IsConfigured, IsConnected, IsProgrammed, Yielded, reported, answered, called-Settles,
  same_tunnel_name, same_enabled,
}

abbrev Binding : Type 0
Binding = CloudflareTunnelBinding

module _ (p : Platform) where
  module _ (server : KeepsSpec p) (r : Settings) (b : Binding) where
    publish_published :
        (client : Client) (tunnel : Tunnel) (hostnames : List Text) (ready : Bool)
        (s s' : State Binding) (o : Outcome)
        → IsSettled b s.object
        → Publishes (publish p r tunnel (connector_resource_name b.uid) hostnames ready) s o s'
        → (automated : Bool) × Yielded p r b
            (reconcile_dns_endpoint p
              (connector_resource_name b.uid)
              hostnames
              (tunnel.id ++ (bytes "." ++ tunnel_cname_zone))
              (binding_dns_automation_enabled b))
            automated
          × Yielded p r b
              (set_ready_status p (record {
                tunnel = tunnel;
                cname = tunnel.id ++ (bytes "." ++ tunnel_cname_zone);
                resource_name = connector_resource_name b.uid;
                hostnames = hostnames;
                connector_ready = ready;
                dns_automation_enabled = binding_dns_automation_enabled b;
                dns_automated = automated;
              }))
              tt
    unfolding publish ◌>>=◌
    publish_published client tunnel hostnames ready s s' o j e =
        let asks = same_enabled p b s.object j in
        let (automated, named, j₁, e₁) =
          reported p b r _ _ _ _ _ s s' o (dns_endpoint-Settles p server b _ _ _ _) j
            (rw asks at e) in
        let (said, t, status, q) = bind-first (set_ready_status p _) _ _ s' o e₁.0 in
        (automated, (s, j, named), (_, j₁, status))

    connect_published :
        (client : Client) (tunnel : Tunnel) (hostnames : List Text) (s s' : State Binding)
        (o : Outcome)
        → IsSettled b s.object
        → Publishes (connect p r client tunnel hostnames) s o s'
        → IsConnected p r b client tunnel hostnames
    unfolding connect ◌>>=◌
    connect_published client tunnel hostnames s s' o j e =
        let (n, m, u, spec) = j in
        let name = ap connector_resource_name u in
        let asked = ap (λ (x : BindingSpec). effective_replicas x.connector_replicas) spec in
        let (token, got, j₁, e₁) =
          reported p b r _ _ _ _ _ s s' o (called-Settles p b (get_token client tunnel.id) _) j
            (rw (name, asked) at e) in
        let (kept, secret, j₂, e₂) =
          reported p b r _ _ _ _ _ _ s' o (secret-Settles p server b r _ token) j₁ e₁ in
        let (deployment, deployed, j₃, e₃) =
          reported p b r _ _ _ _ _ _ s' o (deployment-Settles p server b r _) j₂ e₂ in
        let (automated, named, said) = publish_published client tunnel hostnames _ _ s' o j₃ e₃ in
        record {
          token = token;
          kept = kept;
          deployment = deployment;
          automated = automated;
          got = (s.log, answered p (get_token client tunnel.id) _ s token got);
          secret = (_, j₁, secret);
          deployed = (_, j₂, deployed);
          named = named;
          said = said;
        }

    configure_published :
        (client : Client) (tunnel : Tunnel) (hostnames : List Text) (origin : Text)
        (s s' : State Binding) (o : Outcome)
        → IsSettled b s.object
        → Publishes (configure p r client tunnel hostnames origin) s o s'
        → IsConfigured p client tunnel (ingress_rules hostnames origin)
          × IsConnected p r b client tunnel hostnames
    unfolding configure
    configure_published client tunnel hostnames origin s s' o j e =
        let (present, got, j₁, e₁) =
          reported p b r _ _ _ _ _ s s' o
            (called-Settles p b (get_configuration client tunnel.id) _) j e in
        elim (either_if (equal_ingress present (ingress_rules hostnames origin)) _ _ _ s' o e₁) [
          | inl (same, e₂) ↦ (
            inl (
              s.log,
              present,
              answered p (get_configuration client tunnel.id) _ s present got,
              same,
            ),
            connect_published _ _ _ _ s' o j₁ e₂,
          )
          | inr (other, e₂) ↦
              let write = update_configuration client tunnel.id (ingress_rules hostnames origin) in
              let (done, written, j₃, e₃) =
                reported p b r _ _ _ _ _ _ s' o (called-Settles p b write _) j₁ e₂ in
              (inr (_, answered p write _ _ done written), connect_published _ _ _ _ s' o j₃ e₃)
        ]

    pub program_published :
        (plan : Plan) (s s' : State Binding) (o : Outcome)
        → IsSettled b s.object
        → Publishes (program p r plan) s o s'
        → IsProgrammed p r b plan
    unfolding program ◌>>=◌
    program_published plan s s' o j e =
        let (token, read, j₁, e₁) =
          reported p b r _ _ _ _ _ s s' o (token-Settles p server b r plan.provider) j e in
        let (system, cluster, j₂, e₂) =
          reported p b r _ _ _ _ _ _ s' o
            (called-Settles p b (get_namespace (bytes "kube-system")) _) j₁ e₁ in
        let asking = perform p (get_namespace (bytes "kube-system")) in
        let u = (read_api_token p r plan.provider s).1 in
        let t : State Binding = (wrapping "read cluster identity: %w" asking u).1 in
        let (tunnel, ensured, j₃, e₃) =
          reported p b r _ _ _ _ _ _ s' o (ensure_tunnel-Settles p server b _ _) j₂
            (rw (same_tunnel_name p b t.object system.uid j₂) at e₂) in
        let (configured, connected) = configure_published _ tunnel _ _ _ s' o j₃ e₃ in
        record {
          client = record { api_token = token; account_id = plan.provider.spec.account_id };
          system = system;
          tunnel = tunnel;
          account = refl;
          token = (s, j, read);
          cluster = (_, answered p (get_namespace (bytes "kube-system")) _ _ system cluster);
          ensured = (_, j₂, ensured);
          configured = configured;
          connected = connected;
        }
