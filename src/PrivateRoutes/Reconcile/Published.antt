-- ===== src/PrivateRoutes/Reconcile/Published.antt =====
-- Runs of the private-route reconciler that end as published, which is with a requeue after two
-- minutes.
use kflared.Base.{◌≡◌, refl, arith, inl, inr, true, not, [], String, Text, bytes, text_eq, ◌==◌}
use kflared.Base.Strings.{trim_space}
use kflared.Base.Int.{ℤ}
use kflared.Errors.{ok}
use kflared.Api.{CloudflareTunnelPrivateRoute, ClusterCloudflareProvider}
use kflared.Cloudflare.{Client, Tunnel, config_source_cloudflare}
use kflared.Kube.{Namespace, Child, Secret}
use kflared.Platform.{
  Platform, State, Outcome, outcome_of, ◌>>=◌, attempt, perform, pure, fail, get_namespace,
  get_secret, get_token, update_route,
}
use kflared.Platform.Chains.{bind-next, if-first}
use kflared.Platform.Gives.{
  Gives, Once, Gives-bind, Gives-current, Gives-fail, Gives-if, Gives-perform, Gives-pure,
}
use kflared.Platform.Requeues.{Requeues, requeue_rules, Publishes}
use kflared.Settings.{Settings, system_namespace, private_finalizer}
use kflared.PrivateRoutes.Validation.{Validation, rejected, valid, is_deleted, validate}
use kflared.PrivateRoutes.Validation.Acceptable.{IsAcceptable}
use kflared.PrivateRoutes.Validation.Accepted.{validate_accepted}
use kflared.PrivateRoutes.Status.{
  private_tunnel_name, route_status, status, secret_data, api, read_api_token,
}
use kflared.PrivateRoutes.Status.Patches.{KeepsUid, HasUid, IsPatched, patch_status-Patched}
use kflared.PrivateRoutes.Routes.Routed.{IsRouted, ensure_route-Routes}
use kflared.PrivateRoutes.Tunnels.{ensure_tunnel}
use kflared.PrivateRoutes.Tunnels.Identity.{ensure_tunnel_identity}
use kflared.PrivateRoutes.Connectors.{is_connector_ready}
use kflared.PrivateRoutes.Connectors.Written.{IsConnected, ensure_connector-Gives}
use kflared.PrivateRoutes.Finalize.{finalize}
use kflared.PrivateRoutes.Reconcile.{program, withdraw, by_validation, reconcile_owned}
use kflared.PrivateRoutes.Reconcile.Uid.{
  ensure_tunnel-Stays, leave_old_network-Stays, validate-Stays,
}

abbrev Route : Type 0
Route = CloudflareTunnelPrivateRoute

module _ (p : Platform) (r : Settings) where
  -- The token is that of the provider's Secret.
  abbrev pub IsToken : ClusterCloudflareProvider → Text → Type 0
  IsToken provider token =
      (held : Secret) × Once p
        (get_secret (record { namespace = system_namespace r; name = provider.spec.secret_name }))
        held
      × (token ≡ trim_space (secret_data provider.spec.secret_key held.entries))

  -- What was programmed for the object with the UID.
  pub record IsProgrammed (uid : Text) (provider : ClusterCloudflareProvider) (network : Text)
      : Type 0 where
    pub client : Client
    pub system : Namespace
    pub tunnel : Tunnel
    pub token : Text
    pub connector : Child
    pub replicas : ℤ
    pub credentials : IsToken provider client.api_token
    pub account : client.account_id ≡ provider.spec.account_id
    pub cluster : Once p (get_namespace (bytes "kube-system")) system
    pub named : tunnel.name ≡ private_tunnel_name p system.uid uid
    pub managed : tunnel.config_source ≡ config_source_cloudflare
    pub routed : IsRouted p client tunnel network uid
    pub given : Once p (get_token client tunnel.id) token
    pub connected : IsConnected p r uid token connector
    pub said :
        IsPatched p uid (route_status p true "Accepted" (is_connector_ready connector replicas))

  module _ (server : KeepsUid p) (uid : Text) where
    read_api_token-Gives :
        (provider : ClusterCloudflareProvider)
        → Gives (HasUid uid) (read_api_token p r provider) (IsToken provider)
    unfolding read_api_token
    read_api_token-Gives provider = Gives-bind _ _ (Gives-perform p (get_secret _)) λ held got.
        Gives-if (trim_space (secret_data provider.spec.secret_key held.entries) == []) (fail _) _
          (λ missing. Gives-fail _) (λ given. Gives-pure _ (held, got, refl))

    api-Gives :
        (provider : ClusterCloudflareProvider)
        → Gives (HasUid uid) (api p r provider) (λ client.
          IsToken provider client.api_token × (client.account_id ≡ provider.spec.account_id))
    unfolding api
    api-Gives provider =
        Gives-bind _ _ (read_api_token-Gives provider) (λ token held. Gives-pure _ (held, refl))

    ensure_tunnel-Gives :
        (client : Client) (name : Text)
        → Gives
            (HasUid uid)
            (ensure_tunnel p client name)
            (λ t. (t.name ≡ name) × (t.config_source ≡ config_source_cloudflare))
    ensure_tunnel-Gives client name = record {
      at = λ s s' t j e. (
        ensure_tunnel_identity p name client t s s' e,
        ((ensure_tunnel-Stays p server uid client name).at s s' t j e).1,
      );
    }

    program-Gives :
        (provider : ClusterCloudflareProvider) (network : Text)
        → Gives (HasUid uid) (program p r provider network) (λ _. IsProgrammed uid provider network)
    unfolding program status
    program-Gives provider network =
        Gives-bind _ _ (api-Gives provider) λ client (credentials, account).
          Gives-bind _ _ (Gives-perform p (get_namespace (bytes "kube-system"))) λ system cluster.
            Gives-current _ λ before u.
              Gives-bind _ _ (ensure_tunnel-Gives client _) λ tunnel (named, managed).
                Gives-bind _ _ (leave_old_network-Stays p server uid r client network) λ _ _.
                  Gives-bind _ _ (ensure_route-Routes p server uid client tunnel network)
                    λ _ routed.
                      Gives-bind _ _ (Gives-perform p (get_token client tunnel.id)) λ token given.
                        Gives-bind _ _ (ensure_connector-Gives p r uid server token) λ d connected.
                          Gives-current _ λ route v.
                            Gives-bind _ _ (patch_status-Patched p server uid _) λ _ said.
                              Gives-pure _ (record {
                                client = client;
                                system = system;
                                tunnel = tunnel;
                                token = token;
                                connector = d;
                                replicas = route.spec.connector_replicas;
                                credentials = credentials;
                                account = account;
                                cluster = cluster;
                                named = (rw u at named);
                                managed = managed;
                                routed = routed;
                                given = given;
                                connected = connected;
                                said = said;
                              })

  finalize-Requeues : Requeues 0 (finalize p r)
  unfolding finalize
  finalize-Requeues = search requeue_rules depth 9

  withdraw-Requeues : (reason : String) → Requeues 300 (withdraw p r reason)
  unfolding withdraw
  withdraw-Requeues reason = search requeue_rules depth 9

  protect-Requeues :
      (next : Route)
      → Requeues {O = Route} 0
          (attempt (perform p (update_route next)) >>= λ updated. pure (outcome_of 0 updated))
  protect-Requeues next = search requeue_rules depth 9

  went_on :
      (server : KeepsUid p) (v : Validation) (s t s' : State Route) (o : Outcome)
      → validate p s.object s ≡ (ok v, t)
      → Publishes (by_validation p r v) t o s'
      → (provider : ClusterCloudflareProvider) × (network : Text) × IsAcceptable p
          (Once p)
          s.object
          provider
          network
        × IsProgrammed s.object.uid provider network
  unfolding by_validation
  went_on server (rejected reason) s t s' o v (e, d) =
      absurd (ground (arith, (withdraw-Requeues reason).at t s' o e, d))
  went_on server (valid provider network) s t s' o v (e, d) =
      let stays = ((validate-Stays p server s.object.uid s.object).at s t _ refl v).1 in
      (
        provider,
        network,
        validate_accepted p s.object provider network s t v,
        ((program-Gives server s.object.uid provider network).at t s' o stays e).0,
      )

  -- For a server whose status patches keep the UID: where a run for a private route of this controller's
  -- class ends with the requeue of two minutes, there are a provider and a network with which, as the
  -- platform's answers show, the route may be accepted, and which the run programmed. The token is that
  -- of the provider's Secret; the tunnel has the name made of the object's UID and is configured
  -- remotely; Cloudflare showed a route for the network to this tunnel, with the comment of the UID;
  -- the Secret was written with the tunnel's token, and the Deployment with the connector, each found
  -- before to be new or labelled with the UID; and the status was patched to say what these showed.
  pub reconcile_owned_published :
      KeepsUid p
      → (s s' : State Route) (o : Outcome) → reconcile_owned p r s ≡ (ok o, s')
      → o.requeue_after ≡ 120
      → (provider : ClusterCloudflareProvider) × (network : Text) × IsAcceptable p
          (Once p)
          s.object
          provider
          network
        × IsProgrammed s.object.uid provider network
  unfolding reconcile_owned ◌>>=◌
  reconcile_owned_published server s s' o e d = elim (if-first (is_deleted s.object) _ _ s s' o e) [
    | inl (gone, e₁) ↦ absurd (ground (arith, finalize-Requeues.at s s' o e₁, d))
    | inr (alive, e₁) ↦
        elim (if-first (not (p.contains_finalizer s.object.finalizers private_finalizer)) _ _ s s' o
          e₁) [
            | inl (unprotected, e₂) ↦ absurd (ground (arith, (protect-Requeues _).at s s' o e₂, d))
            | inr (protected, e₂) ↦
                let (v, t, checked, e₃) = bind-next (validate p s.object) _ s s' o e₂ in
                went_on server v s t s' o checked (e₃, d)
          ]
  ]
