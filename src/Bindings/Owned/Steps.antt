-- ===== src/Bindings/Owned/Steps.antt =====
-- Ownership in the functions that a run is made of.
use kflared.Base.{
  text_eq, ◌==◌, arith, ◌≡◌, ◌∙◌, refl, not, true, Bool, Option, List, [], String, Text,
}
use kflared.Errors.{Err, ok}
use kflared.Api.{CloudflareTunnelBinding, BindingStatus, ClusterCloudflareProvider}
use kflared.Cloudflare.{Client, Tunnel}
use kflared.Platform.{
  Platform, History, State, M, ◌>>=◌, pure, assign, perform, patch_binding, update_configuration,
  get_configuration,
}
use kflared.Platform.Keeps.{
  Policy, Obeys, Inv, Keeps, keeps_rules, Keeps-current, Keeps-bind, Keeps-assign, Keeps-call,
  Keeps-perform, Keeps-attempt, Keeps-result, Keeps-if, Keeps-option, Keeps-pure, Keeps-fail,
}
use kflared.Planner.Ingress.{ingress_rules, equal_ingress}
use kflared.Settings.{Settings}
use kflared.PrivateRoutes.Status.{api, read_api_token}
use kflared.Bindings.Winners.{}
use kflared.Bindings.Children.{reconcile_connector_secret, reconcile_connector_deployment}
use kflared.Bindings.Finalize.{deprogram_found, deprogram_tunnel}
use kflared.Bindings.Tunnels.{with_tunnel, record_tunnel, adopt_or_create, ensure_tunnel}
use kflared.Bindings.Status.{
  patch_status, report_operational_failure, rejected, Programmed, set_ready_status,
}
use kflared.Bindings.Endpoints.{reconcile_dns_endpoint}
use kflared.Bindings.Origin.{reject}
use kflared.Bindings.Validation.{}
use kflared.Bindings.Reconcile.{}
use kflared.Bindings.Keeps.{wrapping-Keeps}
use kflared.Bindings.Owned.{managing, HasUid, KeepsBindingUid}
use kflared.Bindings.Owned.Children.{
  write_child-Owns, write_endpoint-Owns, delete_dns_endpoint-Owns,
}

abbrev Binding : Type 0
Binding = CloudflareTunnelBinding

pub self_text : (s t : Text) → s ≡ t → (s == t) ≡ true
self_text s t e = ground arith

module _ (p : Platform) (server : KeepsBindingUid p) (uid : Text) where
  abbrev Owns : {A : Type 0} → M Binding A → Type 0
  Owns m = Keeps (managing uid) (HasUid uid) m

  pub always : (h : History) → Path Bool true true
  always h = refl

  patched-Inv :
      (base next o : Binding) (h : History) (s : State Binding)
      → HasUid uid next
      → p.answer h (patch_binding base next) ≡ ok o
      → Inv (managing uid) (HasUid uid) s
      → Inv (managing uid) (HasUid uid) (assign o s).1
  unfolding ◌>>=◌
  patched-Inv base next o h s u e i = record {
    obeys = i.obeys;
    holds = server.same h base next e ∙ u;
  }

  -- A patch of the object leaves the server's answer, an object with the same UID.
  patched-Owns :
      (base next : Binding)
      → HasUid uid next
      → Owns (perform p (patch_binding base next) >>= assign)
  patched-Owns base next u =
      Keeps-call p (patch_binding base next) assign (λ h. self_text _ _ u)
        λ h o s e l i. patched-Inv base next o h s u e i

  pub patch_status-Owns : (change : Binding → BindingStatus) → Owns (patch_status p change)
  unfolding patch_status
  patch_status-Owns change = Keeps-current _ λ base u.
      Keeps-bind _ _ (Keeps-assign (record base { status = change base }) u)
        λ _. patched-Owns base (record base { status = change base }) u

  recorded-Inv :
      (t : Tunnel) (base next o : Binding) (h : History) (s : State Binding)
      → HasUid uid next
      → p.answer h (patch_binding base next) ≡ ok o
      → Inv (managing uid) (HasUid uid) s
      → Inv (managing uid) (HasUid uid) ((assign o >>= λ _. pure t) s).1
  unfolding ◌>>=◌
  recorded-Inv t base next o h s u e i = patched-Inv base next o h s u e i

  pub record_tunnel-Owns : (t : Tunnel) → Owns (record_tunnel p t)
  unfolding record_tunnel
  record_tunnel-Owns t = Keeps-current _ λ base u.
      Keeps-bind _ _ (Keeps-assign (with_tunnel t base) u) λ _.
        Keeps-call p (patch_binding base (with_tunnel t base)) _ (λ h. self_text _ _ u)
          λ h o s e l i. recorded-Inv t base (with_tunnel t base) o h s u e i

  pub ruleset owns_rules = (
    keeps_rules, always, patch_status-Owns, record_tunnel-Owns, wrapping-Keeps,
    delete_dns_endpoint-Owns, write_child-Owns, write_endpoint-Owns,
  )

  adopt_or_create-Owns : (client : Client) (name : Text) → Owns (adopt_or_create p client name)
  unfolding adopt_or_create
  adopt_or_create-Owns client name = search owns_rules depth 12

  pub ensure_tunnel-Owns : (client : Client) (name : Text) → Owns (ensure_tunnel p client name)
  unfolding ensure_tunnel
  ensure_tunnel-Owns client name = search (owns_rules, adopt_or_create-Owns) depth 12

  pub report-Owns :
      (condition reason : String) (text : Text) (e : Err)
      → Owns (report_operational_failure p condition reason text e)
  unfolding report_operational_failure
  report-Owns condition reason text e = search owns_rules

  rejected-Owns : (reason : String) (text : Text) (e : Option Err) → Owns (rejected p reason text e)
  unfolding rejected
  rejected-Owns reason text e = search owns_rules

  pub reject-Owns :
      {A : Type 0} (reason : String) (text : Text) (e : Option Err)
      → Owns (reject p {A = A} reason text e)
  unfolding reject
  reject-Owns reason text e = search (owns_rules, rejected-Owns)

  pub set_ready_status-Owns : (x : Programmed) → Owns (set_ready_status p x)
  unfolding set_ready_status
  set_ready_status-Owns x = patch_status-Owns _

  pub reconcile_dns_endpoint-Owns :
      (name : Text) (hostnames : List Text) (target : Text) (enabled : Bool)
      → Owns (reconcile_dns_endpoint p name hostnames target enabled)
  unfolding reconcile_dns_endpoint
  reconcile_dns_endpoint-Owns name hostnames target enabled = search owns_rules depth 15

  pub secret-Owns :
      (r : Settings) (name token : Text) → Owns (reconcile_connector_secret p r name token)
  unfolding reconcile_connector_secret
  secret-Owns r name token = search owns_rules

  pub deployment-Owns :
      (r : Settings) (name : Text) → Owns (reconcile_connector_deployment p r name)
  unfolding reconcile_connector_deployment
  deployment-Owns r name = search owns_rules

  api-Owns : (r : Settings) (provider : ClusterCloudflareProvider) → Owns (api p r provider)
  unfolding api read_api_token
  api-Owns r provider = search owns_rules

  deprogram_found-Owns :
      (r : Settings) (client : Client) (id : Text) → Owns (deprogram_found p r client id)
  unfolding deprogram_found
  deprogram_found-Owns r client id =
      let none_left = update_configuration client id (ingress_rules [] []) in
      let write =
        wrapping-Keeps "deprogram invalid binding tunnel: %w" (perform p none_left)
          (Keeps-perform p none_left always) in
      Keeps-bind _ _ (Keeps-attempt _ (Keeps-perform p (get_configuration client id) always))
        λ present.
          Keeps-result present _ _ (λ e. write)
            λ rules.
              Keeps-if (not (equal_ingress rules (ingress_rules [] []))) _ _ (λ _. write)
                (λ _. Keeps-pure tt)

  pub deprogram-Owns : (r : Settings) → Owns (deprogram_tunnel p r)
  unfolding deprogram_tunnel
  deprogram-Owns r = search (owns_rules, api-Owns, deprogram_found-Owns) depth 20
