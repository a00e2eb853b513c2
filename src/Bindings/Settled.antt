-- ===== src/Bindings/Settled.antt =====
-- What the run of a binding keeps of the object in memory: the object that it was given, but for its
-- status.
pub mod Plans
use kflared.Base.{◌≡◌, refl, ◌∙◌, Bool, true, [], ◌∷◌, List, String, Text, Option}
use kflared.Errors.{Err, ok}
use kflared.Api.{CloudflareTunnelBinding, BindingStatus, ClusterCloudflareProvider}
use kflared.Cloudflare.{Client, Tunnel}
use kflared.Kube.{Child, ChildKind, ChildBody}
use kflared.Platform.{
  Platform, event, History, State, M, ◌>>=◌, pure, assign, perform, patch_binding, delete_child,
  save_child,
}
use kflared.Platform.Keeps.{
  Policy, Obeys, Inv, Keeps, keeps_rules, Keeps-current, Keeps-bind, Keeps-assign, Keeps-call,
  Keeps-perform,
}
use kflared.Settings.{Settings}
use kflared.PrivateRoutes.Status.{read_api_token}
use kflared.Bindings.Children.{
  delete_found_endpoint, delete_known_endpoint, delete_dns_endpoint, write_child,
  reconcile_connector_secret, reconcile_connector_deployment,
}
use kflared.Bindings.Tunnels.{with_tunnel, record_tunnel, adopt_or_create, ensure_tunnel}
use kflared.Bindings.Status.{patch_status, rejected}
use kflared.Bindings.Endpoints.{save_endpoint, write_endpoint, reconcile_dns_endpoint}
use kflared.Bindings.Origin.{reject}
use kflared.Bindings.Keeps.{ignoring-Keeps, wrapping-Keeps}

abbrev Binding : Type 0
Binding = CloudflareTunnelBinding

-- `o` is the object `b`, but for its status: it has its name, its UID and its spec.
abbrev pub IsSettled : Binding → Binding → Type 0
IsSettled b o =
    (o.namespace ≡ b.namespace) × (o.name ≡ b.name) × (o.uid ≡ b.uid) × (o.spec ≡ b.spec)

-- The answer to a status patch is the object that was sent, but for its status: the API server writes
-- nothing else, and nobody else changes the spec during the run.
pub record KeepsSpec (p : Platform) : Type 0 where
  pub kept :
      (h : History) (base next : Binding) {o : Binding}
      → p.answer h (patch_binding base next) ≡ ok o
      → IsSettled next o

-- Any call may be made.
abbrev pub anything : Policy
anything c h = true

pub anything-Obeys : (h : History) → Obeys anything h
anything-Obeys [] = tt
anything-Obeys (event c r ∷ h) = (refl, anything-Obeys h)

trans_IsSettled : (b c o : Binding) → IsSettled b c → IsSettled c o → IsSettled b o
trans_IsSettled b c o (n, m, u, s) (n', m', u', s') = (n' ∙ n, m' ∙ m, u' ∙ u, s' ∙ s)

module _ (p : Platform) (server : KeepsSpec p) (b : Binding) where
  abbrev pub Settles : {A : Type 0} → M Binding A → Type 0
  Settles m = Keeps anything (IsSettled b) m

  pub always : (h : History) → Path Bool true true
  always h = refl

  patched-Inv :
      (base next o : Binding) (h : History) (s : State Binding)
      → IsSettled b next
      → p.answer h (patch_binding base next) ≡ ok o
      → Inv anything (IsSettled b) s
      → Inv anything (IsSettled b) (assign o s).1
  unfolding ◌>>=◌
  patched-Inv base next o h s j e i = record {
    obeys = i.obeys;
    holds = trans_IsSettled b next o j (server.kept h base next e);
  }

  pub patch_status-Settles : (change : Binding → BindingStatus) → Settles (patch_status p change)
  unfolding patch_status
  patch_status-Settles change = Keeps-current _ λ base j.
      let next : Binding = record base { status = change base } in
      Keeps-bind _ _ (Keeps-assign next j) λ _.
        Keeps-call p (patch_binding base next) assign always
          λ h o s e l i. patched-Inv base next o h s j e i

  recorded-Inv :
      (t : Tunnel) (base next o : Binding) (h : History) (s : State Binding)
      → IsSettled b next
      → p.answer h (patch_binding base next) ≡ ok o
      → Inv anything (IsSettled b) s
      → Inv anything (IsSettled b) ((assign o >>= λ _. pure t) s).1
  unfolding ◌>>=◌
  recorded-Inv t base next o h s j e i = patched-Inv base next o h s j e i

  pub record_tunnel-Settles : (t : Tunnel) → Settles (record_tunnel p t)
  unfolding record_tunnel
  record_tunnel-Settles t = Keeps-current _ λ base j.
      Keeps-bind _ _ (Keeps-assign (with_tunnel t base) j) λ _.
        Keeps-call p (patch_binding base (with_tunnel t base)) _ always
          λ h o s e l i. recorded-Inv t base (with_tunnel t base) o h s j e i

  pub child_deletion-Settles : (c : Child) → Settles {A = Unit} (perform p (delete_child c))
  child_deletion-Settles c = Keeps-perform p (delete_child c) always

  pub child_save-Settles : (c : Child) → Settles {A = Child} (perform p (save_child c))
  child_save-Settles c = Keeps-perform p (save_child c) always

  pub ruleset settles_rules = (
    keeps_rules, always, patch_status-Settles, record_tunnel-Settles, child_deletion-Settles,
    child_save-Settles, wrapping-Keeps, ignoring-Keeps,
  )

  adopt_or_create-Settles :
      (client : Client) (name : Text) → Settles (adopt_or_create p client name)
  unfolding adopt_or_create
  adopt_or_create-Settles client name = search settles_rules depth 12

  pub ensure_tunnel-Settles :
      (client : Client) (name : Text) → Settles (ensure_tunnel p client name)
  unfolding ensure_tunnel
  ensure_tunnel-Settles client name = search (settles_rules, adopt_or_create-Settles) depth 12

  pub token-Settles :
      (r : Settings) (provider : ClusterCloudflareProvider) → Settles (read_api_token p r provider)
  unfolding read_api_token
  token-Settles r provider = search settles_rules

  write_child-Settles :
      (r : Settings) (kind : ChildKind) (name : Text) (body : ChildBody)
      → Settles (write_child p r kind name body)
  unfolding write_child
  write_child-Settles r kind name body = search settles_rules depth 12

  pub secret-Settles :
      (r : Settings) (name token : Text) → Settles (reconcile_connector_secret p r name token)
  unfolding reconcile_connector_secret
  secret-Settles r name token = write_child-Settles r _ name _

  pub deployment-Settles :
      (r : Settings) (name : Text) → Settles (reconcile_connector_deployment p r name)
  unfolding reconcile_connector_deployment
  deployment-Settles r name = search (settles_rules, write_child-Settles)

  found_endpoint-Settles :
      (name : Text) (child : Child) → Settles (delete_found_endpoint p name child)
  unfolding delete_found_endpoint
  found_endpoint-Settles name child = search settles_rules depth 12

  delete_endpoint-Settles : (name : Text) → Settles (delete_dns_endpoint p name)
  unfolding delete_dns_endpoint delete_known_endpoint
  delete_endpoint-Settles name = search (settles_rules, found_endpoint-Settles) depth 15

  write_endpoint-Settles :
      (name : Text) (hostnames : List Text) (target : Text)
      → Settles (write_endpoint p name hostnames target)
  unfolding write_endpoint save_endpoint
  write_endpoint-Settles name hostnames target = search settles_rules depth 15

  pub dns_endpoint-Settles :
      (name : Text) (hostnames : List Text) (target : Text) (enabled : Bool)
      → Settles (reconcile_dns_endpoint p name hostnames target enabled)
  unfolding reconcile_dns_endpoint
  dns_endpoint-Settles name hostnames target enabled =
      search (settles_rules, delete_endpoint-Settles, write_endpoint-Settles) depth 15

  pub reject-Settles :
      {A : Type 0} (reason : String) (text : Text) (e : Option Err)
      → Settles (reject p {A = A} reason text e)
  unfolding reject rejected
  reject-Settles reason text e = search settles_rules depth 12
