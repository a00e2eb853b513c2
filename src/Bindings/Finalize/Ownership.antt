-- ===== src/Bindings/Finalize/Ownership.antt =====
-- Ownership in `finalize`.
use kflared.Base.{
  ◌≡◌, refl, arith, Bool, true, false, not, ◌&&◌, Option, [], String, Text, text_eq, ◌==◌,
}
use kflared.Api.{CloudflareTunnelBinding, ClusterCloudflareProvider}
use kflared.Cloudflare.{Client}
use kflared.Kube.{Child, ChildKind, NamespacedName}
use kflared.Platform.{
  Platform, History, State, M, perform, delete_child, save_child, delete_tunnel, get_child,
}
use kflared.Platform.Keeps.{
  Policy, Obeys, Keeps, Keeps-current, Keeps-bind, Keeps-perform, Keeps-if, Keeps-option,
  Keeps-pure, Keeps-fail, keeps_rules,
}
use kflared.Connector.{label, owner_uid_label}
use kflared.Settings.{Settings}
use kflared.PrivateRoutes.Status.{api, read_api_token}
use kflared.Bindings.Children.{
  delete_owned_child, delete_found_endpoint, delete_known_endpoint, delete_dns_endpoint,
}
use kflared.Bindings.Keeps.{ignoring-Keeps, wrapping-Keeps}
use kflared.Bindings.Finalize.{
  retains, final_provider, event, delete_tunnel_of, finish_tunnel, finalize,
}

abbrev Binding : Type 0
Binding = CloudflareTunnelBinding

-- A child is deleted only if it is labelled with the binding's UID, and a tunnel only if it is the one
-- in the binding's status and the policy is not to retain it. No child is written.
abbrev pub ending : Binding → Policy
ending b (delete_child c) h = label owner_uid_label c.labels == b.uid
ending b (save_child c) h = false
ending b (delete_tunnel _ id) h = id == b.status.tunnel_id && not (retains b.spec.deletion_policy)
ending b _ h = true

own_label :
    (o b : Binding) (c : Child)
    → o ≡ b
    → not (label owner_uid_label c.labels == o.uid) ≡ false
    → (label owner_uid_label c.labels == b.uid) ≡ true
own_label o b c e h = rw (← e) (ground arith)

may_end :
    (o b : Binding)
    → o ≡ b
    → retains b.spec.deletion_policy ≡ false
    → (o.status.tunnel_id == b.status.tunnel_id && not (retains b.spec.deletion_policy)) ≡ true
may_end o b e h = rw h (rw e (ground arith))

not_retained :
    (o b : Binding)
    → o ≡ b
    → (not (retains o.spec.deletion_policy) && not (o.status.tunnel_id == [])) ≡ true
    → retains b.spec.deletion_policy ≡ false
not_retained o b e h = rw (← e) (ground arith)

module _ (p : Platform) (r : Settings) (b : Binding) where
  abbrev Ends : {A : Type 0} → M Binding A → Type 0
  Ends m = Keeps (ending b) (λ o. o ≡ b) m

  always : (h : History) → Path Bool true true
  always h = refl

  api-Ends : (provider : ClusterCloudflareProvider) → Ends (api p r provider)
  unfolding api read_api_token
  api-Ends provider = search (keeps_rules, always)

  delete_child-Ends :
      (c : Child)
      → (label owner_uid_label c.labels == b.uid) ≡ true
      → Ends {A = Unit} (perform p (delete_child c))
  delete_child-Ends c own = Keeps-perform p (delete_child c) (λ h. own)

  delete_owned_child-Ends :
      (kind : ChildKind) (key : NamespacedName) → Ends (delete_owned_child p kind key)
  unfolding delete_owned_child
  delete_owned_child-Ends kind key = Keeps-current _ λ o e.
      Keeps-bind _ _ (Keeps-perform p (get_child kind key) always) λ child.
        Keeps-if _ _ _ (λ foreign. search keeps_rules)
          (λ own. delete_child-Ends child (own_label o b child e own))

  delete_found_endpoint-Ends :
      (name : Text) (child : Child) → Ends (delete_found_endpoint p name child)
  unfolding delete_found_endpoint
  delete_found_endpoint-Ends name child = Keeps-current _ λ o e.
      Keeps-if _ _ _ (λ foreign. search keeps_rules)
        (λ own. ignoring-Keeps _ (delete_child-Ends child (own_label o b child e own)))

  delete_dns_endpoint-Ends : (name : Text) → Ends (delete_dns_endpoint p name)
  unfolding delete_dns_endpoint delete_known_endpoint
  delete_dns_endpoint-Ends name = search (keeps_rules, always, delete_found_endpoint-Ends) depth 12

  final_provider-Ends : Ends (final_provider p r)
  unfolding final_provider
  final_provider-Ends = search (keeps_rules, always) depth 12

  event-Ends : (reason text : String) → Ends (event p r reason text)
  unfolding event
  event-Ends reason text = search (keeps_rules, always)

  delete_tunnel-Ends :
      (client : Client) (o : Binding)
      → o ≡ b
      → retains b.spec.deletion_policy ≡ false
      → Ends {A = Unit} (perform p (delete_tunnel client o.status.tunnel_id))
  delete_tunnel-Ends client o e h =
      Keeps-perform p (delete_tunnel client o.status.tunnel_id) (λ _. may_end o b e h)

  delete_tunnel_of-Ends :
      (provider : ClusterCloudflareProvider)
      → retains b.spec.deletion_policy ≡ false
      → Ends (delete_tunnel_of p r provider)
  unfolding delete_tunnel_of
  delete_tunnel_of-Ends provider h = Keeps-current _ λ o e.
      search (keeps_rules, api-Ends, event-Ends, wrapping-Keeps, delete_tunnel-Ends, e, h) depth 12

  finish_tunnel-Ends :
      (provider : Option ClusterCloudflareProvider) → Ends (finish_tunnel p r provider)
  unfolding finish_tunnel
  finish_tunnel-Ends provider = Keeps-current _ λ o e.
      Keeps-if (not (retains o.spec.deletion_policy) && not (o.status.tunnel_id == [])) _ _
        (λ leave.
          Keeps-option provider _ _ (Keeps-fail _)
            (λ q. delete_tunnel_of-Ends q (not_retained o b e leave)))
        (λ keep.
          Keeps-if (retains o.spec.deletion_policy) _ _ (λ h. event-Ends _ _) (λ h. Keeps-pure tt))

  finalize-Ends : Ends (finalize p r)
  unfolding finalize
  finalize-Ends =
      search
        (
          keeps_rules, always, final_provider-Ends, ignoring-Keeps, delete_owned_child-Ends,
          delete_dns_endpoint-Ends, finish_tunnel-Ends, event-Ends,
        )
        depth 20

-- From a history that already obeys the rules of `ending`, the finalization of a binding obeys them: it
-- deletes only children labelled with the binding's UID, deletes a tunnel only if it is the one in
-- the binding's status and the policy is not to retain it, and writes no child.
pub finalize-Obeys :
    (p : Platform) (r : Settings) (s : State Binding)
    → Obeys (ending s.object) s.log
    → Obeys (ending s.object) (finalize p r s).1.log
finalize-Obeys p r s o =
    ((finalize-Ends p r s.object).at s (record { obeys = o; holds = refl })).obeys
