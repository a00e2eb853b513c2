-- ===== src/Bindings/Finalize/Quiet.antt =====
-- What the finalization of a binding does before the removal of the finalizer updates no binding object.
use kflared.Base.{refl, Bool, true, false, Option, Text, String, if◌then◌else◌}
use kflared.Api.{CloudflareTunnelBinding, ClusterCloudflareProvider}
use kflared.Cloudflare.{Client}
use kflared.Kube.{Child, ChildKind, NamespacedName}
use kflared.Platform.{
  Platform, History, M, pure, perform, update_binding, delete_child, delete_tunnel,
}
use kflared.Platform.Keeps.{Policy, keeps_rules, Keeps-perform}
use kflared.Platform.Ends.{Quiet}
use kflared.Settings.{Settings}
use kflared.PrivateRoutes.Status.{read_api_token, api}
use kflared.Bindings.Keeps.{ignoring-Keeps, wrapping-Keeps}
use kflared.Bindings.Children.{
  ignoring_not_found, delete_owned_child, delete_found_endpoint, delete_known_endpoint,
  delete_dns_endpoint,
}
use kflared.Bindings.Finalize.{final_provider, event, delete_tunnel_of, finish_tunnel}

abbrev Binding : Type 0
Binding = CloudflareTunnelBinding

abbrev pub unreleased : Policy
unreleased (update_binding _) h = false
unreleased _ h = true

module _ (p : Platform) where
  abbrev IsQuiet : {A : Type 0} → M Binding A → Type 0
  IsQuiet m = Quiet unreleased m

  always : (h : History) → Path Bool true true
  always h = refl

  child_deletion-Quiet : (c : Child) → IsQuiet {A = Unit} (perform p (delete_child c))
  child_deletion-Quiet c = Keeps-perform p (delete_child c) (λ h. refl)

  tunnel_deletion-Quiet :
      (client : Client) (id : Text) → IsQuiet {A = Unit} (perform p (delete_tunnel client id))
  tunnel_deletion-Quiet client id = Keeps-perform p (delete_tunnel client id) (λ h. refl)

  ruleset quiet_rules = (
    keeps_rules, always, child_deletion-Quiet, tunnel_deletion-Quiet, ignoring-Keeps,
    wrapping-Keeps,
  )

  deletion-Quiet :
      (kind : ChildKind) (key : NamespacedName) → IsQuiet (delete_owned_child p kind key)
  unfolding delete_owned_child
  deletion-Quiet kind key = search quiet_rules depth 12

  pub owned_child-Quiet :
      (kind : ChildKind) (key : NamespacedName)
      → IsQuiet (ignoring_not_found (delete_owned_child p kind key))
  owned_child-Quiet kind key = ignoring-Keeps _ (deletion-Quiet kind key)

  found_endpoint-Quiet :
      (name : Text) (child : Child) → IsQuiet (delete_found_endpoint p name child)
  unfolding delete_found_endpoint
  found_endpoint-Quiet name child = search quiet_rules depth 12

  pub dns_endpoint-Quiet : (name : Text) → IsQuiet (delete_dns_endpoint p name)
  unfolding delete_dns_endpoint delete_known_endpoint
  dns_endpoint-Quiet name = search (quiet_rules, found_endpoint-Quiet) depth 15

  module _ (r : Settings) where
    pub final_provider-Quiet : IsQuiet (final_provider p r)
    unfolding final_provider
    final_provider-Quiet = search quiet_rules depth 15

    event-Quiet : (reason text : String) → IsQuiet (event p r reason text)
    unfolding event
    event-Quiet reason text = search quiet_rules

    api-Quiet : (provider : ClusterCloudflareProvider) → IsQuiet (api p r provider)
    unfolding api read_api_token
    api-Quiet provider = search quiet_rules depth 12

    delete_tunnel_of-Quiet :
        (provider : ClusterCloudflareProvider) → IsQuiet (delete_tunnel_of p r provider)
    unfolding delete_tunnel_of
    delete_tunnel_of-Quiet provider = search (quiet_rules, api-Quiet, event-Quiet) depth 12

    pub finish_tunnel-Quiet :
        (provider : Option ClusterCloudflareProvider) → IsQuiet (finish_tunnel p r provider)
    unfolding finish_tunnel
    finish_tunnel-Quiet provider =
        search (quiet_rules, delete_tunnel_of-Quiet, event-Quiet) depth 12

    pub manual-Quiet :
        (manual : Bool)
        → IsQuiet (
            if manual
            then event p r "ManualDNSRetained"
                "Manual DNS records were not removed and may return Cloudflare error 1016"
            else pure tt)
    manual-Quiet manual = search (quiet_rules, event-Quiet)
