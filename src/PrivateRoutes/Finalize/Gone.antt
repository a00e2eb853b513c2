-- ===== src/PrivateRoutes/Finalize/Gone.antt =====
-- What is gone after each step of the finalization of a private route.
use kflared.Base.{
  ◌≡◌, refl, ap, ◌∙◌, arith, ◌⊎◌, inl, inr, Bool, true, false, not, ◌||◌, none, some, [], Text,
  text_eq, ◌==◌, if◌then◌else◌,
}
use kflared.Errors.{ok, is_not_found}
use kflared.Api.{CloudflareTunnelPrivateRoute, ClusterCloudflareProvider}
use kflared.Cloudflare.{Client, Tunnel}
use kflared.Kube.{ChildKind, NamespacedName}
use kflared.Platform.{
  Platform, pure, fail, perform, get_provider, get_tunnel, delete_tunnel, get_child, delete_child,
}
use kflared.Platform.Gives.{
  Gives, Once, Gives-answer, Gives-bind, Gives-current, Gives-fail, Gives-if, Gives-lift,
  Gives-option, Gives-perform, Gives-pure, Gives-result, Gives-weaken,
}
use kflared.Platform.Leads.{
  Leads, Leads-Gives, Leads-start, Leads-end, Leads-if, Leads-here, Leads-pure, Leads-fail,
  Leads-then,
}
use kflared.Platform.Gone.{IsGone}
use kflared.Settings.{Settings, system_namespace}
use kflared.Connector.{private_resource_name, verify_private_child}
use kflared.PrivateRoutes.Status.Clients.{api-Gives}
use kflared.PrivateRoutes.Status.Patches.{KeepsUid, HasUid, patch_status-Gives}
use kflared.PrivateRoutes.Routes.{forget_route, remove_route}
use kflared.PrivateRoutes.Routes.Gone.{IsRouteGone, delete_route-Gone}
use kflared.PrivateRoutes.Tunnels.{is_tunnel_named}
use kflared.PrivateRoutes.Finalize.{
  retains, delete_private_child, delete_known_tunnel, delete_route_tunnel,
}

abbrev Route : Type 0
Route = CloudflareTunnelPrivateRoute

same_text : (s t : Text) → not (s == t) ≡ false → s ≡ t
same_text s t h = ground arith

-- Where nothing is to be deleted, the policy is to retain it or there is none.
nothing_left : (keeps : Bool) (s : Text) → (keeps || s == []) ≡ true → (keeps ≡ true) ⊎ (s ≡ [])
nothing_left true s h = inl refl
nothing_left false s h = inr (ground arith)

module _ (p : Platform) (r : Settings) (b : Route) where
  abbrev pub Same : Route → Type 0
  Same o = o ≡ b

  -- A client for the account of the object's provider, which is of its controller class.
  pub record IsClient (client : Client) : Type 0 where
    pub provider : ClusterCloudflareProvider
    pub shown : Once p (get_provider b.spec.provider_ref) provider
    pub class : provider.spec.controller ≡ b.spec.controller
    pub account : client.account_id ≡ provider.spec.account_id

  -- The Cloudflare routes of the object are gone from the provider's account.
  abbrev pub IsRouteDone : Type 0
  IsRouteDone =
      ((retains b.spec.deletion_policy ≡ true) ⊎ (b.status.network ≡ []))
      ⊎ ((client : Client) × IsClient client × IsRouteGone p client b)

  -- The recorded tunnel was not there, or was found with the recorded name and deleted.
  abbrev pub IsTunnelGone : Client → Type 0
  IsTunnelGone client =
      Once p (get_tunnel client b.status.tunnel_id) none
      ⊎ ((tunnel : Tunnel) × Once p (get_tunnel client b.status.tunnel_id) (some tunnel)
          × (is_tunnel_named b.status.tunnel_name tunnel ≡ true)
          × Once p (delete_tunnel client tunnel.id) tt)

  abbrev pub IsTunnelDone : Type 0
  IsTunnelDone =
      ((retains b.spec.deletion_policy ≡ true) ⊎ (b.status.tunnel_id ≡ []))
      ⊎ ((client : Client) × IsClient client × IsTunnelGone client)

  is_named : (c : Bool) → not c ≡ false → c ≡ true
  is_named c h = ground arith

  delete_known_tunnel-Gone :
      (client : Client) → Gives Same (delete_known_tunnel p r client) (λ _. IsTunnelGone client)
  unfolding delete_known_tunnel
  delete_known_tunnel-Gone client = Gives-current _ λ o same. rw same (
      Gives-bind _ _ (Gives-perform p (get_tunnel client b.status.tunnel_id)) λ found (h, e).
        Gives-option found (pure tt) _ (λ lost. Gives-pure tt (inl (h, e ∙ ap ok lost)))
          λ tunnel shown.
            Gives-if (not (is_tunnel_named b.status.tunnel_name tunnel)) _
              (perform p (delete_tunnel client tunnel.id)) (λ other. Gives-fail _)
              λ named.
                Gives-weaken _ (Gives-perform p (delete_tunnel client tunnel.id))
                  λ _ deleted. inr (tunnel, (h, e ∙ ap ok shown), is_named _ named, deleted))

  delete_route_tunnel-Gone : Gives Same (delete_route_tunnel p r) (λ _. IsTunnelDone)
  unfolding delete_route_tunnel
  delete_route_tunnel-Gone = Gives-current _ λ o same. rw same (
      Gives-bind _ _ (Gives-perform p (get_provider b.spec.provider_ref)) λ provider shown.
        Gives-if (not (provider.spec.controller == b.spec.controller)) _ _ (λ other. Gives-fail _)
          λ ours. Gives-bind _ _ (api-Gives p r provider) λ client account.
            Gives-weaken _ (delete_known_tunnel-Gone client) λ _ gone.
              let known : IsClient client = record {
                provider = provider;
                shown = shown;
                class = same_text _ _ ours;
                account = account;
              } in
              inr (client, known, gone))

module _ (p : Platform) (server : KeepsUid p) (r : Settings) (b : Route) where
  remove_route-Gone :
      Leads
        (Same p r b)
        (HasUid b.uid)
        (remove_route p r)
        (λ _. (client : Client) × IsClient p r b client × IsRouteGone p client b)
  unfolding remove_route
  remove_route-Gone = Leads-here _ λ o same. rw same (
      Leads-then _ _ (Gives-perform p (get_provider b.spec.provider_ref)) λ provider shown.
        Leads-if (not (provider.spec.controller == b.spec.controller)) _ _ (λ other. Leads-fail _)
          λ ours. Leads-then _ _ (api-Gives p r provider) λ client account.
            Leads-then _ _ (delete_route-Gone p client b) λ _ gone.
              let known : IsClient p r b client = record {
                provider = provider;
                shown = shown;
                class = same_text _ _ ours;
                account = account;
              } in
              Leads-end _
                (Leads-start _ (λ x is_b. ap (λ (y : Route). y.uid) is_b)
                  (Leads-Gives _ (patch_status-Gives p server b.uid forget_route)))
                (λ _ x _ u. ((client, known, gone), u)))

  pub first_step :
      Leads
        (Same p r b)
        (HasUid b.uid)
        (if retains b.spec.deletion_policy || b.status.network == []
          then pure tt
          else remove_route p r)
        (λ _. IsRouteDone p r b)
  first_step =
      Leads-if _ _ _
        (λ skipped.
          Leads-pure tt (λ x is_b. ap (λ (y : Route). y.uid) is_b) (inl (nothing_left _ _ skipped)))
        (λ wanted. Leads-end _ remove_route-Gone (λ _ _ gone u. (inr gone, u)))

  abbrev connector_key : NamespacedName
  connector_key = record { namespace = system_namespace r; name = private_resource_name b.uid }

  pub delete_private_child-Gone :
      (kind : ChildKind)
      → Gives (HasUid b.uid) (delete_private_child p r kind) (λ _. IsGone p kind connector_key)
  unfolding delete_private_child
  delete_private_child-Gone kind = Gives-current _ λ o u. rw u (
      Gives-bind _ _ (Gives-answer p (get_child kind connector_key)) λ found (h, e).
        Gives-result found _ _
          (λ x failed.
            Gives-if (is_not_found x) (pure tt) (fail x)
              (λ missing. Gives-pure tt (inl (h, x, e ∙ failed, missing))) (λ other. Gives-fail x))
          λ child shown.
            Gives-bind _ _ (Gives-lift (verify_private_child b.uid child) (λ a own. own)) λ a own.
              Gives-bind _ _ (Gives-answer p (delete_child child)) λ gone (h', e').
                Gives-result gone _ _
                  (λ x failed.
                    Gives-if (is_not_found x) (pure tt) (fail x)
                      (λ missing.
                        Gives-pure tt
                          (inr (child, (h, e ∙ shown), inr (h', x, e' ∙ failed, missing))))
                      (λ other. Gives-fail x))
                  (λ v done. Gives-pure v (inr (child, (h, e ∙ shown), inl (h', e' ∙ done)))))

  pub last_step :
      Gives
        (Same p r b)
        (if retains b.spec.deletion_policy || b.status.tunnel_id == []
          then pure tt
          else delete_route_tunnel p r)
        (λ _. IsTunnelDone p r b)
  last_step =
      Gives-if _ _ _ (λ skipped. Gives-pure tt (inl (nothing_left _ _ skipped)))
        (λ wanted. delete_route_tunnel-Gone p r b)
