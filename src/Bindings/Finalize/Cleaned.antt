-- ===== src/Bindings/Finalize/Cleaned.antt =====
-- What is gone before a finalization of a binding comes to the removal of the finalizer.
use kflared.Base.{
  ◌≡◌, refl, ◌∙◌, arith, ◌⊎◌, inl, inr, true, false, not, ◌&&◌, ◌||◌, Option, none, some, [],
  String, Text, text_eq, ◌==◌, if◌then◌else◌,
}
use kflared.Errors.{wrapped, Result, ok, err, is_not_found}
use kflared.Api.{CloudflareTunnelBinding, ClusterCloudflareProvider}
use kflared.Cloudflare.{Client}
use kflared.Kube.{secret, deployment, NamespacedName}
use kflared.Platform.{
  Platform, Call, State, M, ◌>>=◌, Outcome, pure, fail, perform, on_result, get_provider,
  delete_tunnel, record_event, update_binding,
}
use kflared.Platform.Gives.{
  Gives, Once, Anything, Gives-answer, Gives-bind, Gives-current, Gives-fail, Gives-if,
  Gives-option, Gives-pure, Gives-result, Gives-weaken,
}
use kflared.Platform.Holds.{holds_rules}
use kflared.Platform.Keeps.{Obeys}
use kflared.Platform.Leads.{Leads-Gives}
use kflared.Platform.Ends.{Quiet, Broke, Closed, Ends, Ends-here, Ends-last, Ends-if, Ends-bind}
use kflared.Bindings.Finalize.Quiet.{
  unreleased, final_provider-Quiet, owned_child-Quiet, dns_endpoint-Quiet, finish_tunnel-Quiet,
  manual-Quiet,
}
use kflared.Settings.{Settings, system_namespace, binding_finalizer}
use kflared.Connector.{connector_resource_name}
use kflared.Platform.Gone.{IsGone}
use kflared.PrivateRoutes.Status.Clients.{api-Gives}
use kflared.Bindings.Children.Gone.{
  IsEndpointGone, delete_owned_child-Gone, delete_dns_endpoint-Gone,
}
use kflared.Bindings.Finalize.{
  retains, wrapping, is_manual, event, final_provider, delete_tunnel_of, finish_tunnel, finalize,
}

abbrev Binding : Type 0
Binding = CloudflareTunnelBinding

module _ {O A : Type 0} {J : O → Type 0} {Q : A → Type 0} where
  wrapped_result :
      (text : String) (r : Result A)
      → ((a : A) → r ≡ ok a → Q a)
      → Gives {O = O} J (on_result r (λ e. fail (wrapped text e)) pure) Q
  unfolding on_result
  wrapped_result text (ok a) known = Gives-pure a (known a refl)
  wrapped_result text (err x) known = Gives-fail _

module _ (p : Platform) (r : Settings) (b : Binding) where
  abbrev Same : Binding → Type 0
  Same o = o ≡ b

  -- The provider is the binding's, and of its controller class.
  abbrev pub IsProvider : ClusterCloudflareProvider → Type 0
  IsProvider provider =
      Once p (get_provider b.spec.provider_ref) provider
      × (provider.spec.controller ≡ b.spec.controller)

  -- The recorded tunnel was deleted in the provider's account.
  pub record IsDeleted : Type 0 where
    pub provider : ClusterCloudflareProvider
    pub client : Client
    pub known : IsProvider provider
    pub account : client.account_id ≡ provider.spec.account_id
    pub deleted : Once p (delete_tunnel client b.status.tunnel_id) tt

  -- The policy is to retain the tunnel, or there is none, or it was deleted.
  abbrev pub IsTunnelDone : Type 0
  IsTunnelDone = (retains b.spec.deletion_policy ≡ true) ⊎ (b.status.tunnel_id ≡ []) ⊎ IsDeleted

  abbrev connector_key : NamespacedName
  connector_key = record { namespace = system_namespace r; name = connector_resource_name b.uid }

  pub record IsCleaned : Type 0 where
    pub deployment_gone : IsGone p deployment connector_key
    pub secret_gone : IsGone p secret connector_key
    pub endpoint_gone :
        IsEndpointGone p (record { namespace = b.namespace; name = connector_resource_name b.uid })
    pub tunnel_done : IsTunnelDone

  event-Gives : (reason text : String) → Gives Same (event p r reason text) Anything
  unfolding event
  event-Gives reason text =
      Gives-bind _ _ (Gives-answer p (record_event reason text)) (λ sent _. Gives-pure tt tt)

  same_text : (s t : Text) → not (s == t) ≡ false → s ≡ t
  same_text s t h = ground arith

  abbrev IsFound : Option ClusterCloudflareProvider → Type 0
  IsFound o = (provider : ClusterCloudflareProvider) → o ≡ some provider → IsProvider provider

  none-IsFound : IsFound none
  none-IsFound provider e = absurd (ground arith)

  final_provider-Gives : Gives Same (final_provider p r) IsFound
  unfolding final_provider
  final_provider-Gives = Gives-current _ λ o same.
      Gives-if (o.status.tunnel_id == []) (pure none) _ (λ _. Gives-pure none none-IsFound)
        λ _. Gives-bind _ _ (Gives-answer p (get_provider o.spec.provider_ref)) λ found (h, e).
          Gives-result found _ _
            (λ x failed.
              Gives-if (not (retains o.spec.deletion_policy) || not (is_not_found x)) (fail x)
                (pure none) (λ bad. Gives-fail x) (λ missing. Gives-pure none none-IsFound))
            λ provider shown.
              Gives-if (not (provider.spec.controller == o.spec.controller)) _
                (pure (some provider)) (λ other. Gives-fail _)
                λ ours. Gives-pure (some provider) λ q is_q.
                  let chosen : provider ≡ q = ground arith in
                  rw (← chosen) ((h, (rw same at e) ∙ shown), (rw same at (same_text _ _ ours)))

  wrapped_delete-Gives :
      (text : String) (client : Client) (id : Text)
      → Gives Same
          (wrapping text (perform p (delete_tunnel client id)))
          (λ _. Once p (delete_tunnel client id) tt)
  unfolding wrapping
  wrapped_delete-Gives text client id =
      Gives-bind _ _ (Gives-answer p (delete_tunnel client id))
        λ found (h, e). wrapped_result text found (λ a shown. (h, e ∙ shown))

  delete_tunnel_of-Gives :
      (provider : ClusterCloudflareProvider)
      → IsProvider provider
      → Gives Same (delete_tunnel_of p r provider) (λ _. IsDeleted)
  unfolding delete_tunnel_of
  delete_tunnel_of-Gives provider known = Gives-current _ λ o same.
      Gives-bind _ _ (api-Gives p r provider) λ client account.
        Gives-bind _ _ (wrapped_delete-Gives _ client o.status.tunnel_id) λ _ deleted.
          Gives-weaken _ (event-Gives _ _) λ _ _. record {
            provider = provider;
            client = client;
            known = known;
            account = account;
            deleted = (rw same at deleted);
          }

  nothing_left :
      (o : Binding)
      → o ≡ b
      → (not (retains o.spec.deletion_policy) && not (o.status.tunnel_id == [])) ≡ false
      → retains o.spec.deletion_policy ≡ false
      → b.status.tunnel_id ≡ []
  nothing_left o same e keeps = rw (← same) (ground arith)

  finish_tunnel-Gives :
      (provider : Option ClusterCloudflareProvider)
      → IsFound provider
      → Gives Same (finish_tunnel p r provider) (λ _. IsTunnelDone)
  unfolding finish_tunnel
  finish_tunnel-Gives provider found = Gives-current _ λ o same.
      Gives-if _ _ _
        (λ wanted.
          Gives-option provider _ _ (λ nobody. Gives-fail _)
            (λ q is_q.
              Gives-weaken _ (delete_tunnel_of-Gives q (found q is_q))
                (λ _ deleted. inr (inr deleted))))
        (λ unwanted.
          Gives-if (retains o.spec.deletion_policy) (event p r _ _) (pure tt)
            (λ keeps. Gives-weaken _ (event-Gives _ _) (λ _ _. inl (rw same at keeps)))
            (λ drops. Gives-pure tt (inr (inl (nothing_left o same unwanted drops)))))

  manual-Gives :
      Gives Same
        (if is_manual (p.find_status_condition b.status.conditions "DNSAutomationReady")
          then event p r "ManualDNSRetained"
              "Manual DNS records were not removed and may return Cloudflare error 1016"
          else pure tt)
        Anything
  manual-Gives = search (holds_rules, event-Gives)

  abbrev pub released : Binding
  released = record b {
    metadata = record b.metadata { finalizers = p.remove_finalizer b.finalizers binding_finalizer };
  }

  -- The update of the object without the finalizer, which comes last.
  pub data IsRelease : Call → Type 0 where
    release : IsCleaned → IsRelease (update_binding released)

  -- A part of the finalization, and what it gives for the rest.
  after_part :
      {A : Type 0} {R : A → Type 0} (m : M Binding A) (f : A → M Binding Outcome)
      → Quiet unreleased m
      → Gives Same m R
      → ((a : A) → R a → Ends p unreleased Same IsRelease (f a))
      → Ends p unreleased Same IsRelease (m >>= f)
  after_part m f quiet gives rest = Ends-bind m f quiet (Leads-Gives m gives) rest

  finalize-Ends :
      p.contains_finalizer b.finalizers binding_finalizer ≡ true
      → Ends p unreleased Same IsRelease (finalize p r)
  unfolding finalize
  finalize-Ends present = Ends-here _ λ o same. rw same (
      Ends-if (not (p.contains_finalizer b.finalizers binding_finalizer)) _ _
        (ground (arith, present))
        (after_part _ _ (final_provider-Quiet p r) final_provider-Gives λ provider found.
          after_part _ _ (owned_child-Quiet p _ _) (delete_owned_child-Gone p b deployment _)
            λ _ deployment_gone.
              after_part _ _ (owned_child-Quiet p _ _) (delete_owned_child-Gone p b secret _)
                λ _ secret_gone.
                  after_part _ _ (dns_endpoint-Quiet p _) (delete_dns_endpoint-Gone p b _)
                    λ _ endpoint_gone.
                      after_part _ _ (finish_tunnel-Quiet p r provider)
                        (finish_tunnel-Gives provider found)
                        λ _ tunnel_done. after_part _ _ (manual-Quiet p r _) manual-Gives λ _ _.
                          Ends-last _ (
                            release (record {
                              deployment_gone = deployment_gone;
                              secret_gone = secret_gone;
                              endpoint_gone = endpoint_gone;
                              tunnel_done = tunnel_done;
                            }))))

-- A finalization of a binding that has its finalizer ends in one of two ways. It fails, and no binding
-- object was updated. Or its last call is the update of the object without the finalizer, whose
-- outcome is the run's; no binding object was updated before; and all of the binding's is gone, as the
-- platform's answers show: the Deployment, the Secret and the DNSEndpoint were each not found, or
-- deleted after they were found, or the kind DNSEndpoint is not known; and the policy is to retain the
-- tunnel, or there is none, or the provider, which is of the binding's class, was found and the
-- recorded tunnel was deleted in its account. Since no call follows the update, all of this precedes
-- it.
pub finalize_cleaned :
    (p : Platform) (r : Settings) (s : State Binding)
    → p.contains_finalizer s.object.finalizers binding_finalizer ≡ true
    → Obeys unreleased s.log
    → Broke p unreleased (finalize p r s)
      ⊎ Closed p unreleased (IsRelease p r s.object) (finalize p r s)
finalize_cleaned p r s present quiet = (finalize-Ends p r s.object present).at s quiet refl
