-- ===== src/Bindings/Children/Gone.antt =====
-- What the answers show where a child's deletion succeeds.
use kflared.Base.{
  ◌≡◌, ◌∙◌, arith, ◌⊎◌, inl, inr, Bool, true, not, [], ◌∷◌, Text, text_eq, ◌==◌, if◌then◌else◌,
}
use kflared.Errors.{Err, message, Result, ok, err, is_not_found, is_no_match}
use kflared.Api.{CloudflareTunnelBinding}
use kflared.Kube.{Child, ChildKind, endpoint, NamespacedName}
use kflared.Platform.{
  Platform, History, M, pure, fail, perform, on_result, get_child, delete_child, rest_mapping,
}
use kflared.Platform.Gone.{IsGone}
use kflared.Platform.Gives.{
  Gives, Once, Gives-bind, Gives-current, Gives-fail, Gives-if, Gives-perform, Gives-pure,
  Gives-answer, Gives-result, Gives-weaken,
}
use kflared.Platform.Fails.{
  Fails, Fails-bind, Fails-current, Fails-fail, Fails-if, Fails-perform, Attempted, Gives-attempt,
}
use kflared.Connector.{label, owner_uid_label}
use kflared.Bindings.Children.{
  ignoring_not_found, delete_owned_child, delete_found_endpoint, delete_known_endpoint,
  delete_dns_endpoint,
}

abbrev Binding : Type 0
Binding = CloudflareTunnelBinding

module _ (p : Platform) where
  -- The kind is not known, or the DNSEndpoint is gone.
  abbrev pub IsEndpointGone : NamespacedName → Type 0
  IsEndpointGone key =
      ((h : History) × (x : Err) × (p.answer h rest_mapping ≡ err x) × (is_no_match x ≡ true))
      ⊎ IsGone p endpoint key

module _ {O : Type 0} {J : O → Type 0} {Q : Type 0} {E : Err → Type 0} where
  ignored :
      (r : Result (Unit {0}))
      → Attempted (λ _. Q) E r
      → Gives {O = O} J
          (on_result r (λ e. if is_not_found e then pure tt else fail e) pure)
          (λ _. Q ⊎ ((x : Err) × E x × (is_not_found x ≡ true)))
  unfolding on_result
  ignored (ok u) known = Gives-pure u (inl known)
  ignored (err x) known =
      Gives-if _ _ _ (λ missing. Gives-pure tt (inr (x, known, missing))) (λ other. Gives-fail x)

  pub Gives-ignoring :
      (m : M O (Unit {0}))
      → Gives J m (λ _. Q)
      → Fails J m E
      → Gives J (ignoring_not_found m) (λ _. Q ⊎ ((x : Err) × E x × (is_not_found x ≡ true)))
  unfolding ignoring_not_found
  Gives-ignoring m good bad = Gives-bind _ _ (Gives-attempt m good bad) ignored

module _ (p : Platform) (b : Binding) where
  abbrev Same : Binding → Type 0
  Same o = o ≡ b

  -- Where the error is that something is not found, the child is gone.
  abbrev Explains : ChildKind → NamespacedName → Err → Type 0
  Explains kind key x = is_not_found x ≡ true → IsGone p kind key

  abbrev is_foreign : Binding → Child → Bool
  is_foreign o child = not (label owner_uid_label child.labels == o.uid)

  abbrev refusal : NamespacedName → Err
  refusal key =
      message "refusing to delete child %s/%s not owned by this binding"
        (key.namespace ∷ key.name ∷ [])

  abbrev refuse : NamespacedName → M Binding (Unit {0})
  refuse key = fail (refusal key)

  found-Gone :
      (kind : ChildKind) (key : NamespacedName)
      → Gives Same (delete_owned_child p kind key) (λ _. IsGone p kind key)
  unfolding delete_owned_child
  found-Gone kind key = Gives-current _ λ o same.
      Gives-bind _ _ (Gives-perform p (get_child kind key)) λ child found.
        Gives-if (is_foreign o child) (refuse key) (perform p (delete_child child))
          (λ foreign. Gives-fail _)
          λ own.
            Gives-weaken _ (Gives-perform p (delete_child child))
              λ _ deleted. inr (child, found, inl deleted)

  lost-Gone :
      (kind : ChildKind) (key : NamespacedName)
      → Fails Same (delete_owned_child p kind key) (Explains kind key)
  unfolding delete_owned_child is_not_found
  lost-Gone kind key = Fails-current _ λ o same.
      Fails-bind _ _ (Gives-perform p (get_child kind key))
        (Fails-perform p (get_child kind key) λ h x e missing. inl (h, x, e, missing))
        λ child found.
          Fails-if (is_foreign o child) (refuse key) (perform p (delete_child child))
            (λ foreign. Fails-fail (refusal key) λ missing. absurd (ground arith))
            λ own.
              Fails-perform p (delete_child child)
                λ h x e missing. inr (child, found, inr (h, x, e, missing))

  joined :
      {kind : ChildKind} {key : NamespacedName}
      → IsGone p kind key ⊎ ((x : Err) × Explains kind key x × (is_not_found x ≡ true))
      → IsGone p kind key
  joined (inl gone) = gone
  joined (inr (x, lost, missing)) = lost missing

  pub delete_owned_child-Gone :
      (kind : ChildKind) (key : NamespacedName)
      → Gives Same (ignoring_not_found (delete_owned_child p kind key)) (λ _. IsGone p kind key)
  delete_owned_child-Gone kind key =
      Gives-weaken _ (Gives-ignoring _ (found-Gone kind key) (lost-Gone kind key)) (λ _. joined)

  abbrev endpoint_key : Text → NamespacedName
  endpoint_key name = record { namespace = b.namespace; name = name }

  deleted-Gives :
      (child : Child)
      → Gives {A = Unit {0}} Same
          (perform p (delete_child child))
          (λ _. Once p (delete_child child) tt)
  deleted-Gives child = Gives-weaken _ (Gives-perform p (delete_child child)) (λ _ deleted. deleted)

  undeleted-Fails :
      (child : Child)
      → Fails {A = Unit {0}} Same
          (perform p (delete_child child))
          (λ x. (h : History) × (p.answer h (delete_child child) ≡ err x))
  undeleted-Fails child = Fails-perform p (delete_child child) (λ h x e. (h, e))

  found_endpoint-Gone :
      (name : Text) (child : Child)
      → Once p (get_child endpoint (endpoint_key name)) child
      → Gives Same (delete_found_endpoint p name child) (λ _. IsGone p endpoint (endpoint_key name))
  unfolding delete_found_endpoint
  found_endpoint-Gone name child found = Gives-current _ λ o same.
      Gives-if (is_foreign o child) _ (ignoring_not_found (perform p (delete_child child)))
        (λ foreign. Gives-fail _)
        λ own.
          Gives-weaken _
            (Gives-ignoring (perform p (delete_child child)) (deleted-Gives child)
              (undeleted-Fails child))
            λ _ known. elim known [
              | inl deleted ↦ inr (child, found, inl deleted)
              | inr (x, (h, e), missing) ↦ inr (child, found, inr (h, x, e, missing))
            ]

  pub delete_dns_endpoint-Gone :
      (name : Text)
      → Gives Same (delete_dns_endpoint p name) (λ _. IsEndpointGone p (endpoint_key name))
  unfolding delete_dns_endpoint delete_known_endpoint
  delete_dns_endpoint-Gone name = Gives-bind _ _ (Gives-answer p rest_mapping) λ mapped (h, e).
      Gives-result mapped _ _
        (λ x failed.
          Gives-if (is_no_match x) (pure tt) (fail x)
            (λ unknown. Gives-pure tt (inl (h, x, e ∙ failed, unknown))) (λ other. Gives-fail x))
        λ _ _. Gives-current _ λ o same.
          Gives-bind _ _
            (Gives-answer p (get_child endpoint (record { namespace = o.namespace; name = name })))
            λ found (h', e').
              Gives-result found _ _
                (λ x failed.
                  Gives-if (is_not_found x) (pure tt) (fail x)
                    (λ missing.
                      Gives-pure tt (inr (inl (h', x, (rw same at e') ∙ failed, missing))))
                    (λ other. Gives-fail x))
                λ child shown.
                  Gives-weaken _ (found_endpoint-Gone name child (h', (rw same at e') ∙ shown))
                    (λ _ gone. inr gone)
