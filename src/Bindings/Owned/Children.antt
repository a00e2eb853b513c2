-- ===== src/Bindings/Owned/Children.antt =====
-- The children that a binding's run writes and deletes.
use kflared.Base.{
  ◌≡◌, refl, sym, arith, Bool, true, false, not, ◌⊎◌, inl, inr, List, [], ◌∷◌, map, Text, text_eq,
  ◌==◌,
}
use kflared.Errors.{Result, ok, err}
use kflared.Api.{CloudflareTunnelBinding}
use kflared.Kube.{Child, ChildKind, endpoint, ChildBody, dns_endpoint, NamespacedName}
use kflared.Connector.{label, owner_uid_label, managed_labels, verify_child_ownership}
use kflared.Connector.Laws.{verify_child_ownership_iff}
use kflared.Settings.{Settings}
use kflared.Platform.{
  Platform, event, History, State, M, ◌>>=◌, lift, current, perform, load_child, save_child,
  delete_child,
}
use kflared.Platform.Keeps.{
  Inv, Keeps, Keeps-current, Keeps-perform, Keeps-call, Keeps-if, keeps_rules,
}
use kflared.Bindings.Children.{
  delete_found_endpoint, delete_known_endpoint, delete_dns_endpoint, write_child,
}
use kflared.Bindings.Endpoints.{endpoint_of, save_endpoint, write_endpoint}
use kflared.Bindings.Keeps.{ignoring-Keeps}
use kflared.Bindings.Owned.{is_own, is_same, loaded, managing, HasUid}

abbrev Binding : Type 0
Binding = CloudflareTunnelBinding

own_child :
    (uid : Text) (c : Child)
    → ((label owner_uid_label c.labels ≡ uid)
        ⊎ ((label owner_uid_label c.labels ≡ []) × (c.uid ≡ [])))
    → is_own uid c ≡ true
own_child uid c (inl e) = ground arith
own_child uid c (inr (e, f)) = ground arith

checked-own :
    (uid : Text) (c : Child) (u : Unit {0})
    → verify_child_ownership uid c ≡ ok u
    → is_own uid c ≡ true
checked-own uid c tt h = own_child uid c ((verify_child_ownership_iff uid c).0 h)

self_text : (s : Text) → (s == s) ≡ true
self_text s = ground arith

label-managed_labels : (uid : Text) → label owner_uid_label (managed_labels uid) ≡ uid
unfolding label
label-managed_labels uid = refl

loaded_now :
    (uid : Text) (d c : Child) (k : ChildKind) (n : NamespacedName) (h : History)
    → is_same d c ≡ true
    → is_own uid d ≡ true
    → loaded uid c (event (load_child k n) (ok d) ∷ h) ≡ true
loaded_now uid d c k n h e o = rw e (rw o refl)

abbrev written : Text → Child → ChildBody → Child
written uid child body = record child { labels = managed_labels uid; body = body }

save-allowed :
    (uid : Text) (child : Child) (body : ChildBody) (k : ChildKind) (n : NamespacedName)
    (h log : History)
    → is_own uid child ≡ true
    → log ≡ event (load_child k n) (ok child) ∷ h
    → managing uid (save_child (written uid child body)) log ≡ true
save-allowed uid child body k n h log own l = rw (label-managed_labels uid) (
    rw (self_text uid) (
      rw l (
        loaded_now uid child (written uid child body) k n h
          (rw (self_text child.namespace) (rw (self_text child.name) (self_text child.uid))) own)))

module _ (p : Platform) (uid : Text) where
  abbrev Owns : {A : Type 0} → M Binding A → Type 0
  Owns m = Keeps (managing uid) (HasUid uid) m

  -- A check that fails ends the run, and one that passes shows whose the child is.
  checked-Inv :
      {A : Type 0} (o : Binding) (child : Child) (checked : Result (Unit {0})) (m : M Binding A)
      (s : State Binding)
      → HasUid uid o
      → checked ≡ verify_child_ownership o.uid child
      → (is_own uid child ≡ true → Inv (managing uid) (HasUid uid) (m s).1)
      → Inv (managing uid) (HasUid uid) s
      → Inv (managing uid) (HasUid uid) ((lift checked >>= λ _. m) s).1
  unfolding ◌>>=◌
  checked-Inv o child (err e) m s same is k i = i
  checked-Inv o child (ok u) m s same is k i = k (checked-own uid child u (rw (← same) (sym is)))

  -- A child that was just loaded, and is the binding's or new, may be written.
  save-Inv :
      (o : Binding) (child : Child) (body : ChildBody) (k : ChildKind) (n : NamespacedName)
      (h : History) (s : State Binding)
      → HasUid uid o
      → s.log ≡ event (load_child k n) (ok child) ∷ h
      → Inv (managing uid) (HasUid uid) s
      → is_own uid child ≡ true
      → Inv (managing uid) (HasUid uid) (perform p (save_child (written o.uid child body)) s).1
  unfolding perform
  save-Inv o child body k n h s same l i own = record {
    obeys = (rw same (save-allowed uid child body k n h s.log own l), i.obeys);
    holds = i.holds;
  }

  pub write_child-Owns :
      (r : Settings) (kind : ChildKind) (name : Text) (body : ChildBody)
      → Owns (write_child p r kind name body)
  unfolding write_child
  write_child-Owns r kind name body = Keeps-current _ λ o same.
      Keeps-call p (load_child kind _) _ (λ h. refl)
        λ h child s e l i.
          checked-Inv o child (verify_child_ownership o.uid child) _ s same refl
            (save-Inv o child body kind _ h s same l i) i

  -- The owner reference of a DNSEndpoint may fail, and is written with it otherwise.
  save_owned-Inv :
      (o : Binding) (child : Child) (body : Text → ChildBody) (k : ChildKind) (n : NamespacedName)
      (h : History) (owner : Result Text) (s : State Binding)
      → HasUid uid o
      → s.log ≡ event (load_child k n) (ok child) ∷ h
      → Inv (managing uid) (HasUid uid) s
      → is_own uid child ≡ true
      → Inv
          (managing uid)
          (HasUid uid)
          ((lift owner >>= λ t. perform p (save_child (written o.uid child (body t)))) s).1
  unfolding ◌>>=◌
  save_owned-Inv o child body k n h (err e) s same l i own = i
  save_owned-Inv o child body k n h (ok t) s same l i own =
      save-Inv o child (body t) k n h s same l i own

  current-Inv :
      {A : Type 0} (f : Binding → M Binding A) (s : State Binding)
      → Inv (managing uid) (HasUid uid) (f s.object s).1
      → Inv (managing uid) (HasUid uid) ((current >>= f) s).1
  unfolding ◌>>=◌
  current-Inv f s i = i

  save_endpoint-Inv :
      (hostnames : List Text) (target : Text) (child : Child) (k : ChildKind) (n : NamespacedName)
      (h : History) (s : State Binding)
      → s.log ≡ event (load_child k n) (ok child) ∷ h
      → Inv (managing uid) (HasUid uid) s
      → Inv (managing uid) (HasUid uid) (save_endpoint p hostnames target child s).1
  unfolding save_endpoint
  save_endpoint-Inv hostnames target child k n h s l i = current-Inv _ s (
      checked-Inv s.object child (verify_child_ownership s.object.uid child) _ s i.holds refl
        (save_owned-Inv s.object child (dns_endpoint (map (endpoint_of target) hostnames)) k n h
          (p.controller_reference s.object (record child { labels = managed_labels s.object.uid }))
          s i.holds l i)
        i)

  pub write_endpoint-Owns :
      (name : Text) (hostnames : List Text) (target : Text)
      → Owns (write_endpoint p name hostnames target)
  unfolding write_endpoint
  write_endpoint-Owns name hostnames target = Keeps-current _ λ o same.
      Keeps-call p (load_child endpoint _) _ (λ h. refl)
        λ h child s e l i. save_endpoint-Inv hostnames target child endpoint _ h s l i

  own_label :
      (o : Binding) (c : Child)
      → HasUid uid o
      → not (label owner_uid_label c.labels == o.uid) ≡ false
      → (label owner_uid_label c.labels == uid) ≡ true
  own_label o c same h = rw (← same) (ground arith)

  delete_found_endpoint-Owns :
      (name : Text) (child : Child) → Owns (delete_found_endpoint p name child)
  unfolding delete_found_endpoint
  delete_found_endpoint-Owns name child = Keeps-current _ λ o same.
      Keeps-if _ _ _ (λ foreign. search keeps_rules)
        λ own.
          ignoring-Keeps _ (Keeps-perform p (delete_child child) (λ h. own_label o child same own))

  always : (h : History) → Path Bool true true
  always h = refl

  pub delete_dns_endpoint-Owns : (name : Text) → Owns (delete_dns_endpoint p name)
  unfolding delete_dns_endpoint delete_known_endpoint
  delete_dns_endpoint-Owns name = search (keeps_rules, always, delete_found_endpoint-Owns) depth 12
