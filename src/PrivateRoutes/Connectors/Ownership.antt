-- ===== src/PrivateRoutes/Connectors/Ownership.antt =====
-- Ownership of children and tunnels, in `ensureConnector` and `finalize`.
use kflared.Base.{
  ◌≡◌, refl, sym, ◌∙◌, arith, true, false, not, Option, none, some, [], ◌∷◌, Text, text_eq, ◌==◌,
  if◌then◌else◌, Bool-cases, inl, inr, ◌⊎◌,
}
use kflared.Errors.{message, Result, ok, err}
use kflared.Api.{CloudflareTunnelPrivateRoute}
use kflared.Cloudflare.{Client, Tunnel, config_source_cloudflare}
use kflared.Kube.{Child, ChildKind, ChildBody, NamespacedName}
use kflared.Connector.{label, private_uid_label, private_labels, verify_private_child}
use kflared.Connector.Laws.{verify_private_child_iff}
use kflared.Settings.{Settings}
use kflared.Platform.{
  on_option, Platform, event, History, State, M, ◌>>=◌, pure, fail, lift, perform, load_child,
  save_child, delete_child, get_child, get_tunnel, delete_tunnel,
}
use kflared.Platform.Keeps.{
  Policy, Inv, Keeps, Keeps-current, Keeps-bind, Keeps-perform, Keeps-call, Keeps-result,
  Keeps-attempt, keeps_rules,
}
use kflared.PrivateRoutes.Owned.{owned_only, is_own, is_same, loaded, managed}
use kflared.PrivateRoutes.Status.Patches.{HasUid, HasTunnel}
use kflared.PrivateRoutes.Tunnels.{is_tunnel_named}
use kflared.PrivateRoutes.Connectors.{write_child}
use kflared.PrivateRoutes.Finalize.{delete_private_child, delete_known_tunnel}

abbrev Route : Type 0
Route = CloudflareTunnelPrivateRoute

own_child :
    (uid : Text) (c : Child)
    → ((c.uid ≡ []) ⊎ (label private_uid_label c.labels ≡ uid))
    → is_own uid c ≡ true
own_child uid c (inl e) = ground arith
own_child uid c (inr e) = ground arith

checked-own :
    (uid : Text) (c : Child) (u : Unit {0})
    → verify_private_child uid c ≡ ok u
    → is_own uid c ≡ true
checked-own uid c tt h = own_child uid c ((verify_private_child_iff uid c).0 h)

self_text : (s : Text) → (s == s) ≡ true
self_text s = ground arith

-- The label that is written.
label-private_labels : (uid : Text) → label private_uid_label (private_labels uid) ≡ uid
unfolding label
label-private_labels uid = refl

loaded_now :
    (uid : Text) (d c : Child) (k : ChildKind) (n : NamespacedName) (h : History)
    → is_same d c ≡ true
    → is_own uid d ≡ true
    → loaded uid c (event (load_child k n) (ok d) ∷ h) ≡ true
loaded_now uid d c k n h e o = rw e (rw o refl)

managed_now :
    (client : Client) (name id : Text) (t : Tunnel) (h : History)
    → t.name ≡ name
    → t.config_source ≡ config_source_cloudflare
    → managed name t.id (event (get_tunnel client id) (ok (some t)) ∷ h) ≡ true
managed_now client name id t h n e = ground arith

module _ {O A B : Type 0} {J : O → Type 0} {policy : Policy} where
  -- A check that passed is known in the rest of the run.
  Keeps-check :
      (r : Result A) (f : A → M O B)
      → ((a : A) → r ≡ ok a → Keeps policy J (f a))
      → Keeps policy J (lift r >>= f)
  unfolding ◌>>=◌
  Keeps-check (ok a) f k = record { at = λ s i. (k a refl).at s i }
  Keeps-check (err e) f k = record { at = λ s i. i }

module _ (p : Platform) (uid name : Text) (J : Route → Type 0)
    (own : (o : Route) → J o → HasUid uid o) where
  abbrev Owns : {A : Type 0} → M Route A → Type 0
  Owns m = Keeps (owned_only uid name) J m

  delete_child-Owns :
      (c : Child) → is_own uid c ≡ true → Owns {A = Unit} (perform p (delete_child c))
  delete_child-Owns c own = Keeps-perform p (delete_child c) (λ h. own)

  checked_route :
      (route : Route) (c : Child) (u : Unit {0})
      → HasUid uid route
      → verify_private_child route.uid c ≡ ok u
      → is_own uid c ≡ true
  checked_route route c u same h = checked-own uid c u (rw same at h)

  -- Only the owner's children are deleted.
  pub delete_private_child-Keeps :
      (r : Settings) (kind : ChildKind) → Owns (delete_private_child p r kind)
  unfolding delete_private_child
  delete_private_child-Keeps r kind = Keeps-current _ λ route same.
      Keeps-bind _ _ (Keeps-attempt _ (Keeps-perform p (get_child kind _) (λ h. refl))) λ found.
        Keeps-result found _ _ (λ e. search keeps_rules)
          λ child. Keeps-check (verify_private_child route.uid child) _ λ u checked.
            Keeps-bind _ _
              (Keeps-attempt _
                (delete_child-Owns child (checked_route route child u (own route same) checked)))
              λ gone. search keeps_rules

  written : Route → Child → ChildBody → Child
  written route child body = record child { labels = private_labels route.uid; body = body }

  same_object :
      (route : Route) (child : Child) (body : ChildBody)
      → is_same child (written route child body) ≡ true
  unfolding written
  same_object route child body =
      rw (self_text child.namespace) (rw (self_text child.name) (rw (self_text child.uid) refl))

  save-allowed :
      (route : Route) (child : Child) (body : ChildBody) (k : ChildKind) (n : NamespacedName)
      (h log : History)
      → HasUid uid route
      → is_own uid child ≡ true
      → log ≡ event (load_child k n) (ok child) ∷ h
      → owned_only uid name (save_child (written route child body)) log ≡ true
  unfolding written
  save-allowed route child body k n h log same own l = rw (label-private_labels route.uid) (
      rw same (
        rw (self_text uid) (
          rw l (
            loaded_now uid child (written route child body) k n h (same_object route child body)
              own))))

  save_checked-Inv :
      (route : Route) (child : Child) (body : ChildBody) (k : ChildKind) (n : NamespacedName)
      (h : History) (s : State Route) (checked : Result (Unit {0}))
      → HasUid uid route
      → checked ≡ verify_private_child route.uid child
      → s.log ≡ event (load_child k n) (ok child) ∷ h
      → Inv (owned_only uid name) J s
      → Inv
          (owned_only uid name)
          J
          ((lift checked >>= λ _. perform p (save_child (written route child body))) s).1
  unfolding ◌>>=◌ perform written
  save_checked-Inv route child body k n h s (err e) same is l i = i
  save_checked-Inv route child body k n h s (ok u) same is l i = record {
    obeys = (
      save-allowed route child body k n h s.log same (checked_route route child u same (sym is)) l,
      i.obeys,
    );
    holds = i.holds;
  }

  -- Only children that were new or the owner's are written.
  pub write_child-Keeps :
      (r : Settings) (kind : ChildKind) (body : ChildBody) → Owns (write_child p r kind body)
  unfolding write_child written
  write_child-Keeps r kind body = Keeps-current _ λ route same.
      Keeps-call p (load_child kind _) _ (λ h. refl)
        λ h child s e l i.
          save_checked-Inv route child body kind _ h s (verify_private_child route.uid child)
            (own route same) refl l i

named-managed :
    (name : Text) (t : Tunnel)
    → not (is_tunnel_named name t) ≡ false
    → (t.name ≡ name) × (t.config_source ≡ config_source_cloudflare)
named-managed name t h = (ground arith, ground arith)

module _ (p : Platform) (uid name : Text) where
  abbrev Tends : {A : Type 0} → M Route A → Type 0
  Tends m = Keeps (owned_only uid name) (HasTunnel uid name) m

  known_tunnel-Inv :
      (client : Client) (id recorded : Text) (o : Option Tunnel) (h : History) (s : State Route)
      → recorded ≡ name
      → s.log ≡ event (get_tunnel client id) (ok o) ∷ h
      → Inv (owned_only uid name) (HasTunnel uid name) s
      → Inv
          (owned_only uid name)
          (HasTunnel uid name)
          (on_option o
            (pure tt)
            (λ tunnel.
              if not (is_tunnel_named recorded tunnel)
              then fail (message "refusing to delete tunnel with mismatched identity" [])
              else perform p (delete_tunnel client tunnel.id))
            s).1
  unfolding on_option perform ◌>>=◌
  known_tunnel-Inv client id recorded none h s is l i = i
  known_tunnel-Inv client id recorded (some t) h s is l i =
      elim (Bool-cases (not (is_tunnel_named recorded t))) [
        | inl other ↦ rw other i
        | inr same ↦
            let (n, remote) = named-managed recorded t same in
            rw same (record {
              obeys = (rw l (managed_now client name id t h (n ∙ is) remote), i.obeys);
              holds = i.holds;
            })
      ]

  -- Only a tunnel that was shown to be configured remotely, and to have the recorded name, is deleted.
  pub delete_known_tunnel-Keeps :
      (r : Settings) (client : Client) → Tends (delete_known_tunnel p r client)
  unfolding delete_known_tunnel
  delete_known_tunnel-Keeps r client = Keeps-current _ λ route (_, named).
      Keeps-call p (get_tunnel client route.status.tunnel_id) _ (λ h. refl)
        λ h o s e l i.
          known_tunnel-Inv client route.status.tunnel_id route.status.tunnel_name o h s named l i
