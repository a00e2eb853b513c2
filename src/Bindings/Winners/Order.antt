-- ===== src/Bindings/Winners/Order.antt =====
-- `gatewayWinner` and `hostnameWinner`, by the order of the bindings.
use kflared.Base.{
  ◌≡◌, ◌≢◌, refl, sym, arith, true, false, not, Option, none, some, List, [], ◌∷◌, Text, text_eq,
  ◌==◌, contains, Bool-cases, Option-cases, inl, inr,
}
use kflared.Errors.{ok}
use kflared.Api.{CloudflareTunnelBinding}
use kflared.Settings.{Settings}
use kflared.Platform.{Platform, State, ◌>>=◌, pure, perform, on_option, list_bindings}
use kflared.Platform.Chains.{bind-ok}
use kflared.Planner.Precedence.{binding_precedes, binding_precedes_total, NoSlash}
use kflared.Bindings.Winners.{
  is_deleted, takes_gateway, is_passed, first_taken, first_hostname_winner, hostname_winner,
  other_hostnames,
}

abbrev Binding : Type 0
Binding = CloudflareTunnelBinding

-- Two bindings of this class for one Gateway, neither of them being deleted, with distinct UIDs, and
-- with namespaces and names as Kubernetes admits them.
pub record IsRival (r : Settings) (a b : Binding) : Type 0 where
  pub distinct : a.uid ≢ b.uid
  pub class_left : a.spec.controller ≡ r.controller_class
  pub class_right : b.spec.controller ≡ r.controller_class
  pub alive_left : is_deleted a ≡ false
  pub alive_right : is_deleted b ≡ false
  pub gateway : a.spec.gateway_ref.name ≡ b.spec.gateway_ref.name
  pub plain_left : NoSlash a.namespace × NoSlash a.name
  pub plain_right : NoSlash b.namespace × NoSlash b.name

self_text : (s : Text) → (s == s) ≡ true
self_text s = ground arith

differs : (s t : Text) → s ≢ t → (s == t) ≡ false
differs s t n = ground arith

-- Between rivals the order alone decides.
takes-rival :
    (r : Settings) (a b : Binding)
    → a.uid ≢ b.uid
    → b.spec.controller ≡ r.controller_class
    → is_deleted b ≡ false
    → a.spec.gateway_ref.name ≡ b.spec.gateway_ref.name
    → takes_gateway r a b ≡ binding_precedes b a
unfolding takes_gateway
takes-rival r a b n c d g = rw c (
    rw (self_text r.controller_class) (
      rw d (
        rw (differs b.uid a.uid (λ e. n (sym e)))
          (rw g (rw (self_text b.spec.gateway_ref.name) refl)))))

-- Of two rivals exactly one takes the Gateway from the other.
pub takes_gateway_one :
    (r : Settings) (a b : Binding) → IsRival r a b → takes_gateway r b a ≡ not (takes_gateway r a b)
takes_gateway_one r a b d =
    rw (takes-rival r a b d.distinct d.class_right d.alive_right d.gateway) (
      rw (takes-rival r b a (λ e. d.distinct (sym e)) d.class_left d.alive_left (sym d.gateway)) (
        binding_precedes_total b a d.plain_right.0 d.plain_left.0 d.plain_right.1 d.plain_left.1
          (λ e. d.distinct (sym e))))

first_taken-some :
    (hostnames others : List Text) (hostname : Text)
    → first_taken hostnames others ≡ some hostname
    → (contains hostname hostnames ≡ true) × (contains hostname others ≡ true)
unfolding first_taken
first_taken-some [] others hostname e = absurd (ground arith)
first_taken-some (h ∷ hostnames) others hostname e = elim (Bool-cases (contains h others)) [
  | inl yes' ↦ (ground arith, ground arith)
  | inr no' ↦
      let (a, b) = first_taken-some hostnames others hostname (rw no' at e) in (ground arith, b)
]

not_passed :
    (binding other : Binding)
    → is_passed binding other ≡ false
    → (is_deleted other ≡ false) × (binding_precedes other binding ≡ true)
unfolding is_passed
not_passed binding other h = ground arith

-- What an answer of the search says: the hostname is one of those asked for, and the winner is not
-- being deleted and goes first.
abbrev pub IsWinner : Binding → List Text → Binding → Text → Type 0
IsWinner binding hostnames winner hostname =
    (contains hostname hostnames ≡ true)
    × (is_deleted winner ≡ false)
    × (binding_precedes winner binding ≡ true)

same_answer :
    {O : Type 0} (o w : Binding) (h n : Text) (s s' : State O)
    → pure {A = Option (Binding × Text)} (some (o, h)) s ≡ (ok (some (w, n)), s')
    → (o ≡ w) × (h ≡ n)
unfolding ◌>>=◌
same_answer o w h n s s' e = ground arith

module _ (p : Platform) {O : Type 0} (binding : Binding) (hostnames : List Text) where
  first_hostname_winner_sound :
      (others : List Binding) (winner : Binding) (hostname : Text) (s s' : State O)
      → first_hostname_winner p binding hostnames others s ≡ (ok (some (winner, hostname)), s')
      → IsWinner binding hostnames winner hostname
  unfolding first_hostname_winner ◌>>=◌ on_option
  first_hostname_winner_sound [] winner hostname s s' e = absurd (ground arith)
  first_hostname_winner_sound (other ∷ others) winner hostname s s' e =
      elim (Bool-cases (is_passed binding other)) [
        | inl yes' ↦ first_hostname_winner_sound others winner hostname s s' (rw yes' at e)
        | inr no' ↦
            let (taken, t, q) =
              bind-ok (other_hostnames p other) _ s s' (some (winner, hostname)) (rw no' at e) in
            elim (Option-cases (first_taken hostnames taken)) [
              | inl nothing ↦
                  first_hostname_winner_sound others winner hostname t s' (rw nothing at q)
              | inr (h, found) ↦
                  let (same, text) = same_answer other winner h hostname t s' (rw found at q) in
                  let (alive, first) = not_passed binding other no' in
                  (
                    rw (← text) (first_taken-some hostnames taken h found).0,
                    rw (← same) alive,
                    rw (← same) first,
                  )
            ]
      ]

  -- Where the search ends with a winner, it is a binding that is not being deleted and goes first,
  -- and the hostname is one of those asked for.
  hostname_winner_sound :
      (winner : Binding) (hostname : Text) (s s' : State O)
      → hostname_winner p binding hostnames s ≡ (ok (some (winner, hostname)), s')
      → IsWinner binding hostnames winner hostname
  unfolding hostname_winner
  hostname_winner_sound winner hostname s s' e =
      let (others, t, q) =
        bind-ok (perform p (list_bindings none)) _ s s' (some (winner, hostname)) e in
      first_hostname_winner_sound others winner hostname t s' q
