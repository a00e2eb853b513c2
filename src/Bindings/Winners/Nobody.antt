-- ===== src/Bindings/Winners/Nobody.antt =====
-- `gatewayWinner` and `hostnameWinner` where they find nobody.
use kflared.Base.{
  ◌≡◌, ◌↔◌, ◌⊎◌, inl, inr, refl, arith, true, false, none, List, [], ◌∷◌, Text, text_eq, contains,
  All, Bool-cases, Option-cases,
}
use kflared.Errors.{ok}
use kflared.Api.{CloudflareTunnelBinding}
use kflared.Settings.{Settings}
use kflared.Platform.{Platform, History, State, ◌>>=◌, perform, on_option, list_bindings}
use kflared.Platform.Chains.{bind-first}
use kflared.Bindings.Winners.{
  takes_gateway, first_gateway_winner, is_passed, first_taken, first_hostname_winner,
  hostname_winner, other_hostnames,
}

abbrev Binding : Type 0
Binding = CloudflareTunnelBinding

-- A listing shows no winner exactly if none of its bindings takes the Gateway.
pub first_gateway_winner-none :
    (r : Settings) (binding : Binding) (others : List Binding)
    → (first_gateway_winner r binding others ≡ none)
      ↔ All (λ other. takes_gateway r binding other ≡ false) others
unfolding first_gateway_winner
first_gateway_winner-none r binding [] = (λ e. tt, λ a. refl)
first_gateway_winner-none r binding (other ∷ others) =
    let (to, from) = first_gateway_winner-none r binding others in
    elim (Bool-cases (takes_gateway r binding other)) [
      | inl yes' ↦ (λ e. absurd (ground arith), λ a. absurd (ground arith))
      | inr no' ↦ (λ e. (no', to (rw no' at e)), λ a. rw no' (from a.1))
    ]

first_taken-none :
    (hostnames others : List Text)
    → first_taken hostnames others ≡ none
    → All (λ h. contains h others ≡ false) hostnames
unfolding first_taken
first_taken-none [] others e = tt
first_taken-none (h ∷ hostnames) others e = elim (Bool-cases (contains h others)) [
  | inl yes' ↦ absurd (ground arith)
  | inr no' ↦ (no', first_taken-none hostnames others (rw no' at e))
]

module _ (p : Platform) (binding : Binding) (hostnames : List Text) where
  -- The search passes over the other binding, or the hostnames that count as its own have none of
  -- these.
  abbrev pub LeavesFree : Binding → Type 0
  LeavesFree other =
      (is_passed binding other ≡ true)
      ⊎ ((t : State Binding) × (taken : List Text) × ((other_hostnames p other t).0 ≡ ok taken)
          × All (λ h. contains h taken ≡ false) hostnames)

  first_hostname_winner-none :
      (others : List Binding) (s s' : State Binding)
      → first_hostname_winner p binding hostnames others s ≡ (ok none, s')
      → All LeavesFree others
  unfolding first_hostname_winner ◌>>=◌ on_option
  first_hostname_winner-none [] s s' e = tt
  first_hostname_winner-none (other ∷ others) s s' e = elim (Bool-cases (is_passed binding other)) [
    | inl yes' ↦ (inl yes', first_hostname_winner-none others s s' (rw yes' at e))
    | inr no' ↦
        let (taken, t, got, q) = bind-first (other_hostnames p other) _ s s' none (rw no' at e) in
        elim (Option-cases (first_taken hostnames taken)) [
          | inl nothing ↦ (
            inr (s, taken, got, first_taken-none hostnames taken nothing),
            first_hostname_winner-none others t s' (rw nothing at q),
          )
          | inr (h, found) ↦ absurd (ground (arith, rw found at q))
        ]
  ]

  -- Some answer shows bindings that all leave the hostnames free.
  abbrev pub IsClear : Type 0
  IsClear =
      (h : History) × (bs : List Binding) × (p.answer h (list_bindings none) ≡ ok bs)
      × All LeavesFree bs

  pub hostname_winner-none :
      (s s' : State Binding) → hostname_winner p binding hostnames s ≡ (ok none, s') → IsClear
  unfolding hostname_winner perform
  hostname_winner-none s s' e =
      let (bs, t, got, q) = bind-first (perform p (list_bindings none)) _ s s' none e in
      (s.log, bs, got, first_hostname_winner-none bs t s' q)
