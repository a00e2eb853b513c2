-- ===== src/Providers/Finalize/References.antt =====
-- `finalize`, by what refers to the provider.
use kflared.Base.{◌≡◌, refl, arith, Bool, true, false, ◌||◌, none, some, List, [], ◌∷◌, Text}
use mathlib.Core.Bool.{false≢true}
use kflared.Base.{Bool-cases, inl, inr, ◌⊎◌}
use kflared.Errors.{ok, err}
use kflared.Api.{ClusterCloudflareProvider, CloudflareTunnelBinding, CloudflareTunnelPrivateRoute}
use kflared.Platform.{on_option, Platform, Call, event, History, State, ◌>>=◌, perform, outcome_of}
use kflared.Platform.{list_bindings, list_routes, update_provider}
use kflared.Settings.{Settings, cluster_provider_finalizer}
use kflared.Providers.Finalize.{
  binding_refers, route_refers, first_binding, first_route, held_by_binding, held_by_route,
  without_finalizer, release, check_routes, finalize,
}

abbrev Provider : Type 0
Provider = ClusterCloudflareProvider

abbrev pub any_binding : Settings → Text → List CloudflareTunnelBinding → Bool
any_binding r name [] = false
any_binding r name (b ∷ bs) = binding_refers r name b || any_binding r name bs

abbrev pub any_route : Settings → Text → List CloudflareTunnelPrivateRoute → Bool
any_route r name [] = false
any_route r name (x ∷ xs) = route_refers r name x || any_route r name xs

first_binding-none :
    (r : Settings) (name : Text) (bs : List CloudflareTunnelBinding)
    → any_binding r name bs ≡ false
    → first_binding r name bs ≡ none
unfolding first_binding
first_binding-none r name [] h = refl
first_binding-none r name (b ∷ bs) h = ground (arith, first_binding-none r name bs)

first_binding-some :
    (r : Settings) (name : Text) (bs : List CloudflareTunnelBinding)
    → any_binding r name bs ≡ true
    → (b : CloudflareTunnelBinding) × (binding_refers r name b ≡ true)
      × (first_binding r name bs ≡ some (held_by_binding b))
unfolding first_binding
first_binding-some r name [] h = absurd (false≢true h)
first_binding-some r name (b ∷ bs) h = elim (Bool-cases (binding_refers r name b)) [
  | inl yes' ↦ (b, yes', rw yes' refl)
  | inr no' ↦ let (e, t, q) = first_binding-some r name bs (ground arith) in (e, t, rw no' q)
]

first_route-none :
    (r : Settings) (name : Text) (xs : List CloudflareTunnelPrivateRoute)
    → any_route r name xs ≡ false
    → first_route r name xs ≡ none
unfolding first_route
first_route-none r name [] h = refl
first_route-none r name (x ∷ xs) h = ground (arith, first_route-none r name xs)

first_route-some :
    (r : Settings) (name : Text) (xs : List CloudflareTunnelPrivateRoute)
    → any_route r name xs ≡ true
    → (x : CloudflareTunnelPrivateRoute) × (route_refers r name x ≡ true)
      × (first_route r name xs ≡ some (held_by_route x))
unfolding first_route
first_route-some r name [] h = absurd (false≢true h)
first_route-some r name (x ∷ xs) h = elim (Bool-cases (route_refers r name x)) [
  | inl yes' ↦ (x, yes', rw yes' refl)
  | inr no' ↦ let (e, t, q) = first_route-some r name xs (ground arith) in (e, t, rw no' q)
]

module _ (p : Platform) (r : Settings) (s : State Provider) (bs : List CloudflareTunnelBinding)
    (xs : List CloudflareTunnelPrivateRoute)
    (protected : p.contains_finalizer s.object.finalizers cluster_provider_finalizer ≡ true)
    (bindings : p.answer s.log (list_bindings none) ≡ ok bs)
    (routes : p.answer (event (list_bindings none) (ok bs) ∷ s.log) list_routes ≡ ok xs) where
  abbrev listed : History
  listed = event list_routes (ok xs) ∷ event (list_bindings none) (ok bs) ∷ s.log

  abbrev removal : Call
  removal = update_provider (without_finalizer p r s.object)

  -- Where the provider carries the finalizer, both listings succeed, and they show no binding and
  -- no private route of this controller class that names the provider, the finalizer is removed by
  -- one update, and the result is the update's.
  pub finalize_releases :
      any_binding r s.object.name bs ≡ false
      → any_route r s.object.name xs ≡ false
      → finalize p r s ≡ (
        ok (outcome_of 0 (p.answer listed removal)),
        record s { log = event removal (p.answer listed removal) ∷ listed },
      )
  unfolding finalize check_routes release perform on_option ◌>>=◌
  finalize_releases nb nr = rw protected (
      rw bindings (
        rw (first_binding-none r s.object.name bs nb)
          (rw routes (rw (first_route-none r s.object.name xs nr) refl))))

  -- Where the provider carries the finalizer, both listings would succeed, and they show a binding
  -- or a private route of this controller class that names the provider, the run fails with an
  -- error that names a binding or a private route of this class that refers to the provider, and
  -- makes no call but the listings.
  pub finalize_refuses :
      (any_binding r s.object.name bs || any_route r s.object.name xs) ≡ true
      → ((b : CloudflareTunnelBinding) × (binding_refers r s.object.name b ≡ true)
          × (finalize p r s ≡ (
            err (held_by_binding b),
            record s { log = event (list_bindings none) (ok bs) ∷ s.log },
          )))
        ⊎ ((x : CloudflareTunnelPrivateRoute) × (route_refers r s.object.name x ≡ true)
            × (finalize p r s ≡ (err (held_by_route x), record s { log = listed })))
  unfolding finalize check_routes release perform on_option ◌>>=◌
  finalize_refuses h = elim (Bool-cases (any_binding r s.object.name bs)) [
    | inl held ↦
        let (b, t, e) = first_binding-some r s.object.name bs held in
        inl (b, t, rw protected (rw bindings (rw e refl)))
    | inr free ↦
        let (x, t, e) = first_route-some r s.object.name xs (rw free at h) in
        inr (
          x,
          t,
          rw protected (
              rw bindings
                (rw (first_binding-none r s.object.name bs free) (rw routes (rw e refl)))),
        )
  ]
