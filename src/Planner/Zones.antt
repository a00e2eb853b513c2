-- ===== src/Planner/Zones.antt =====
-- `NormalizeZones`
use kflared.Base.{◌≡◌, refl, sym, ◌∙◌, arith, Bool, true, false, ◌||◌, List, [], ◌∷◌, map}
use kflared.Base.{Text, text_eq, All, contains, if◌then◌else◌, Bool-cases, inl, inr}
use kflared.Base.Sort.{add, sort, Increasing, Distinct, contains-add, add-Distinct, contains-sort}
use kflared.Base.Sort.{sort-Increasing, Increasing-ext}
use kflared.Errors.{Err, message, Result, ok, err}
use kflared.Planner.Canonical.{canonical, is_concrete}

abbrev pub not_a_zone : Text → Err
not_a_zone zone = message "%q is not a concrete DNS zone" (zone ∷ [])

abbrev pub map_ok {ℓ κ} : {A : Type ℓ} {B : Type κ} → (A → B) → Result A → Result B
map_ok f (ok a) = ok (f a)
map_ok f (err e) = err e

module _ (is_subdomain : Text → Bool) where
  collect_zones : List Text → List Text → Result (List Text)
  collect_zones unique [] = ok unique
  collect_zones unique (zone ∷ zones) =
      let rest = collect_zones (add (canonical zone) unique) zones in
      if is_concrete is_subdomain (canonical zone) then rest else err (not_a_zone (canonical zone))

  unfoldable pub normalize_zones : List Text → Result (List Text)
  unfolding collect_zones is_concrete canonical add sort
  normalize_zones zones = map_ok sort (collect_zones [] zones)

  abbrev pub AllConcrete : List Text → Type 0
  AllConcrete = All (λ zone. is_concrete is_subdomain (canonical zone) ≡ true)

  collect_zones-Distinct :
      (unique zones r : List Text)
      → Distinct unique
      → collect_zones unique zones ≡ ok r
      → Distinct r
  unfolding collect_zones
  collect_zones-Distinct unique [] r d h = ground arith
  collect_zones-Distinct unique (zone ∷ zones) r d h = ground (
    arith,
    collect_zones-Distinct (add (canonical zone) unique) zones r,
    add-Distinct (canonical zone) unique,
  )

  contains-collect_zones :
      (unique zones r : List Text) (z : Text)
      → collect_zones unique zones ≡ ok r
      → contains z r ≡ (contains z (map canonical zones) || contains z unique)
  unfolding collect_zones
  contains-collect_zones unique [] r z h = ground arith
  contains-collect_zones unique (zone ∷ zones) r z h = ground (
    arith,
    contains-collect_zones (add (canonical zone) unique) zones r z,
    contains-add (canonical zone) z unique,
  )

  collect_zones_total :
      (unique zones : List Text)
      → AllConcrete zones
      → (r : List Text) × (collect_zones unique zones ≡ ok r)
  unfolding collect_zones
  collect_zones_total unique [] c = (unique, refl)
  collect_zones_total unique (zone ∷ zones) (p, c) =
      let (r, e) = collect_zones_total (add (canonical zone) unique) zones c in (r, rw p e)

  collect_zones-concrete :
      (unique zones r : List Text) → collect_zones unique zones ≡ ok r → AllConcrete zones
  unfolding collect_zones
  collect_zones-concrete unique [] r h = tt
  collect_zones-concrete unique (zone ∷ zones) r h =
      ground (arith, collect_zones-concrete (add (canonical zone) unique) zones r)

  -- The set that the loop collects, sorted.
  sorted_set :
      (zones r : List Text)
      → collect_zones [] zones ≡ ok r
      → Increasing (sort r) × ((z : Text) → contains z (sort r) ≡ contains z (map canonical zones))
  sorted_set zones r e = (
    sort-Increasing r (collect_zones-Distinct [] zones r tt e),
    λ z. ground (arith, contains-sort z r, contains-collect_zones [] zones r z e),
  )

  -- If every zone is concrete in canonical form, the result lists exactly the canonical zones,
  -- each once and in increasing order.
  pub normalize_zones_complete :
      (zones : List Text)
      → AllConcrete zones
      → (r : List Text) × (normalize_zones zones ≡ ok r)
        × Increasing r
        × ((z : Text) → contains z r ≡ contains z (map canonical zones))
  unfolding normalize_zones
  normalize_zones_complete zones c =
      let (r, e) = collect_zones_total [] zones c in
      let (i, m) = sorted_set zones r e in (sort r, rw e, i, m)

  normalize_zones_inv :
      (zones r : List Text)
      → normalize_zones zones ≡ ok r
      → (u : List Text) × (collect_zones [] zones ≡ ok u) × (sort u ≡ r)
  unfolding normalize_zones
  normalize_zones_inv zones r h = ground arith

  normalize_zones_sound :
      (zones r : List Text)
      → normalize_zones zones ≡ ok r
      → Increasing r × ((z : Text) → contains z r ≡ contains z (map canonical zones))
  normalize_zones_sound zones r h =
      let (u, e, same) = normalize_zones_inv zones r h in rw (← same) (sorted_set zones u e)

  pub normalize_zones-concrete :
      (zones r : List Text) → normalize_zones zones ≡ ok r → AllConcrete zones
  normalize_zones-concrete zones r h =
      let (u, e, same) = normalize_zones_inv zones r h in collect_zones-concrete [] zones u e

  collect_zones_error :
      (unique zones : List Text) (e : Err)
      → collect_zones unique zones ≡ err e
      → (zone : Text) × (contains zone zones ≡ true)
        × (is_concrete is_subdomain (canonical zone) ≡ false)
        × (e ≡ not_a_zone (canonical zone))
  unfolding collect_zones
  collect_zones_error unique [] e h = cc
  collect_zones_error unique (zone ∷ zones) e h =
      elim (Bool-cases (is_concrete is_subdomain (canonical zone))) [
        | inl good ↦
            let (z, m, bad, same) =
              collect_zones_error (add (canonical zone) unique) zones e (rw good at h) in
            (z, ground arith, bad, same)
        | inr bad ↦ (zone, ground arith, bad, ground arith)
      ]

  -- An error names a listed zone that is not concrete in canonical form.
  normalize_zones_error :
      (zones : List Text) (e : Err)
      → normalize_zones zones ≡ err e
      → (zone : Text) × (contains zone zones ≡ true)
        × (is_concrete is_subdomain (canonical zone) ≡ false)
        × (e ≡ not_a_zone (canonical zone))
  unfolding normalize_zones
  normalize_zones_error zones e h = collect_zones_error [] zones e (ground arith)

  concrete-contains :
      (zones : List Text) (z : Text)
      → AllConcrete zones
      → contains z (map canonical zones) ≡ true
      → is_concrete is_subdomain z ≡ true
  concrete-contains [] z c m = absurd (ground arith)
  concrete-contains (zone ∷ zones) z (good, c) m = ground (arith, good, concrete-contains zones z c)

  contains-concrete :
      (zones : List Text)
      → ((z : Text) → contains z (map canonical zones) ≡ true → is_concrete is_subdomain z ≡ true)
      → AllConcrete zones
  contains-concrete [] good = tt
  contains-concrete (zone ∷ zones) good = (
    good (canonical zone) (ground arith),
    contains-concrete zones (λ z m. good z (ground (arith, m))),
  )

  -- If one of two lists with the same canonical zones has a result, the other has the same one.
  pub normalize_zones_ext :
      (zones zones' r : List Text)
      → ((z : Text) → contains z (map canonical zones) ≡ contains z (map canonical zones'))
      → normalize_zones zones ≡ ok r
      → normalize_zones zones' ≡ ok r
  normalize_zones_ext zones zones' r same h =
      let (i, m) = normalize_zones_sound zones r h in
      let good = normalize_zones-concrete zones r h in
      let good' = contains-concrete zones' (λ z m'. concrete-contains zones z good (same z ∙ m')) in
      let (r', h', i', m') = normalize_zones_complete zones' good' in
      rw (Increasing-ext r r' i i' (λ z. m z ∙ same z ∙ sym (m' z))) h'
