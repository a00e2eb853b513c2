-- ===== src/Planner/Hostnames.antt =====
-- `NormalizeHostnames`
use kflared.Base.{◌≡◌, refl, arith, Bool, false, not, ◌&&◌, ◌||◌, List, [], ◌∷◌, ◌++◌, map}
use kflared.Base.{Text, bytes, text_eq, ◌==◌, contains, if◌then◌else◌}
use mathlib.Core.Logic.{if_neg}
use kflared.Base.Strings.{has_suffix}
use kflared.Base.Sort.{add, sort, Increasing, Distinct, contains-add, add-Distinct, contains-sort}
use kflared.Base.Sort.{sort-Increasing, Increasing-ext}
use kflared.Planner.Canonical.{canonical, is_concrete}

-- The inner loop over `zones`.
unfoldable pub in_zones : Text → List Text → Bool
unfolding has_suffix
in_zones hostname [] = false
in_zones hostname (zone ∷ zones) =
    (hostname == zone || has_suffix hostname (bytes "." ++ zone)) || in_zones hostname zones

module _ (is_subdomain : Text → Bool) where
  -- What the test of one hostname, in canonical form, leaves in `valid`.
  unfoldable pub is_eligible : Text → List Text → Bool
  unfolding is_concrete in_zones
  is_eligible hostname zones = is_concrete is_subdomain hostname && in_zones hostname zones

  -- The two sets, `allowed` and `rejected`.
  abbrev Sets : Type 0
  Sets = record { allowed : List Text; rejected : List Text }

  file_under : Bool → Bool → Text → Sets → Sets
  file_under valid is_named hostname s =
      if valid
      then record { allowed = add hostname s.allowed; rejected = s.rejected }
      else if is_named
      then record { allowed = s.allowed; rejected = add hostname s.rejected }
      else s

  classify : Text → List Text → Sets → Sets
  unfolding file_under
  classify hostname zones s =
      file_under (is_eligible hostname zones) (not (hostname == [])) hostname s

  collect_hostnames : List Text → List Text → Sets → Sets
  collect_hostnames [] zones s = s
  collect_hostnames (hostname ∷ hostnames) zones s =
      collect_hostnames hostnames zones (classify (canonical hostname) zones s)

  unfoldable pub normalize_hostnames : List Text → List Text → List Text × List Text
  unfolding collect_hostnames classify is_eligible canonical add sort
  normalize_hostnames hostnames zones =
      let s : Sets = collect_hostnames hostnames zones (record { allowed = []; rejected = [] }) in
      (sort s.allowed, sort s.rejected)

  same_test : (f : Text → Bool) (h g : Text) → (h == g && f h) ≡ (h == g && f g)
  same_test f h g = elim (text_eq.dec h g) [ yes p ↦ rw p | no n ↦ rw (if_neg _ n) ]

  file_under_allowed :
      (v n : Bool) (h g : Text) (s : Sets)
      → contains g (file_under v n h s).allowed ≡ ((h == g && v) || contains g s.allowed)
  unfolding file_under
  file_under_allowed v n h g s = ground (arith, contains-add h g s.allowed)

  file_under-rejected :
      (v n : Bool) (h g : Text) (s : Sets)
      → contains g (file_under v n h s).rejected
        ≡ ((h == g && (not v && n)) || contains g s.rejected)
  unfolding file_under
  file_under-rejected v n h g s = ground (arith, contains-add h g s.rejected)

  classify_allowed :
      (h g : Text) (zones : List Text) (s : Sets)
      → contains g (classify h zones s).allowed
        ≡ ((h == g && is_eligible g zones) || contains g s.allowed)
  unfolding classify
  classify_allowed h g zones s =
      rw (file_under_allowed, same_test (λ x. is_eligible x zones) h g) refl

  classify-rejected :
      (h g : Text) (zones : List Text) (s : Sets)
      → contains g (classify h zones s).rejected
        ≡ ((h == g && (not (is_eligible g zones) && not (g == []))) || contains g s.rejected)
  unfolding classify
  classify-rejected h g zones s =
      rw (file_under-rejected, same_test (λ x. not (is_eligible x zones) && not (x == [])) h g) refl

  classify-Distinct :
      (h : Text) (zones : List Text) (s : Sets)
      → Distinct s.allowed
      → Distinct s.rejected
      → Distinct (classify h zones s).allowed × Distinct (classify h zones s).rejected
  unfolding classify
  classify-Distinct h zones s d e =
      ground (arith, add-Distinct h s.allowed d, add-Distinct h s.rejected e)

  collect_allowed :
      (hs zones : List Text) (g : Text) (s : Sets)
      → contains g (collect_hostnames hs zones s).allowed
        ≡ ((contains g (map canonical hs) && is_eligible g zones) || contains g s.allowed)
  unfolding collect_hostnames
  collect_allowed [] zones g s = refl
  collect_allowed (h ∷ hs) zones g s = ground (
    arith,
    collect_allowed hs zones g (classify (canonical h) zones s),
    classify_allowed (canonical h) g zones s,
  )

  collect_rejected :
      (hs zones : List Text) (g : Text) (s : Sets)
      → contains g (collect_hostnames hs zones s).rejected ≡ (
          (contains g (map canonical hs) && (not (is_eligible g zones) && not (g == [])))
          || contains g s.rejected)
  unfolding collect_hostnames
  collect_rejected [] zones g s = refl
  collect_rejected (h ∷ hs) zones g s = ground (
    arith,
    collect_rejected hs zones g (classify (canonical h) zones s),
    classify-rejected (canonical h) g zones s,
  )

  collect-Distinct :
      (hs zones : List Text) (s : Sets)
      → Distinct s.allowed
      → Distinct s.rejected
      → Distinct (collect_hostnames hs zones s).allowed
        × Distinct (collect_hostnames hs zones s).rejected
  unfolding collect_hostnames
  collect-Distinct [] zones s d e = (d, e)
  collect-Distinct (h ∷ hs) zones s d e =
      let (d', e') = classify-Distinct (canonical h) zones s d e in
      collect-Distinct hs zones (classify (canonical h) zones s) d' e'

  -- The first list holds the canonical hostnames that are eligible, and no others.
  pub normalize_hostnames_allowed :
      (hs zones : List Text) (g : Text)
      → contains g (normalize_hostnames hs zones).0
        ≡ (contains g (map canonical hs) && is_eligible g zones)
  unfolding normalize_hostnames
  normalize_hostnames_allowed hs zones g = ground (
    arith,
    contains-sort g (collect_hostnames hs zones (record { allowed = []; rejected = [] })).allowed,
    collect_allowed hs zones g (record { allowed = []; rejected = [] }),
  )

  -- The second list holds the canonical hostnames that are neither eligible nor empty.
  pub normalize_hostnames_rejected :
      (hs zones : List Text) (g : Text)
      → contains g (normalize_hostnames hs zones).1
        ≡ (contains g (map canonical hs) && (not (is_eligible g zones) && not (g == [])))
  unfolding normalize_hostnames
  normalize_hostnames_rejected hs zones g = ground (
    arith,
    contains-sort g (collect_hostnames hs zones (record { allowed = []; rejected = [] })).rejected,
    collect_rejected hs zones g (record { allowed = []; rejected = [] }),
  )

  pub normalize_hostnames-Increasing :
      (hs zones : List Text)
      → Increasing (normalize_hostnames hs zones).0 × Increasing (normalize_hostnames hs zones).1
  unfolding normalize_hostnames
  normalize_hostnames-Increasing hs zones =
      let (d, e) = collect-Distinct hs zones (record { allowed = []; rejected = [] }) tt tt in
      (sort-Increasing _ d, sort-Increasing _ e)

  -- Both lists are increasing without repeats. Of the canonical hostnames the first holds the
  -- eligible ones, and the second the others that are not empty.
  pub normalize_hostnames_partition :
      (hs zones : List Text)
      → Increasing (normalize_hostnames hs zones).0
        × Increasing (normalize_hostnames hs zones).1
        × ((g : Text)
            → contains g (normalize_hostnames hs zones).0
              ≡ (contains g (map canonical hs) && is_eligible g zones))
        × ((g : Text)
            → contains g (normalize_hostnames hs zones).1
              ≡ (contains g (map canonical hs) && (not (is_eligible g zones) && not (g == []))))
  normalize_hostnames_partition hs zones =
      let (i, j) = normalize_hostnames-Increasing hs zones in
      (i, j, normalize_hostnames_allowed hs zones, normalize_hostnames_rejected hs zones)

  -- Lists with the same canonical hostnames, in any order, are published alike.
  pub normalize_hostnames_ext :
      (hs hs' zones : List Text)
      → ((g : Text) → contains g (map canonical hs) ≡ contains g (map canonical hs'))
      → normalize_hostnames hs zones ≡ normalize_hostnames hs' zones
  normalize_hostnames_ext hs hs' zones same =
      let (i, j) = normalize_hostnames-Increasing hs zones in
      let (i', j') = normalize_hostnames-Increasing hs' zones in
      let a = Increasing-ext _ _ i i' (λ g. ground (
        arith,
        normalize_hostnames_allowed hs zones g,
        normalize_hostnames_allowed hs' zones g,
        same g,
      )) in
      let r = Increasing-ext _ _ j j' (λ g. ground (
        arith,
        normalize_hostnames_rejected hs zones g,
        normalize_hostnames_rejected hs' zones g,
        same g,
      )) in
      λ k. (a k, r k)
