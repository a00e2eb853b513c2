-- ===== src/Tests/Planning.antt =====
-- Runs of the planner, and of the functions that name and guard the connectors' objects.
use kflared.Base.{
  ℕ, ◌≡◌, ◌≤◌, ◌↔◌, ◌⊎◌, refl, arith, Bool, true, not, ◌&&◌, ◌||◌, All, List, [], ◌∷◌, map, String,
  Text, bytes, contains, text_eq, nat_eq, ◌==◌, length, if◌then◌else◌,
}
use kflared.Base.Strings.{is_lower, is_digit, is_dash}
use kflared.Base.Sort.{Increasing}
use kflared.Errors.{ok}
use kflared.Kube.{deployment}
use kflared.Planner.Canonical.{canonical, is_concrete}
use kflared.Planner.Zones.{normalize_zones, normalize_zones_complete, normalize_zones_ext}
use kflared.Planner.Hostnames.{
  normalize_hostnames, is_eligible, normalize_hostnames_partition, normalize_hostnames_ext,
}
use kflared.Planner.Ingress.{
  ingress_rules, equal_ingress, serve, not_found_service, equal_ingress_iff, serve-ingress_rules,
}
use kflared.Planner.Names.{tunnel_name, IsUid, tunnel_name_inj}
use kflared.Connector.{
  connector_resource_name, private_resource_name, verify_child_ownership, label, owner_uid_label,
}
use kflared.Connector.Laws.{resource_name-length, verify_child_ownership_iff}
use kflared.Tests.Data.{binding_of, child_of}

abbrev named : Text → Bool
named s = not (s == [])

abbrev zones : List Text
zones = bytes "Example.com" ∷ bytes "alpha.org." ∷ bytes "example.com." ∷ []

abbrev same_zones : List Text
same_zones = bytes "alpha.org" ∷ bytes "example.com" ∷ []

abbrev hostnames : List Text
hostnames = bytes "www.example.com" ∷ bytes "evil.net" ∷ bytes "WWW.example.com." ∷ []

abbrev same_hostnames : List Text
same_hostnames = bytes "evil.net" ∷ bytes "www.example.com" ∷ []

abbrev all_bytes : (ℕ → Bool) → Text → Bool
all_bytes f [] = true
all_bytes f (c ∷ s) = f c && all_bytes f s

all_bytes-All : (f : ℕ → Bool) (s : Text) → all_bytes f s ≡ true → All (λ c. f c ≡ true) s
all_bytes-All f [] h = tt
all_bytes-All f (c ∷ s) h = (ground arith, all_bytes-All f s (ground arith))

abbrev uid_one : String
uid_one = "0a1b2c3d-0000-4000-8000-000000000001"

uid_one-IsUid : IsUid (bytes uid_one)
unfolding is_lower is_digit is_dash nat_eq
uid_one-IsUid = record {
  first = b'0';
  middle = bytes "a1b2c3d-0000-4000-8000-00000000000";
  last = b'1';
  shape = refl;
  no_dash_first = refl;
  no_dash_last = refl;
  size = refl;
  clean = all_bytes-All (λ c. (is_lower c || is_digit c) || is_dash c) (bytes uid_one) refl;
}

abbrev uid_two : String
uid_two = "0a1b2c3d-0000-4000-8000-000000000002"

normalize_zones_complete_example :
    (r : List Text) × (normalize_zones named zones ≡ ok r)
    × Increasing r
    × ((z : Text) → contains z r ≡ contains z (map canonical zones))
unfolding is_concrete canonical nat_eq text_eq
normalize_zones_complete_example = normalize_zones_complete named zones (refl, (refl, (refl, tt)))

normalize_zones_ext_example :
    normalize_zones named (bytes "Example.com." ∷ same_zones) ≡ ok same_zones
unfolding normalize_zones text_eq nat_eq
normalize_zones_ext_example =
    normalize_zones_ext named same_zones (bytes "Example.com." ∷ same_zones) same_zones
      (λ z. ground arith) refl

normalize_hostnames_partition_example :
    Increasing (normalize_hostnames named hostnames same_zones).0
    × Increasing (normalize_hostnames named hostnames same_zones).1
    × ((g : Text)
        → contains g (normalize_hostnames named hostnames same_zones).0
          ≡ (contains g (map canonical hostnames) && is_eligible named g same_zones))
    × ((g : Text)
        → contains g (normalize_hostnames named hostnames same_zones).1 ≡ (
            contains g (map canonical hostnames)
            && (not (is_eligible named g same_zones) && not (g == []))))
normalize_hostnames_partition_example = normalize_hostnames_partition named hostnames same_zones

normalize_hostnames_ext_example :
    normalize_hostnames named hostnames same_zones
    ≡ normalize_hostnames named same_hostnames same_zones
unfolding normalize_hostnames
normalize_hostnames_ext_example =
    normalize_hostnames_ext named hostnames same_hostnames same_zones (λ g. ground arith)

equal_ingress_iff_example :
    (equal_ingress (ingress_rules same_zones (bytes "http://web:80")) (ingress_rules [] []) ≡ true)
    ↔ (ingress_rules same_zones (bytes "http://web:80") ≡ ingress_rules [] [])
equal_ingress_iff_example =
    equal_ingress_iff (ingress_rules same_zones (bytes "http://web:80")) (ingress_rules [] [])

serve-ingress_rules_example :
    serve (bytes "example.com") (ingress_rules same_zones (bytes "http://web:80")) ≡ (
      if contains (bytes "example.com") same_zones
      then bytes "http://web:80"
      else not_found_service)
unfolding text_eq
serve-ingress_rules_example =
    serve-ingress_rules (bytes "example.com") same_zones (bytes "http://web:80") refl

tunnel_name_inj_example : bytes uid_one ≡ bytes uid_one
unfolding tunnel_name
tunnel_name_inj_example =
    tunnel_name_inj (bytes uid_two) (bytes uid_two) (binding_of "a" "x" uid_one 3)
      (binding_of "a" "x" uid_one 4) uid_one-IsUid uid_one-IsUid refl

resource_name-length_example :
    (length (connector_resource_name (bytes uid_one)) ≤ 63)
    × (length (private_resource_name (bytes uid_one)) ≤ 63)
resource_name-length_example = resource_name-length (bytes uid_one)

verify_child_ownership_iff_example :
    (verify_child_ownership
        (bytes "u1")
        (child_of deployment "x" ((owner_uid_label, bytes "u2") ∷ []))
      ≡ ok tt)
    ↔ ((label owner_uid_label ((owner_uid_label, bytes "u2") ∷ []) ≡ bytes "u1")
        ⊎ ((label owner_uid_label ((owner_uid_label, bytes "u2") ∷ []) ≡ []) × (bytes "x" ≡ [])))
verify_child_ownership_iff_example =
    verify_child_ownership_iff (bytes "u1")
      (child_of deployment "x" ((owner_uid_label, bytes "u2") ∷ []))
