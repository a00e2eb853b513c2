-- ===== src/Planner/Names.antt =====
-- `TunnelName`, `compactID` and `sanitize`.
use kflared.Base.{ℕ, ◌≤◌, ◌≡◌, refl, arith, true, false, ◌||◌}
use kflared.Base.{
  [], ◌∷◌, ◌++◌, map, Text, bytes, text_eq, nat_eq, ◌==◌, length, take, All, ltb, Bool-cases, inl,
  inr, if◌then◌else◌,
}
use kflared.Base.Strings.{
  to_lower, trim, trim_left, trim_right, is_dash, is_lower, is_digit, without_dashes,
}
use kflared.Base.Strings.{
  length-take-le, length-trim_right, length-append, append_cancel, trim_right_end, lower_byte,
}
use mathlib.Core.List.{append_assoc}
use native.Mathlib.Nat.{le_trans}
use kflared.Api.{CloudflareTunnelBinding}

abbrev pub max_tunnel_name_length : ℕ
max_tunnel_name_length = 100

abbrev or_unknown : Text → Text
or_unknown s = if s == [] then bytes "unknown" else s

unfoldable pub compact_id : Text → ℕ → Text
unfolding without_dashes
compact_id value limit =
    let v = without_dashes value in if ltb limit (length v) then take limit v else or_unknown v

-- One character of the loop in `sanitize`, which sees lower-case text.
clean_byte : ℕ → ℕ
unfolding is_lower is_digit is_dash
clean_byte c = if (is_lower c || is_digit c) || is_dash c then c else b'-'

-- The text before the bound is applied.
cleaned : Text → Text
unfolding to_lower clean_byte trim trim_left trim_right
cleaned value = or_unknown (trim is_dash (map clean_byte (to_lower value)))

unfoldable pub sanitize : Text → ℕ → Text
unfolding cleaned
sanitize value limit =
    let clean = cleaned value in
    if ltb limit (length clean) then trim_right is_dash (take limit clean) else clean

unfoldable pub full_name : Text → CloudflareTunnelBinding → Text
unfolding compact_id sanitize
full_name cluster_uid binding =
    bytes "kflared-"
    ++ (compact_id cluster_uid 8
        ++ (bytes "-"
            ++ (sanitize binding.namespace 14
                ++ (bytes "-"
                    ++ (sanitize binding.spec.gateway_ref.name 14
                        ++ (bytes "-" ++ sanitize binding.uid 36))))))

unfoldable pub tunnel_name : Text → CloudflareTunnelBinding → Text
unfolding full_name
tunnel_name cluster_uid binding =
    let name = full_name cluster_uid binding in
    if ltb max_tunnel_name_length (length name) then take max_tunnel_name_length name else name

compact_id-length : (value : Text) (limit : ℕ) → 7 ≤ limit → length (compact_id value limit) ≤ limit
unfolding compact_id
compact_id-length value limit h = ground (arith, length-take-le limit (without_dashes value))

sanitize-length : (value : Text) (limit : ℕ) → length (sanitize value limit) ≤ limit
unfolding sanitize
sanitize-length value limit = elim (Bool-cases (ltb limit (length (cleaned value)))) [
  | inl long ↦
      rw long (le_trans (length-trim_right is_dash _) (length-take-le limit (cleaned value)))
  | inr short ↦ rw short (ground arith)
]

full_name-length :
    (cluster_uid : Text) (binding : CloudflareTunnelBinding)
    → length (full_name cluster_uid binding) ≤ 83
unfolding full_name
full_name-length cluster_uid binding = simp length-append (
    omega (
      arith,
      compact_id-length cluster_uid 8,
      sanitize-length binding.namespace 14,
      sanitize-length binding.spec.gateway_ref.name 14,
      sanitize-length binding.uid 36,
    ))

cut_name :
    (limit : ℕ) (name : Text)
    → length name ≤ limit
    → (if ltb limit (length name) then take limit name else name) ≡ name
cut_name limit name h = ground arith

-- The parts are bounded, so that the name is never cut, and it has at most 83 bytes.
tunnel_name_whole :
    (cluster_uid : Text) (binding : CloudflareTunnelBinding)
    → (tunnel_name cluster_uid binding ≡ full_name cluster_uid binding)
      × (length (tunnel_name cluster_uid binding) ≤ 83)
unfolding tunnel_name
tunnel_name_whole cluster_uid binding =
    let short = full_name-length cluster_uid binding in
    let same = cut_name 100 (full_name cluster_uid binding) (le_trans short (omega arith)) in
    (same, rw same short)

-- A UID as Kubernetes makes it: 36 lower-case letters, digits and dashes, with no dash at the ends.
pub record IsUid (u : Text) : Type 0 where
  pub first : ℕ
  pub middle : Text
  pub last : ℕ
  pub shape : u ≡ first ∷ (middle ++ last ∷ [])
  pub no_dash_first : is_dash first ≡ false
  pub no_dash_last : is_dash last ≡ false
  pub size : length u ≡ 36
  pub clean : All (λ c. ((is_lower c || is_digit c) || is_dash c) ≡ true) u

clean_fixed :
    (c : ℕ) → ((is_lower c || is_digit c) || is_dash c) ≡ true → clean_byte (lower_byte c) ≡ c
unfolding clean_byte lower_byte nat_eq
clean_fixed c h = ground arith

All-clean_fixed :
    (u : Text)
    → All (λ c. ((is_lower c || is_digit c) || is_dash c) ≡ true) u
    → map clean_byte (to_lower u) ≡ u
unfolding to_lower
All-clean_fixed [] h = refl
All-clean_fixed (c ∷ u) (p, h) = cc (clean_fixed c p, All-clean_fixed u h)

trim-uid : (u : Text) → IsUid u → trim is_dash u ≡ u
unfolding trim trim_left
trim-uid u d =
    rw d.shape
      (rw d.no_dash_first (trim_right_end is_dash (d.first ∷ d.middle) d.last d.no_dash_last))

or_unknown-uid : (u : Text) → IsUid u → or_unknown u ≡ u
or_unknown-uid [] d = absurd (omega (arith, d.size))
or_unknown-uid (c ∷ u) d = ground arith

cleaned-uid : (u : Text) → IsUid u → cleaned u ≡ u
unfolding cleaned
cleaned-uid u d = rw (All-clean_fixed u d.clean, trim-uid u d) (or_unknown-uid u d)

sanitize-uid : (u : Text) → IsUid u → sanitize u 36 ≡ u
unfolding sanitize
sanitize-uid u d = rw (cleaned-uid u d) (ground (arith, d.size))

prefix_name : Text → CloudflareTunnelBinding → Text
prefix_name cluster_uid binding =
    bytes "kflared-"
    ++ (compact_id cluster_uid 8
        ++ (bytes "-"
            ++ (sanitize binding.namespace 14
                ++ (bytes "-" ++ (sanitize binding.spec.gateway_ref.name 14 ++ bytes "-")))))

full_name_split :
    (cluster_uid : Text) (binding : CloudflareTunnelBinding)
    → full_name cluster_uid binding ≡ prefix_name cluster_uid binding ++ sanitize binding.uid 36
unfolding full_name prefix_name
full_name_split cluster_uid binding = simp append_assoc

-- Bindings whose UIDs have the form of a Kubernetes UID and whose tunnels have one name, whatever
-- the clusters' UIDs, have one UID.
pub tunnel_name_inj :
    (c c' : Text) (b b' : CloudflareTunnelBinding)
    → IsUid b.uid
    → IsUid b'.uid
    → tunnel_name c b ≡ tunnel_name c' b'
    → b.uid ≡ b'.uid
tunnel_name_inj c c' b b' u u' e =
    append_cancel (prefix_name c b) (prefix_name c' b') b.uid b'.uid (cc (u.size, u'.size)) (
      cc (
        e,
        (tunnel_name_whole c b).0,
        (tunnel_name_whole c' b').0,
        full_name_split c b,
        full_name_split c' b',
        sanitize-uid b.uid u,
        sanitize-uid b'.uid u',
      ))
