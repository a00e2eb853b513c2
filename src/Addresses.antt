-- ===== src/Addresses.antt =====
-- IPv4 addresses: `netip.ParseAddr` as far as `Is4` holds of the result, `IsUnspecified`, and the
-- text of `netip.PrefixFrom(ip, 32)`.
use Prim.Native.Nat.{◌/◌, ◌%◌}
use kflared.Base.{ℕ, suc, ◌+◌, ◌-◌, ◌*◌, Bool, true, not, ◌&&◌, ◌||◌}
use kflared.Base.{
  Option, none, some, List, [], ◌∷◌, ◌++◌, Text, bytes, nat_eq, ◌==◌, length, ltb, if◌then◌else◌,
}
use kflared.Base.Strings.{is_digit}

-- The loop of `parseIPv4Fields`: the value of the field so far, its digits, and the fields before.
parse_fields : Text → ℕ → ℕ → List ℕ → Option (List ℕ)
parse_fields [] val dig fields =
    if length fields == 3 && not (dig == 0) then some (fields ++ val ∷ []) else none
parse_fields (c ∷ s) val dig fields =
    let more = parse_fields s (val * 10 + (c - b'0')) (suc dig) fields in
    let next = parse_fields s 0 0 (fields ++ val ∷ []) in
    if is_digit c
    then (if (dig == 1 && val == 0) || ltb 255 (val * 10 + (c - b'0')) then none else more)
    else if c == b'.' && not (dig == 0 || length fields == 3)
    then next
    else none

unfoldable pub parse_ipv4 : Text → Option (List ℕ)
unfolding parse_fields is_digit
parse_ipv4 s = parse_fields s 0 0 []

unfoldable pub is_unspecified : List ℕ → Bool
is_unspecified [] = true
is_unspecified (f ∷ fields) = f == 0 && is_unspecified fields

decimal : ℕ → Text
decimal v =
    if ltb v 10
    then (b'0' + v) ∷ []
    else if ltb v 100
    then (b'0' + v / 10) ∷ (b'0' + v % 10) ∷ []
    else (b'0' + v / 100) ∷ (b'0' + v / 10 % 10) ∷ (b'0' + v % 10) ∷ []

dotted : List ℕ → Text
unfolding decimal
dotted [] = []
dotted (f ∷ []) = decimal f
dotted (f ∷ g ∷ fields) = decimal f ++ (b'.' ∷ dotted (g ∷ fields))

unfoldable pub host_prefix : List ℕ → Text
unfolding dotted
host_prefix fields = dotted fields ++ bytes "/32"
