-- ===== src/Base/Decimal.antt =====
-- The verb `%d` of `fmt.Sprintf`, at an int32.
use Prim.Native.Nat.{◌/◌, ◌%◌}
use kflared.Base.{ℕ, zero, suc, ◌+◌, [], ◌∷◌, Text, ltb, if◌then◌else◌}
use kflared.Base.Int.{ℤ, pos, negsuc}

-- The digits of a number in front of a text, on fuel: one unit for each digit after the first.
unfoldable pub digits : ℕ → ℕ → Text → Text
digits zero n out = (b'0' + n % 10) ∷ out
digits (suc fuel) n out =
    let rest = digits fuel (n / 10) ((b'0' + n % 10) ∷ out) in
    if ltb n 10 then (b'0' + n % 10) ∷ out else rest

-- An int32 has at most ten digits.
unfoldable pub format_int : ℤ → Text
unfolding digits
format_int (pos n) = digits 9 n []
format_int (negsuc n) = b'-' ∷ digits 9 (suc n) []
