-- ===== src/Base/Strings.antt =====
-- The functions of Go's `strings` that the program calls, over ASCII bytes.
use kflared.Base.{ℕ, zero, suc, ◌+◌, ◌-◌, ◌≤◌, ◌≡◌, refl, ap, arith, Bool, true, false, ◌&&◌, ◌||◌}
use kflared.Base.{[], ◌∷◌, ◌++◌, map, Text, text_eq, nat_eq, ◌==◌, leb, if◌then◌else◌}
use kflared.Base.{length, take}

is_upper : ℕ → Bool
is_upper c = leb b'A' c && leb c b'Z'

unfoldable pub is_lower : ℕ → Bool
is_lower c = leb b'a' c && leb c b'z'

unfoldable pub is_digit : ℕ → Bool
is_digit c = leb b'0' c && leb c b'9'

unfoldable pub lower_byte : ℕ → ℕ
unfolding is_upper
lower_byte c = if is_upper c then c + 32 else c

-- `strings.ToLower`
unfoldable pub to_lower : Text → Text
unfolding lower_byte
to_lower = map lower_byte

-- `unicode.IsSpace`: tab to carriage return, and the space.
unfoldable pub is_space : ℕ → Bool
is_space c = (leb 9 c && leb c 13) || c == 32

unfoldable pub is_dash : ℕ → Bool
is_dash c = c == b'-'

unfoldable pub trim_left : (ℕ → Bool) → Text → Text
trim_left p [] = []
trim_left p (c ∷ s) = let rest = trim_left p s in if p c then rest else c ∷ s

abbrev cons_unless : (ℕ → Bool) → ℕ → Text → Text
cons_unless p c [] = if p c then [] else c ∷ []
cons_unless p c (d ∷ s) = c ∷ d ∷ s

unfoldable pub trim_right : (ℕ → Bool) → Text → Text
trim_right p [] = []
trim_right p (c ∷ s) = cons_unless p c (trim_right p s)

unfoldable pub trim : (ℕ → Bool) → Text → Text
trim p s = trim_right p (trim_left p s)

-- `strings.TrimSpace`
unfoldable pub trim_space : Text → Text
unfolding trim trim_left trim_right is_space
trim_space s = trim is_space s

-- `strings.HasPrefix`
unfoldable pub has_prefix : Text → Text → Bool
has_prefix s [] = true
has_prefix [] (c ∷ t) = false
has_prefix (d ∷ s) (c ∷ t) = d == c && has_prefix s t

-- `strings.HasSuffix`
unfoldable pub has_suffix : Text → Text → Bool
has_suffix [] t = [] == t
has_suffix (c ∷ s) t = (c ∷ s) == t || has_suffix s t

-- `strings.TrimSuffix`
unfoldable pub trim_suffix : Text → Text → Text
unfolding has_suffix
trim_suffix s t = if has_suffix s t then take (length s - length t) s else s

-- `strings.TrimPrefix`, of a prefix that is present.
unfoldable pub drop_prefix : Text → Text → Text
drop_prefix s [] = s
drop_prefix [] (c ∷ t) = []
drop_prefix (d ∷ s) (c ∷ t) = drop_prefix s t

unfoldable pub trim_prefix : Text → Text → Text
unfolding has_prefix drop_prefix
trim_prefix s t = if has_prefix s t then drop_prefix s t else s

-- `strings.ReplaceAll(s, "-", "")`
unfoldable pub without_dashes : Text → Text
unfolding is_dash
without_dashes [] = []
without_dashes (c ∷ s) = let rest = without_dashes s in if is_dash c then rest else c ∷ rest

pub has_prefix-append : (s t : Text) → has_prefix (s ++ t) s ≡ true
unfolding has_prefix
has_prefix-append [] [] = refl
has_prefix-append [] (x ∷ t) = refl
has_prefix-append (c ∷ s) t = ground (arith, has_prefix-append s t)

pub drop_prefix-append : (s t : Text) → drop_prefix (s ++ t) s ≡ t
unfolding drop_prefix
drop_prefix-append [] [] = refl
drop_prefix-append [] (x ∷ t) = refl
drop_prefix-append (c ∷ s) t = drop_prefix-append s t

pub trim_prefix-append : (s t : Text) → trim_prefix (s ++ t) s ≡ t
unfolding trim_prefix
trim_prefix-append s t = rw (has_prefix-append s t) (drop_prefix-append s t)

pub length-take-le : (n : ℕ) (s : Text) → length (take n s) ≤ n
length-take-le zero s = omega arith
length-take-le (suc n) [] = omega arith
length-take-le (suc n) (c ∷ s) = omega (arith, length-take-le n s)

pub length-cons_unless :
    (p : ℕ → Bool) (c : ℕ) (s : Text) → length (cons_unless p c s) ≤ suc (length s)
length-cons_unless p c [] = ground arith
length-cons_unless p c (d ∷ s) = omega arith

pub length-trim_right : (p : ℕ → Bool) (s : Text) → length (trim_right p s) ≤ length s
unfolding trim_right
length-trim_right p [] = omega arith
length-trim_right p (c ∷ s) =
    omega (arith, length-cons_unless p c (trim_right p s), length-trim_right p s)

pub length-append : (s t : Text) → length (s ++ t) ≡ length s + length t
length-append [] t = omega arith
length-append (c ∷ s) t = omega (arith, length-append s t)

-- The part of a text behind a prefix is determined by its length.
pub append_cancel : (s t u v : Text) → length u ≡ length v → s ++ u ≡ t ++ v → u ≡ v
append_cancel [] [] u v n e = e
append_cancel [] (d ∷ t) u v n e = absurd (omega (arith, ap length e, length-append t v))
append_cancel (c ∷ s) [] u v n e = absurd (omega (arith, ap length e, length-append s u))
append_cancel (c ∷ s) (d ∷ t) u v n e = append_cancel s t u v n (cc e)

pub trim_right_end :
    (p : ℕ → Bool) (s : Text) (d : ℕ) → p d ≡ false → trim_right p (s ++ d ∷ []) ≡ s ++ d ∷ []
unfolding trim_right
trim_right_end p [] d h = rw h
trim_right_end p (c ∷ []) d h = rw h
trim_right_end p (c ∷ b ∷ s) d h = rw (trim_right_end p (b ∷ s) d h)
