-- ===== src/Planner/Precedence.antt =====
-- `BindingPrecedes`: the order by which conflicts over Gateways and hostnames are decided.
use kflared.Base.{
  [], ◌∷◌, refl, contains, ℕ, ◌≡◌, ◌≢◌, arith, Bool, true, false, not, ◌++◌, Text, bytes, nat_eq,
  ◌==◌, ltb, if◌then◌else◌,
}
use kflared.Base.Order.{text_lt, text_lt_trans, text_lt_asymm, text_lt_connex}
use kflared.Api.{CloudflareTunnelBinding}

unfoldable pub precedence_key : CloudflareTunnelBinding → Text
precedence_key b = b.namespace ++ (bytes "/" ++ (b.name ++ (bytes "/" ++ b.uid)))

unfoldable pub binding_precedes : CloudflareTunnelBinding → CloudflareTunnelBinding → Bool
unfolding precedence_key text_lt
binding_precedes left right =
    if not (left.creation_timestamp == right.creation_timestamp)
    then ltb left.creation_timestamp right.creation_timestamp
    else text_lt (precedence_key left) (precedence_key right)

-- An older binding goes first; of two of one age, the one with the lesser key.
rank : ℕ → ℕ → Text → Text → Bool
rank s t k l = if not (s == t) then ltb s t else text_lt k l

rank_trans :
    (s t u : ℕ) (k l m : Text) → rank s t k l ≡ true → rank t u l m ≡ true → rank s u k m ≡ true
unfolding rank
rank_trans s t u k l m h j = ground (arith, text_lt_trans k l m)

rank_asymm : (s t : ℕ) (k l : Text) → rank s t k l ≡ true → rank t s l k ≡ false
unfolding rank
rank_asymm s t k l h = ground (arith, text_lt_asymm k l)

-- Precedence is transitive, and leads back to no binding: where one precedes a second and the second
-- a third, the first precedes the third, and the third does not precede the first.
binding_precedes_trans :
    (a b c : CloudflareTunnelBinding)
    → binding_precedes a b ≡ true
    → binding_precedes b c ≡ true
    → (binding_precedes a c ≡ true) × (binding_precedes c a ≡ false)
unfolding binding_precedes rank
binding_precedes_trans a b c h k =
    let l =
      rank_trans a.creation_timestamp b.creation_timestamp c.creation_timestamp (precedence_key a)
        (precedence_key b) (precedence_key c) h k in
    (
      l,
      rank_asymm a.creation_timestamp c.creation_timestamp (precedence_key a) (precedence_key c) l,
    )

rank_flip : (s t : ℕ) (k l : Text) → k ≢ l → rank t s l k ≡ not (rank s t k l)
unfolding rank
rank_flip s t k l differ = ground (arith, text_lt_connex k l, text_lt_asymm k l)

-- The first slash splits a text in one way.
slash_inj :
    (s t : Text) {u v : Text}
    → contains b'/' s ≡ false
    → contains b'/' t ≡ false
    → s ++ b'/' ∷ u ≡ t ++ b'/' ∷ v
    → (s ≡ t) × (u ≡ v)
slash_inj [] [] h k e = (refl, cc)
slash_inj [] (c ∷ t) h k e = ground arith
slash_inj (c ∷ s) [] h k e = ground arith
slash_inj (c ∷ s) (d ∷ t) h k e =
    let (p, q) = slash_inj s t (ground arith) (ground arith) (cc) in (cc, q)

abbrev pub NoSlash : Text → Type 0
NoSlash s = contains b'/' s ≡ false

key_inj :
    (a b : CloudflareTunnelBinding)
    → NoSlash a.namespace
    → NoSlash b.namespace
    → NoSlash a.name
    → NoSlash b.name
    → precedence_key a ≡ precedence_key b
    → a.uid ≡ b.uid
unfolding precedence_key
key_inj a b h k h' k' e = (slash_inj _ _ h' k' (slash_inj _ _ h k e).1).1

-- Of two bindings with distinct UIDs, whose namespaces and names hold no slash, exactly one
-- precedes the other.
pub binding_precedes_total :
    (a b : CloudflareTunnelBinding)
    → NoSlash a.namespace
    → NoSlash b.namespace
    → NoSlash a.name
    → NoSlash b.name
    → a.uid ≢ b.uid
    → binding_precedes b a ≡ not (binding_precedes a b)
unfolding binding_precedes rank
binding_precedes_total a b h k h' k' differ =
    rank_flip a.creation_timestamp b.creation_timestamp (precedence_key a) (precedence_key b)
      (λ e. differ (key_inj a b h k h' k' e))
