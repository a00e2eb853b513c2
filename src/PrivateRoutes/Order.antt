-- ===== src/PrivateRoutes/Order.antt =====
-- `privatePrecedes`, which decides conflicts between private routes.
use kflared.Base.{
  ℕ, ◌≡◌, ◌≢◌, arith, Bool, true, false, not, Text, text_eq, nat_eq, ◌==◌, ltb, if◌then◌else◌,
}
use kflared.Base.Order.{text_lt, text_lt_trans, text_lt_asymm, text_lt_connex}
use kflared.Api.{CloudflareTunnelPrivateRoute}

-- The comparison of the code's four keys: creation time, namespace, name and UID.
unfoldable pub precedes : ℕ → ℕ → Text → Text → Text → Text → Text → Text → Bool
precedes s t ns ns' n n' u u' =
    if not (s == t)
    then ltb s t
    else if not (ns == ns')
    then text_lt ns ns'
    else if not (n == n')
    then text_lt n n'
    else text_lt u u'

unfoldable pub private_precedes : CloudflareTunnelPrivateRoute → CloudflareTunnelPrivateRoute → Bool
unfolding precedes text_lt
private_precedes a b =
    precedes a.creation_timestamp b.creation_timestamp a.namespace b.namespace a.name b.name a.uid
      b.uid

precedes_trans :
    (s t w : ℕ) (a b c d e f g h i : Text)
    → precedes s t a b d e g h ≡ true
    → precedes t w b c e f h i ≡ true
    → precedes s w a c d f g i ≡ true
unfolding precedes
precedes_trans s t w a b c d e f g h i x y = ground (
  arith,
  text_lt_trans a b c,
  text_lt_trans d e f,
  text_lt_trans g h i,
  text_lt_asymm a b,
  text_lt_asymm d e,
)

precedes_asymm :
    (s t : ℕ) (a b d e g h : Text)
    → precedes s t a b d e g h ≡ true
    → precedes t s b a e d h g ≡ false
unfolding precedes
precedes_asymm s t a b d e g h x =
    ground (arith, text_lt_asymm a b, text_lt_asymm d e, text_lt_asymm g h)

precedes_flip :
    (s t : ℕ) (a b d e g h : Text)
    → g ≢ h
    → precedes t s b a e d h g ≡ not (precedes s t a b d e g h)
unfolding precedes
precedes_flip s t a b d e g h differ = ground (
  arith,
  text_lt_connex a b,
  text_lt_asymm a b,
  text_lt_connex d e,
  text_lt_asymm d e,
  text_lt_connex g h,
  text_lt_asymm g h,
)

-- Precedence is transitive, and leads back to no route: where one precedes a second and the second a
-- third, the first precedes the third, and the third does not precede the first.
private_precedes_trans :
    (a b c : CloudflareTunnelPrivateRoute)
    → private_precedes a b ≡ true
    → private_precedes b c ≡ true
    → (private_precedes a c ≡ true) × (private_precedes c a ≡ false)
unfolding private_precedes
private_precedes_trans a b c h k =
    let l =
      precedes_trans a.creation_timestamp b.creation_timestamp c.creation_timestamp a.namespace
        b.namespace c.namespace a.name b.name c.name a.uid b.uid c.uid h k in
    (
      l,
      precedes_asymm a.creation_timestamp c.creation_timestamp a.namespace c.namespace a.name c.name
          a.uid c.uid l,
    )

-- Of two private routes with distinct UIDs, exactly one precedes the other.
pub private_precedes_total :
    (a b : CloudflareTunnelPrivateRoute)
    → a.uid ≢ b.uid
    → private_precedes b a ≡ not (private_precedes a b)
unfolding private_precedes
private_precedes_total a b differ =
    precedes_flip a.creation_timestamp b.creation_timestamp a.namespace b.namespace a.name b.name
      a.uid b.uid differ
