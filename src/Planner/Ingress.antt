-- ===== src/Planner/Ingress.antt =====
-- `IngressRules` and `EqualIngress`, with `IngressRule` of internal/cloudflare/client.go.
use kflared.Base.{
  ◌≡◌, refl, arith, ◌↔◌, Bool, true, false, not, ◌&&◌, ◌||◌, List, [], ◌∷◌, ◌++◌, map,
}
use kflared.Base.{Text, bytes, text_eq, nat_eq, ◌==◌, contains, length, if◌then◌else◌}

pub record IngressRule : Type 0 where
  pub hostname : Text
  pub service : Text
  pub path : Text

abbrev pub not_found_service : Text
not_found_service = bytes "http_status:404"

abbrev pub host_rule : Text → Text → IngressRule
host_rule service hostname = record { hostname = hostname; service = service; path = [] }

unfoldable pub ingress_rules : List Text → Text → List IngressRule
ingress_rules hostnames origin_service =
    map (host_rule origin_service) hostnames
    ++ record { hostname = []; service = not_found_service; path = [] } ∷ []

-- Go's `==` on the struct.
abbrev pub rule_eq : IngressRule → IngressRule → Bool
rule_eq a b = a.hostname == b.hostname && (a.service == b.service && a.path == b.path)

-- The loop over the indices of two slices of one length.
equal_rules : List IngressRule → List IngressRule → Bool
equal_rules (a ∷ left) (b ∷ right) = if not (rule_eq a b) then false else equal_rules left right
equal_rules _ _ = true

unfoldable pub equal_ingress : List IngressRule → List IngressRule → Bool
unfolding equal_rules
equal_ingress left right =
    if not (length left == length right) then false else equal_rules left right

rule_eq→eq : (a b : IngressRule) → rule_eq a b ≡ true → a ≡ b
rule_eq→eq a b h = ground arith

equal_rules→eq :
    (left right : List IngressRule)
    → length left ≡ length right
    → equal_rules left right ≡ true
    → left ≡ right
unfolding equal_rules
equal_rules→eq [] [] n h = refl
equal_rules→eq [] (b ∷ right) n h = absurd (omega arith)
equal_rules→eq (a ∷ left) [] n h = absurd (omega arith)
equal_rules→eq (a ∷ left) (b ∷ right) n h =
    ground (arith, rule_eq→eq a b, equal_rules→eq left right)

rule_eq_refl : (a : IngressRule) → rule_eq a a ≡ true
rule_eq_refl a = ground arith

equal_ingress_refl : (rules : List IngressRule) → equal_rules rules rules ≡ true
unfolding equal_rules
equal_ingress_refl [] = refl
equal_ingress_refl (a ∷ rules) = ground (arith, rule_eq_refl a, equal_ingress_refl rules)

-- The comparison decides equality of the two configurations, rule by rule and in order.
pub equal_ingress_iff :
    (left right : List IngressRule) → (equal_ingress left right ≡ true) ↔ (left ≡ right)
unfolding equal_ingress
equal_ingress_iff left right = (
  (λ h. ground (arith, equal_rules→eq left right)),
  (λ e. rw e (ground (arith, equal_ingress_refl right))),
)

-- The service of the first rule whose hostname is empty or that of the request, and no service if
-- there is no such rule.
abbrev pub serve : Text → List IngressRule → Text
serve host [] = []
serve host (rule ∷ rules) =
    if rule.hostname == [] || rule.hostname == host then rule.service else serve host rules

-- Where no published hostname is empty, a published hostname is served by the origin, and any
-- other one gets the status 404.
pub serve-ingress_rules :
    (host : Text) (hostnames : List Text) (origin : Text)
    → contains [] hostnames ≡ false
    → serve host (ingress_rules hostnames origin)
      ≡ (if contains host hostnames then origin else not_found_service)
unfolding ingress_rules
serve-ingress_rules host [] origin h = ground arith
serve-ingress_rules host (x ∷ hostnames) origin h =
    ground (arith, serve-ingress_rules host hostnames origin)
