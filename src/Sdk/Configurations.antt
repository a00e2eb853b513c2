-- ===== src/Sdk/Configurations.antt =====
-- The configuration that is read after one was written.
use kflared.Base.{◌≡◌, refl, ap, Option, none, some, List, [], ◌∷◌, map, Text}
use kflared.Errors.{Result, ok, err}
use kflared.Cloudflare.{Client}
use kflared.Planner.Ingress.{IngressRule}
use kflared.Sdk.{
  SdkIngress, IngressParams, answered, Api, configurations_get, configurations_update, unless_empty,
  rule_params, rule_of, get_configuration, update_configuration,
}

-- A field that was left out reads as the empty text.
abbrev pub field_of : Option Text → Text
field_of none = []
field_of (some t) = t

abbrev pub stored : IngressParams → SdkIngress
stored x = record { hostname = field_of x.hostname; service = x.service; path = field_of x.path }

-- What Cloudflare documents of a tunnel's configuration: after an update, a read returns the rules
-- that were sent, in their order.
pub record StoresRules {S : Type 0} (api : Api S) : Type 0 where
  pub reads :
      (account id : Text) (rules : List IngressParams) (s s' : S)
      → api s (configurations_update account id rules) ≡ (ok tt, s')
      → (api s' (configurations_get account id)).0 ≡ ok (map stored rules)

field_of-unless_empty : (t : Text) → field_of (unless_empty t) ≡ t
field_of-unless_empty [] = refl
field_of-unless_empty (c ∷ s) = refl

rule-kept : (rule : IngressRule) → rule_of (stored (rule_params rule)) ≡ rule
rule-kept rule = cc (field_of-unless_empty rule.hostname, field_of-unless_empty rule.path)

rules-kept : (rules : List IngressRule) → map rule_of (map stored (map rule_params rules)) ≡ rules
rules-kept [] = refl
rules-kept (rule ∷ rules) = cc (rule-kept rule, rules-kept rules)

-- What `update_configuration` makes of the answer is the answer.
same_answer :
    {S : Type 0} (r : Result (Unit {0}) × S) (s' : S)
    → ◌≡◌ {A = Result (Unit {0}) × S} (answered r.0 err ok, r.1) (ok tt, s')
    → r ≡ (ok tt, s')
same_answer (ok a, s) s' e = e
same_answer (err x, s) s' e = e

module _ {S : Type 0} (api : Api S) (client : Client) where
  update-answer :
      (id : Text) (rules : List IngressRule) (s s' : S)
      → update_configuration api client id rules s ≡ (ok tt, s')
      → api s (configurations_update client.account_id id (map rule_params rules)) ≡ (ok tt, s')
  unfolding update_configuration
  update-answer id rules s s' e =
      same_answer (api s (configurations_update client.account_id id (map rule_params rules))) s' e

  -- If the API stores rules as documented, then after a successful update of a tunnel's
  -- configuration a read of it returns the same rules: those with and without hostname and path,
  -- in their order.
  pub get-update_configuration :
      StoresRules api
      → (id : Text) (rules : List IngressRule) (s s' : S)
      → update_configuration api client id rules s ≡ (ok tt, s')
      → (get_configuration api client id s').0 ≡ ok rules
  unfolding get_configuration
  get-update_configuration stores id rules s s' e =
      rw
        (stores.reads client.account_id id (map rule_params rules) s s'
          (update-answer id rules s s' e))
        (ap ok (rules-kept rules))
