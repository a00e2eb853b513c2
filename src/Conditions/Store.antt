-- ===== src/Conditions/Store.antt =====
-- What apimachinery documents of its helpers for conditions: a condition that is set is found under
-- its type, and the conditions of other types stay.
use kflared.Base.{
  ℕ, ◌≡◌, arith, ◌&&◌, none, some, Option, List, String, str_eq, Text, if◌then◌else◌,
}
use kflared.Base.{nat_eq, ◌==◌}
use kflared.Api.{Condition, ConditionStatus}
use kflared.Platform.{Platform}
use kflared.Conditions.{status_is_true, set_condition, condition_true}

pub record IsConditionStore (p : Platform) : Type 0 where
  pub find-set :
      (cs : List Condition) (c : Condition) (type : String)
      → p.find_status_condition (p.set_status_condition cs c) type
        ≡ (if str_eq c.type type then some c else p.find_status_condition cs type)

module _ (p : Platform) (store : IsConditionStore p) where
  -- The test of a condition after a write: its status if it is the one written, and at the
  -- generation written.
  pub condition_true-set_condition :
      (cs : List Condition) (generation g : ℕ) (type t : String) (s : ConditionStatus)
      (reason : String) (text : Text)
      → condition_true p (set_condition p cs generation type s reason text) g t
        ≡ (if str_eq type t then (status_is_true s && generation == g) else condition_true p cs g t)
  unfolding set_condition condition_true
  condition_true-set_condition cs generation g type t s reason text = ground (
    arith,
    store.find-set cs
        (record {
          type = type;
          status = s;
          observed_generation = generation;
          reason = reason;
          message = text;
        })
        t,
  )

-- The status and the generation of the condition of a type, where there is one.
abbrev pub reading : Option Condition → Option (ConditionStatus × ℕ)
reading none = none
reading (some c) = some (c.status, c.observed_generation)

module _ (p : Platform) (store : IsConditionStore p) where
  -- What is read after a write.
  pub reading-set_condition :
      (cs : List Condition) (generation : ℕ) (type t : String) (s : ConditionStatus)
      (reason : String) (text : Text)
      → reading (p.find_status_condition (set_condition p cs generation type s reason text) t)
        ≡ (if str_eq type t then some (s, generation) else reading (p.find_status_condition cs t))
  unfolding set_condition
  reading-set_condition cs generation type t s reason text = ground (
    arith,
    store.find-set cs
        (record {
          type = type;
          status = s;
          observed_generation = generation;
          reason = reason;
          message = text;
        })
        t,
  )
