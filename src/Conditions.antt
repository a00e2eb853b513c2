-- ===== src/Conditions.antt =====
-- internal/controller/conditions.go
pub mod Store
use kflared.Base.{ℕ, Bool, true, false, ◌&&◌, Option, none, some, List, String, Text, nat_eq, ◌==◌}
use kflared.Api.{Condition, ConditionStatus, is_true, is_false, unknown}
use kflared.Platform.{Platform}

abbrev pub status_is_true : ConditionStatus → Bool
status_is_true is_true = true
status_is_true _ = false

abbrev pub status_is_false : ConditionStatus → Bool
status_is_false is_false = true
status_is_false _ = false

module _ (p : Platform) where
  unfoldable pub set_condition :
      List Condition → ℕ → String → ConditionStatus → String → Text → List Condition
  set_condition conditions generation type status reason message =
      p.set_status_condition conditions (record {
        type = type;
        status = status;
        observed_generation = generation;
        reason = reason;
        message = message;
      })

  unfoldable pub condition_true : List Condition → ℕ → String → Bool
  condition_true conditions generation type = elim (p.find_status_condition conditions type) [
    | none ↦ false
    | some c ↦ status_is_true c.status && c.observed_generation == generation
  ]
