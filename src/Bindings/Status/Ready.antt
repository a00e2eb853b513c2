-- ===== src/Bindings/Status/Ready.antt =====
-- The conditions that the status patches leave.
use text.Mathlib.TextEquality.{eq_iff}
use kflared.Base.{
  ap, ℕ, ◌≡◌, refl, List, arith, Bool, true, false, not, ◌&&◌, ◌||◌, String, Text, nat_eq, ◌==◌,
  str_eq, if◌then◌else◌,
}
use kflared.Api.{Condition, CloudflareTunnelBinding, BindingStatus}
use kflared.Platform.{Platform}
use kflared.Conditions.{condition_true}
use kflared.Conditions.Store.{IsConditionStore, condition_true-set_condition}
use kflared.Bindings.Status.{Programmed, no_hostnames, ready_status, rejected_status, failed_status}

abbrev Binding : Type 0
Binding = CloudflareTunnelBinding

same_nat : (n : ℕ) → (n == n) ≡ true
same_nat n = ground arith

same_type : (s t type : String) → str_eq s t ≡ true → str_eq s type ≡ str_eq t type
same_type s t type h = ap (λ x. str_eq x type) ((eq_iff s t).0 h)

-- A test of one of two lists of conditions.
condition_true-if :
    (p : Platform) (b : Bool) (cs ds : List Condition) (g : ℕ) (t : String)
    → condition_true p (if b then cs else ds) g t
      ≡ (if b then condition_true p cs g t else condition_true p ds g t)
condition_true-if p true cs ds g t = refl
condition_true-if p false cs ds g t = refl

module _ (p : Platform) (store : IsConditionStore p) (binding : Binding) where
  abbrev pub says : BindingStatus → String → Bool
  says status type = condition_true p status.conditions binding.generation type

  -- Given that a condition that is set is found, and the others stay: after a complete run's status
  -- is computed, the binding is Accepted, and it is Programmed, ConnectorReady and
  -- DNSAutomationReady at the current generation exactly if it has a hostname, has its connector
  -- ready, and has its DNS automated or not asked for. It is Ready exactly if all of these hold.
  pub ready_status_conditions :
      (x : Programmed)
      → (says (ready_status p x binding) "Accepted" ≡ true)
        × (says (ready_status p x binding) "Programmed" ≡ not (no_hostnames x.hostnames))
        × (says (ready_status p x binding) "ConnectorReady" ≡ x.connector_ready)
        × (says (ready_status p x binding) "DNSAutomationReady"
            ≡ (x.dns_automated || not x.dns_automation_enabled))
        × (says (ready_status p x binding) "Ready" ≡ (
            not (no_hostnames x.hostnames)
            && (x.connector_ready && (x.dns_automated || not x.dns_automation_enabled))))
  unfolding ready_status
  ready_status_conditions x = (
    simp (condition_true-if p, condition_true-set_condition p store, same_nat) (ground arith),
    simp (condition_true-if p, condition_true-set_condition p store, same_nat) (ground arith),
    simp (condition_true-if p, condition_true-set_condition p store, same_nat) (ground arith),
    simp (condition_true-if p, condition_true-set_condition p store, same_nat) (ground arith),
    simp (condition_true-if p, condition_true-set_condition p store, same_nat) (ground arith),
  )

  -- Given that a condition that is set is found, and the others stay: after a rejection none of the
  -- conditions Accepted, Programmed, DNSAutomationReady and Ready is true at the current
  -- generation, ConnectorReady stays as it was, and after an operational failure neither the
  -- condition that failed nor Ready is true, while every other condition stays as it was.
  pub failure_conditions :
      (reason : String) (text : Text)
      → (says (rejected_status p reason text binding) "Accepted" ≡ false)
        × (says (rejected_status p reason text binding) "Programmed" ≡ false)
        × (says (rejected_status p reason text binding) "DNSAutomationReady" ≡ false)
        × (says (rejected_status p reason text binding) "Ready" ≡ false)
        × (says (rejected_status p reason text binding) "ConnectorReady"
            ≡ says binding.status "ConnectorReady")
        × ((failed type : String)
            → says (failed_status p failed reason text binding) type ≡ (
                if str_eq failed type || str_eq "Ready" type
                then false
                else says binding.status type))
  unfolding rejected_status failed_status
  failure_conditions reason text = (
    simp (condition_true-set_condition p store) (ground arith),
    simp (condition_true-set_condition p store) (ground arith),
    simp (condition_true-set_condition p store) (ground arith),
    simp (condition_true-set_condition p store) (ground arith),
    simp (condition_true-set_condition p store) (ground arith),
    λ failed type.
        simp (condition_true-if p, condition_true-set_condition p store)
          (ground (arith, same_type failed "Ready" type)),
  )
