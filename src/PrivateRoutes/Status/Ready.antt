-- ===== src/PrivateRoutes/Status/Ready.antt =====
-- What the four conditions of a private route say after `status`.
use kflared.Base.{ℕ, ◌≡◌, arith, Bool, true, not, ◌&&◌, String, [], text_eq, nat_eq, ◌==◌}
use kflared.Api.{CloudflareTunnelPrivateRoute}
use kflared.Platform.{Platform}
use kflared.Conditions.{condition_true}
use kflared.Conditions.Store.{IsConditionStore, condition_true-set_condition}
use kflared.PrivateRoutes.Status.{route_status}

abbrev Route : Type 0
Route = CloudflareTunnelPrivateRoute

same_nat : (n : ℕ) → (n == n) ≡ true
same_nat n = ground arith

module _ (p : Platform) (store : IsConditionStore p) (accepted : Bool) (reason : String)
    (connector_ready : Bool) (route : Route) where
  abbrev holds : String → Bool
  holds type =
      condition_true p (route_status p accepted reason connector_ready route).conditions
        route.generation type

  -- Given that a condition that is set is found, and the others stay: after the status is
  -- computed, Accepted, Programmed and ConnectorReady are true at the current generation exactly
  -- if the route is accepted, has a Cloudflare route ID, and has its connector ready, and Ready
  -- exactly if all three are.
  pub route_status_conditions :
      (holds "Accepted" ≡ accepted)
      × (holds "Programmed" ≡ not (route.status.route_id == []))
      × (holds "ConnectorReady" ≡ connector_ready)
      × (holds "Ready" ≡ (accepted && (not (route.status.route_id == []) && connector_ready)))
  unfolding route_status
  route_status_conditions = (
    simp (condition_true-set_condition p store, same_nat) (ground arith),
    simp (condition_true-set_condition p store, same_nat) (ground arith),
    simp (condition_true-set_condition p store, same_nat) (ground arith),
    simp (condition_true-set_condition p store, same_nat) (ground arith),
  )
