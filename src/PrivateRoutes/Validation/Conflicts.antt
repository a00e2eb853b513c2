-- ===== src/PrivateRoutes/Validation/Conflicts.antt =====
-- Who wins a conflict over a network.
use kflared.Base.{◌≡◌, ◌≢◌, refl, sym, arith, true, false, not, Text, text_eq, ◌==◌}
use kflared.Api.{CloudflareTunnelPrivateRoute}
use kflared.PrivateRoutes.Order.{private_precedes_total}
use kflared.PrivateRoutes.Validation.{is_deleted, skips, claimed_network, conflicts_with}

abbrev Route : Type 0
Route = CloudflareTunnelPrivateRoute

-- Two routes of one provider and one class, neither of them being deleted, with distinct UIDs.
pub record IsRival (a b : Route) : Type 0 where
  pub distinct : a.uid ≢ b.uid
  pub alive_left : is_deleted a ≡ false
  pub alive_right : is_deleted b ≡ false
  pub provider : a.spec.provider_ref ≡ b.spec.provider_ref
  pub controller : a.spec.controller ≡ b.spec.controller

flip : (a b : Route) → IsRival a b → IsRival b a
flip a b d = record {
  distinct = λ e. d.distinct (sym e);
  alive_left = d.alive_right;
  alive_right = d.alive_left;
  provider = sym d.provider;
  controller = sym d.controller;
}

differs : (s t : Text) → s ≢ t → (t == s) ≡ false
differs s t n = ground arith

self_text : (s : Text) → (s == s) ≡ true
self_text s = ground arith

skips-rival : (a b : Route) → IsRival a b → skips a b ≡ false
unfolding skips
skips-rival a b d = rw (differs a.uid b.uid d.distinct) (
    rw d.alive_right (
      rw d.provider (
        rw d.controller
          (rw (self_text b.spec.provider_ref) (rw (self_text b.spec.controller) refl)))))

-- Of two rivals whose claims both are the network in question, exactly one meets a conflict in the
-- other, whatever the Services that they name.
pub conflicts_with_one :
    (a b : Route) (ns name ns' name' network : Text)
    → IsRival a b
    → claimed_network b ns name network ≡ network
    → claimed_network a ns' name' network ≡ network
    → conflicts_with b ns' name' network a ≡ not (conflicts_with a ns name network b)
unfolding conflicts_with
conflicts_with_one a b ns name ns' name' network d claim claim' = rw (skips-rival a b d) (
    rw (skips-rival b a (flip a b d)) (
      rw claim (
        rw claim' (rw (self_text network) (private_precedes_total b a (λ e. d.distinct (sym e)))))))
