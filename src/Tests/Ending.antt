-- ===== src/Tests/Ending.antt =====
-- A finalization of a private route of which everything is still there.
use kflared.Base.{◌⊎◌, refl, arith, [], ◌∷◌, some, bytes}
use kflared.Errors.{Result, ok}
use kflared.Api.{CloudflareTunnelPrivateRoute}
use kflared.Connector.{private_uid_label}
use kflared.Platform.{
  Platform, Call, Reply, State, get_private_route, get_tunnel, get_child, delete_private_route,
  update_route,
}
use kflared.Platform.Ends.{Broke, Closed}
use kflared.PrivateRoutes.Status.Patches.{KeepsUid}
use kflared.PrivateRoutes.Finalize.{finalize}
use kflared.PrivateRoutes.Finalize.Quiet.{unreleased}
use kflared.PrivateRoutes.Finalize.Cleaned.{IsRelease, finalize_route_cleaned}
use kflared.Tests.Data.{settings, child_of, tunnel_named}
use kflared.Tests.Full.{full, full_answer, routing}

abbrev ending_answer : (c : Call) → Result (Reply c)
ending_answer (get_private_route _ id) = ok (
    some (record {
      id = id;
      network = bytes "10.0.0.1/32";
      tunnel_id = bytes "tunnel";
      comment = bytes "kflared private route UID=u3";
      virtual_network_id = [];
    }))
ending_answer (delete_private_route _ _) = ok tt
ending_answer (get_tunnel _ _) = ok (some (tunnel_named (bytes "kflared-private")))
ending_answer (get_child kind _) = ok (child_of kind "child" ((private_uid_label, bytes "u3") ∷ []))
ending_answer (update_route _) = ok tt
ending_answer c = full_answer c

abbrev ending : Platform
ending = record full { answer = λ h. ending_answer }

ending-KeepsUid : KeepsUid ending
ending-KeepsUid = record { same = λ h base next e. ground arith }

abbrev programmed : State CloudflareTunnelPrivateRoute
programmed = record {
  object = record routing.object {
    status = record routing.object.status {
      tunnel_id = bytes "tunnel";
      tunnel_name = bytes "kflared-private";
      route_id = bytes "cf-route";
      network = bytes "10.0.0.1/32";
    };
  };
  log = [];
}

finalize_route_cleaned_example :
    Broke ending unreleased (finalize ending settings programmed)
    ⊎ Closed ending unreleased
        (IsRelease ending settings programmed.object)
        (finalize ending settings programmed)
finalize_route_cleaned_example =
    finalize_route_cleaned ending settings programmed ending-KeepsUid refl tt
