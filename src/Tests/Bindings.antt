-- ===== src/Tests/Bindings.antt =====
-- Runs of the search for the winners of conflicts between bindings.
use kflared.Base.{◌≡◌, ◌⊎◌, refl, not, [], bytes, text_eq, nat_eq}
use kflared.Api.{CloudflareTunnelBinding}
use kflared.Platform.{State}
use kflared.Platform.Keeps.{Obeys}
use kflared.Platform.Ends.{Broke, Closed}
use kflared.Bindings.Winners.{takes_gateway}
use kflared.Bindings.Winners.Order.{IsRival, takes_gateway_one}
use kflared.Bindings.Finalize.{finalize}
use kflared.Bindings.Finalize.Quiet.{unreleased}
use kflared.Bindings.Finalize.Cleaned.{IsRelease, finalize_cleaned}
use kflared.Tests.Full.{full}
use kflared.Bindings.Finalize.Ownership.{ending, finalize-Obeys}
use kflared.Tests.Data.{ended, differ, settings, older, newer}
use kflared.Tests.Server.{platform}

same_gateway : IsRival settings older newer
unfolding text_eq nat_eq
same_gateway = record {
  distinct = differ (bytes "u1") (bytes "u2") refl;
  class_left = refl;
  class_right = refl;
  alive_left = refl;
  alive_right = refl;
  gateway = refl;
  plain_left = (refl, refl);
  plain_right = (refl, refl);
}

takes_gateway_one_example :
    takes_gateway settings newer older ≡ not (takes_gateway settings older newer)
takes_gateway_one_example = takes_gateway_one settings older newer same_gateway

abbrev deleted_binding : State CloudflareTunnelBinding
deleted_binding = record { object = ended; log = [] }

finalize-Obeys_example : Obeys (ending ended) (finalize platform settings deleted_binding).1.log
finalize-Obeys_example = finalize-Obeys platform settings deleted_binding tt

finalize_cleaned_example :
    Broke full unreleased (finalize full settings deleted_binding)
    ⊎ Closed full unreleased
        (IsRelease full settings ended)
        (finalize full settings deleted_binding)
finalize_cleaned_example = finalize_cleaned full settings deleted_binding refl tt
