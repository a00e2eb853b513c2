-- ===== src/PrivateRoutes/Finalize/Cleaned.antt =====
-- What is gone before a finalization of a private route comes to the removal of the finalizer.
use kflared.Base.{◌≡◌, ◌⊎◌, refl, arith, true, not, text_eq}
use kflared.Api.{CloudflareTunnelPrivateRoute}
use kflared.Kube.{secret, deployment}
use kflared.Platform.{Platform, Call, State, update_route}
use kflared.Platform.Gives.{Anything}
use kflared.Platform.Keeps.{Obeys}
use kflared.Platform.Ends.{Broke, Closed, Ends, Ends-here, Ends-last, Ends-if, Ends-bind}
use kflared.PrivateRoutes.Finalize.Quiet.{unreleased, clean_up-Quiet}
use kflared.Platform.Leads.{Leads, Leads-Gives, Leads-end, Leads-here, Leads-bind, Leads-then}
use kflared.Platform.Gone.{IsGone}
use kflared.Settings.{Settings, system_namespace, private_finalizer}
use kflared.Connector.{private_resource_name}
use kflared.PrivateRoutes.Status.Patches.{KeepsUid}
use kflared.PrivateRoutes.Finalize.{clean_up, finalize}
use kflared.PrivateRoutes.Finalize.Gone.{
  Same, IsRouteDone, IsTunnelDone, first_step, last_step, delete_private_child-Gone,
}

abbrev Route : Type 0
Route = CloudflareTunnelPrivateRoute

module _ (p : Platform) (r : Settings) (b : Route) where
  -- All that the object `b` had is gone, where `after` is what the patch of its status made of it.
  pub record IsWithdrawn (after : Route) : Type 0 where
    pub same : after.uid ≡ b.uid
    pub route_done : IsRouteDone p r b
    pub deployment_gone :
        IsGone p deployment
          (record { namespace = system_namespace r; name = private_resource_name b.uid })
    pub secret_gone :
        IsGone p secret
          (record { namespace = system_namespace r; name = private_resource_name b.uid })
    pub tunnel_done : IsTunnelDone p r after

  abbrev pub route_released : Route → Route
  route_released after = record after {
    metadata = record after.metadata {
      finalizers = p.remove_finalizer after.finalizers private_finalizer;
    };
  }

  -- The update of the object without the finalizer, which comes last.
  pub data IsRelease : Call → Type 0 where
    release : (after : Route) → IsWithdrawn after → IsRelease (update_route (route_released after))

module _ (p : Platform) (server : KeepsUid p) (r : Settings) (b : Route) where
  clean_up-Cleaned : Leads (Same p r b) (IsWithdrawn p r b) (clean_up p r) Anything
  unfolding clean_up
  clean_up-Cleaned = Leads-here _ λ o same. rw same (
      Leads-bind _ _ (first_step p server r b) λ _ route_done.
        Leads-then _ _ (delete_private_child-Gone p server r b deployment) λ _ deployment_gone.
          Leads-then _ _ (delete_private_child-Gone p server r b secret) λ _ secret_gone.
            Leads-here _ λ after u.
              Leads-end _ (Leads-Gives _ (last_step p server r after)) λ _ x tunnel_done is_after.
                let cleaned : IsWithdrawn p r b after = record {
                  same = u;
                  route_done = route_done;
                  deployment_gone = deployment_gone;
                  secret_gone = secret_gone;
                  tunnel_done = tunnel_done;
                } in
                (tt, rw is_after cleaned))

  finalize-Ends :
      p.contains_finalizer b.finalizers private_finalizer ≡ true
      → Ends p unreleased (Same p r b) (IsRelease p r b) (finalize p r)
  unfolding finalize
  finalize-Ends present = Ends-here _ λ o same. rw same (
      Ends-if (not (p.contains_finalizer b.finalizers private_finalizer)) _ _
        (ground (arith, present))
        (Ends-bind _ _ (clean_up-Quiet p r) clean_up-Cleaned
          λ _ _. Ends-here _ λ after cleaned. Ends-last _ (release after cleaned)))

-- For a server whose status patches keep the UID, a finalization of a private route that has its
-- finalizer ends in one of two ways. It fails, and no private route object was updated. Or its last
-- call is the update of the object without the finalizer, whose outcome is the run's; no private route
-- object was updated before; and all that is the object's is gone, as the platform's answers show. The
-- policy is to retain the Cloudflare route, or no network was recorded, or a client for the account of
-- the object's provider, which is of its controller class, found no route with the recorded ID, or
-- deleted the one it found, which has the comment of the UID, or deleted each listed route for the
-- network that has this comment. The Deployment and the Secret were each not found, or deleted after
-- they were found. Of the object as the patch of its status left it, the policy is to retain the
-- tunnel, or there is none, or it was not found, or it was deleted after it was found with the
-- recorded name. Since no call follows the update, all of this precedes it.
pub finalize_route_cleaned :
    (p : Platform) (r : Settings) (s : State Route)
    → KeepsUid p
    → p.contains_finalizer s.object.finalizers private_finalizer ≡ true
    → Obeys unreleased s.log
    → Broke p unreleased (finalize p r s)
      ⊎ Closed p unreleased (IsRelease p r s.object) (finalize p r s)
finalize_route_cleaned p r s server present quiet =
    (finalize-Ends p server r s.object present).at s quiet refl
