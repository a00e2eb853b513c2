-- ===== src/PrivateRoutes/Reconcile/Ownership.antt =====
-- Ownership over a whole run of `reconcile`.
use kflared.Base.{
  ◌≡◌, refl, sym, arith, Bool, true, not, Option, none, some, [], ◌∷◌, ◌++◌, String, Text, bytes,
  take, text_eq, nat_eq, if◌then◌else◌, Bool-cases, inl, inr,
}
use mathlib.Core.List.{append_assoc}
use kflared.Base.Strings.{has_prefix, has_suffix}
use kflared.Api.{CloudflareTunnelPrivateRoute, PrivateRouteStatus, ClusterCloudflareProvider}
use kflared.Cloudflare.{Client, Tunnel, PrivateRoute}
use kflared.Kube.{ChildKind, ChildBody}
use kflared.Platform.{
  Platform, History, State, M, ◌>>=◌, pure, attempt, perform, Outcome, outcome_of, create_tunnel,
  update_route,
}
use kflared.Platform.Keeps.{Obeys, Keeps, keeps_rules, Keeps-perform}
use kflared.Settings.{Settings, private_finalizer}
use kflared.PrivateRoutes.Validation.{Validation, rejected, valid, is_deleted, validate}
use kflared.PrivateRoutes.Status.{private_tunnel_name, patch_status, status, read_api_token, api}
use kflared.PrivateRoutes.Status.Patches.{KeepsUid, KeepsTunnelName, HasUid, patch_status-Keeps}
use kflared.PrivateRoutes.Routes.{
  note_created, create_route, record_network, adopt_first, adopt_or_create, check_known,
  ensure_route, delete_route, remove_route,
}
use kflared.PrivateRoutes.Validation.Ownership.{validate-Owns}
use kflared.PrivateRoutes.Owned.{owned_only, is_named_for}
use kflared.PrivateRoutes.Routes.Ownership.{delete_route-Keeps, create_route-Keeps}
use kflared.PrivateRoutes.Connectors.Ownership.{write_child-Keeps}
use kflared.PrivateRoutes.Tunnels.{drop_lost_tunnel, known_tunnel, find_or_create, ensure_tunnel}
use kflared.PrivateRoutes.Finalize.Ownership.{finalize-Tends}
use kflared.PrivateRoutes.Connectors.{write_child, ensure_connector}
use kflared.PrivateRoutes.Reconcile.{
  leave_old_network, program, withdraw, by_validation, reconcile_owned,
}

abbrev Route : Type 0
Route = CloudflareTunnelPrivateRoute

-- The update of a route that has no finalizer.
add_finalizer : Platform → Settings → Route → M Route Outcome
add_finalizer p r route = do
  updated ← attempt (
      perform p (
        update_route (record route {
          metadata = record route.metadata {
            finalizers = p.add_finalizer route.finalizers private_finalizer;
          };
        })))
  pure (outcome_of 0 updated)

has_suffix-append : (s t : Text) → has_suffix (s ++ t) t ≡ true
unfolding has_suffix text_eq
has_suffix-append [] [] = refl
has_suffix-append [] (c ∷ t) = ground arith
has_suffix-append (c ∷ s) t = ground (arith, has_suffix-append s t)

-- The name that the controller gives to a tunnel is one for the route's UID.
named_for :
    (p : Platform) (uid cluster : Text)
    → is_named_for uid (private_tunnel_name p cluster uid) ≡ true
unfolding private_tunnel_name has_prefix nat_eq
named_for p uid cluster =
    let digits = take 8 (p.sha256_hex cluster) in
    rw (sym (append_assoc (bytes "kflared-private-") digits (bytes "-" ++ uid)))
      (has_suffix-append (bytes "kflared-private-" ++ digits) (bytes "-" ++ uid))

module _ (p : Platform) (server : KeepsUid p) (uid name : Text) where
  abbrev Owns : {A : Type 0} → M Route A → Type 0
  Owns m = Keeps (owned_only uid name) (HasUid uid) m

  of_uid : (o : Route) → HasUid uid o → HasUid uid o
  of_uid o u = u

  patch-Owns : (change : Route → PrivateRouteStatus) → Owns (patch_status p change)
  patch-Owns change =
      patch_status-Keeps p server uid (owned_only uid name) (λ base next h. refl) change

  status-Owns :
      (accepted : Bool) (reason : String) (ready : Bool) → Owns (status p accepted reason ready)
  unfolding status
  status-Owns accepted reason ready = patch-Owns _

  always : (h : History) → Path Bool true true
  always h = refl

  api-Owns : (r : Settings) (provider : ClusterCloudflareProvider) → Owns (api p r provider)
  unfolding api read_api_token
  api-Owns r provider = search (keeps_rules, always)

  note_created-Owns :
      (t : Tunnel) (n : Text) (route : Route) (o : Option PrivateRoute)
      → Owns (note_created p t n route o)
  unfolding note_created
  note_created-Owns t n route none = search keeps_rules
  note_created-Owns t n route (some c) = search (keeps_rules, patch-Owns)

  create_route-Owns : (client : Client) (t : Tunnel) (n : Text) → Owns (create_route p client t n)
  create_route-Owns client t n =
      create_route-Keeps p uid name (HasUid uid) of_uid client t n (note_created-Owns t n)

  record_network-Owns : (n : Text) → Owns (record_network p n)
  unfolding record_network
  record_network-Owns n = search (keeps_rules, patch-Owns)

  adopt_first-Owns :
      (client : Client) (t : Tunnel) (n : Text) (route : Route) (o : Option PrivateRoute)
      → Owns (adopt_first p client t n route o)
  unfolding adopt_first
  adopt_first-Owns client t n route none =
      search (keeps_rules, record_network-Owns, create_route-Owns)
  adopt_first-Owns client t n route (some c) = search (keeps_rules, patch-Owns)

  adopt_or_create-Owns :
      (client : Client) (t : Tunnel) (n : Text) → Owns (adopt_or_create p client t n)
  unfolding adopt_or_create
  adopt_or_create-Owns client t n = search (keeps_rules, adopt_first-Owns, always)

  check_known-Owns :
      (client : Client) (t : Tunnel) (n : Text) (route : Route) (o : Option PrivateRoute)
      → Owns (check_known p client t n route o)
  unfolding check_known
  check_known-Owns client t n route none = search (keeps_rules, patch-Owns, adopt_or_create-Owns)
  check_known-Owns client t n route (some c) = search keeps_rules

  ensure_route-Owns : (client : Client) (t : Tunnel) (n : Text) → Owns (ensure_route p client t n)
  unfolding ensure_route
  ensure_route-Owns client t n =
      search (keeps_rules, adopt_or_create-Owns, check_known-Owns, always)

  delete-Owns : (client : Client) → Owns (delete_route p client)
  delete-Owns = delete_route-Keeps p uid name (HasUid uid) of_uid

  create_tunnel-Owns :
      (client : Client) (n : Text)
      → is_named_for uid n ≡ true
      → Owns {A = Tunnel} (perform p (create_tunnel client n))
  create_tunnel-Owns client n ours = Keeps-perform p (create_tunnel client n) (λ h. ours)

  ruleset owns_rules =
      (keeps_rules, always, patch-Owns, status-Owns, api-Owns, delete-Owns, create_tunnel-Owns)

  remove_route-Owns : (r : Settings) → Owns (remove_route p r)
  unfolding remove_route
  remove_route-Owns r = search owns_rules depth 9

  drop_lost_tunnel-Owns : (client : Client) → Owns (drop_lost_tunnel p client)
  unfolding drop_lost_tunnel
  drop_lost_tunnel-Owns client = search owns_rules

  known_tunnel-Owns : (client : Client) → Owns (known_tunnel p client)
  unfolding known_tunnel
  known_tunnel-Owns client = search (owns_rules, drop_lost_tunnel-Owns) depth 9

  find_or_create-Owns :
      (client : Client) (n : Text) (o : Option Tunnel)
      → is_named_for uid n ≡ true
      → Owns (find_or_create p client n o)
  unfolding find_or_create
  find_or_create-Owns client n none ours = search owns_rules
  find_or_create-Owns client n (some t) ours = search owns_rules

  ensure_tunnel-Owns :
      (client : Client) (n : Text) → is_named_for uid n ≡ true → Owns (ensure_tunnel p client n)
  unfolding ensure_tunnel
  ensure_tunnel-Owns client n ours =
      search (owns_rules, known_tunnel-Owns, find_or_create-Owns) depth 9

  write_child-Owns : (r : Settings) (k : ChildKind) (b : ChildBody) → Owns (write_child p r k b)
  write_child-Owns r k b = write_child-Keeps p uid name (HasUid uid) of_uid r k b

  ensure_connector-Owns : (r : Settings) (token : Text) → Owns (ensure_connector p r token)
  unfolding ensure_connector
  ensure_connector-Owns r token = search (owns_rules, write_child-Owns) depth 9

  leave_old_network-Owns :
      (r : Settings) (client : Client) (n : Text) → Owns (leave_old_network p r client n)
  unfolding leave_old_network
  leave_old_network-Owns r client n = search owns_rules depth 9

  own_name :
      (cluster : Text) (route : Route)
      → HasUid uid route
      → is_named_for uid (private_tunnel_name p cluster route.uid) ≡ true
  own_name cluster route u = rw u (named_for p uid cluster)

  program-Owns :
      (r : Settings) (provider : ClusterCloudflareProvider) (n : Text)
      → Owns (program p r provider n)
  unfolding program
  program-Owns r provider n =
      search
        (
          owns_rules, own_name, ensure_tunnel-Owns, leave_old_network-Owns, ensure_route-Owns,
          ensure_connector-Owns,
        )
        depth 15

  withdraw-Owns : (r : Settings) (reason : String) → Owns (withdraw p r reason)
  unfolding withdraw
  withdraw-Owns r reason = search (owns_rules, remove_route-Owns) depth 9

  by_validation-Owns : (r : Settings) (v : Validation) → Owns (by_validation p r v)
  unfolding by_validation
  by_validation-Owns r (rejected reason) = withdraw-Owns r reason
  by_validation-Owns r (valid provider n) = program-Owns r provider n

  -- The run of a route that is not being deleted.
  alive-Owns :
      (r : Settings) (route : Route)
      → Owns (
          if not (p.contains_finalizer route.finalizers private_finalizer)
          then add_finalizer p r route
          else validate p route >>= by_validation p r)
  unfolding add_finalizer
  alive-Owns r route = search (owns_rules, validate-Owns p uid name, by_validation-Owns) depth 12

-- For a server whose status patches keep the UID and the tunnel's name that were sent, and from a
-- history that already obeys them, a run over a route of this controller's class obeys the following
-- rules, each with the UID of the object. A Cloudflare route is deleted only if an answer before shows
-- a route with its ID and the UID's comment, and created only with that comment. A tunnel is deleted
-- only if an answer before shows a tunnel with its ID that is configured remotely and has the name of
-- the tunnel that the object recorded when the run started, and created only with a name that begins
-- with the controller's prefix and ends with the UID. A Secret or Deployment is deleted only if it is
-- new or labelled with the UID, and written only with that label, where an answer before shows the
-- object new or so labelled.
pub reconcile_owned-Obeys :
    (p : Platform)
    → KeepsUid p
    → KeepsTunnelName p
    → (r : Settings) (s : State Route)
    → Obeys (owned_only s.object.uid s.object.status.tunnel_name) s.log
    → Obeys (owned_only s.object.uid s.object.status.tunnel_name) (reconcile_owned p r s).1.log
unfolding reconcile_owned add_finalizer ◌>>=◌
reconcile_owned-Obeys p server keeper r s o =
    let uid = s.object.uid in
    let name = s.object.status.tunnel_name in
    elim (Bool-cases (is_deleted s.object)) [
      | inl deleted ↦
          rw deleted
            ((finalize-Tends p server keeper uid name r).at s
              (record { obeys = o; holds = (refl, refl) })).obeys
      | inr alive ↦
          rw alive
            ((alive-Owns p server uid name r s.object).at s
              (record { obeys = o; holds = refl })).obeys
    ]
