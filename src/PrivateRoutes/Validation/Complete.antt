-- ===== src/PrivateRoutes/Validation/Complete.antt =====
-- `validate` accepts every private route that it may.
use kflared.Base.{
  ◌≡◌, ◌↔◌, refl, ap, ◌∙◌, arith, inl, inr, Bool, true, false, List, [], ◌∷◌, Text, text_eq, ◌==◌,
  All, Bool-cases,
}
use kflared.Errors.{Result, ok}
use kflared.Api.{CloudflareTunnelPrivateRoute, ClusterCloudflareProvider}
use kflared.Platform.{
  Platform, Call, Reply, History, State, ◌>>=◌, perform, on_result, on_option, get_provider,
  get_namespace, get_service, list_grants, list_routes,
}
use kflared.Platform.Gives.{Once}
use kflared.References.{private_service_namespace}
use kflared.PrivateRoutes.Validation.{
  Validation, valid, conflicts_with, any_conflict, private_route_conflicts, validate_address,
  check_service, validate_service, validate_target, validate_namespace, check_provider, validate,
}
use kflared.PrivateRoutes.Validation.Acceptable.{Always, IsReachable, IsPermitted, IsAcceptable}
use kflared.PrivateRoutes.Validation.Accepted.{validate_accepted}

abbrev Route : Type 0
Route = CloudflareTunnelPrivateRoute

none-any_conflict :
    (route : Route) (ns name network : Text) (others : List Route)
    → All (λ other. conflicts_with route ns name network other ≡ false) others
    → any_conflict route ns name network others ≡ false
unfolding any_conflict
none-any_conflict route ns name network [] a = refl
none-any_conflict route ns name network (other ∷ others) a =
    rw a.0 (none-any_conflict route ns name network others a.1)

equal_texts : {s t : Text} → s ≡ t → (s == t) ≡ true
equal_texts {s} {t} e = ground arith

self_text : (s : Text) → (s == s) ≡ true
self_text s = ground arith

module _ (p : Platform) (route : Route) (provider : ClusterCloudflareProvider)
    (network : Text) where
  reachable-service :
      IsReachable p (Always p) route network
      → (s : State Route)
      → (validate_service p route provider (private_service_namespace route) s).0
        ≡ ok (valid provider network)
  unfolding validate_service check_service validate_address private_route_conflicts perform ◌>>=◌
      on_result on_option
  reachable-service x s = rw (x.found s.log) (
      rw x.cluster_ip (
        rw x.parsed (
          rw x.specified (
            rw x.resolved (
              rw (x.listed _)
                (rw x.named (rw (none-any_conflict route _ _ network x.others x.free) refl)))))))

  permitted-target :
      IsPermitted p (Always p) route
      → IsReachable p (Always p) route network
      → (s : State Route)
      → (validate_target p route provider (private_service_namespace route) s).0
        ≡ ok (valid provider network)
  unfolding validate_target perform ◌>>=◌
  permitted-target permitted x s =
      elim (Bool-cases (private_service_namespace route == route.namespace)) [
        | inl here ↦ rw here (reachable-service x s)
        | inr elsewhere ↦ elim permitted [
          | inl same ↦ absurd (ground (arith, self_text route.namespace, rw same at elsewhere))
          | inr (grants, listed, permits) ↦
              rw elsewhere (rw (listed s.log) (rw permits (reachable-service x _)))
        ]
      ]

  -- Where each answer shows that the route may be accepted, the validation accepts it.
  pub acceptable-validate :
      IsAcceptable p (Always p) route provider network
      → (s : State Route) → (validate p route s).0 ≡ ok (valid provider network)
  unfolding validate check_provider validate_namespace perform ◌>>=◌ on_result
  acceptable-validate x s = rw (x.found s.log) (
      rw (equal_texts x.controller) (
        rw x.accepted (
          rw x.credentials_valid (
            rw (x.selected.found _)
              (rw x.selected.selected (permitted-target x.permitted x.reachable _))))))

-- The calls that change nothing.
abbrev pub is_read : Call → Bool
is_read (get_provider _) = true
is_read (get_namespace _) = true
is_read (get_service _) = true
is_read (list_grants _) = true
is_read list_routes = true
is_read _ = false

-- While nobody changes these objects, a read is answered the same each time.
pub record IsQuiet (p : Platform) : Type 0 where
  pub same : (c : Call) → is_read c ≡ true → (h h' : History) → p.answer h c ≡ p.answer h' c

always :
    (p : Platform)
    → IsQuiet p
    → (c : Call) (v : Reply c) → is_read c ≡ true
    → Once p c v
    → Always p c v
always p quiet c v read (h, e) h' = quiet.same c read h' h ∙ e

module _ (p : Platform) (quiet : IsQuiet p) (route : Route) (provider : ClusterCloudflareProvider)
    (network : Text) where
  still_permitted : IsPermitted p (Once p) route → IsPermitted p (Always p) route
  still_permitted (inl same) = inl same
  still_permitted (inr (grants, listed, permits)) = inr (
    grants,
    always p quiet (list_grants (private_service_namespace route)) grants refl listed,
    permits,
  )

  still_accepted :
      IsAcceptable p (Once p) route provider network
      → IsAcceptable p (Always p) route provider network
  still_accepted x = record {
    found = always p quiet (get_provider route.spec.provider_ref) provider refl x.found;
    controller = x.controller;
    accepted = x.accepted;
    credentials_valid = x.credentials_valid;
    selected = record {
      ns = x.selected.ns;
      found = always p quiet (get_namespace route.namespace) x.selected.ns refl x.selected.found;
      selected = x.selected.selected;
    };
    permitted = still_permitted x.permitted;
    reachable = record {
      service = x.reachable.service;
      ip = x.reachable.ip;
      port = x.reachable.port;
      others = x.reachable.others;
      found = always p quiet (get_service _) x.reachable.service refl x.reachable.found;
      cluster_ip = x.reachable.cluster_ip;
      parsed = x.reachable.parsed;
      specified = x.reachable.specified;
      resolved = x.reachable.resolved;
      listed = always p quiet list_routes x.reachable.others refl x.reachable.listed;
      free = x.reachable.free;
      named = x.reachable.named;
    };
  }

  -- While reads are answered the same each time, the validation accepts a private route with this
  -- provider and this network exactly if the answers show that it may: the provider exists, is of the
  -- route's controller class, is accepted and has valid credentials, and selects the route's
  -- namespace; the Service is in that namespace, or a ReferenceGrant permits it; it exists with the
  -- port, is of type ClusterIP, and has an IPv4 address that is specified, whose host is the network;
  -- and none of the listed routes is in conflict over it.
  pub validate_iff :
      (s : State Route)
      → ((validate p route s).0 ≡ ok (valid provider network))
        ↔ IsAcceptable p (Once p) route provider network
  validate_iff s = (
    λ e.
        validate_accepted p route provider network s (validate p route s).1
          (ap (λ (v : Result Validation). (v, (validate p route s).1)) e),
    λ x. acceptable-validate p route provider network (still_accepted x) s,
  )
