-- ===== src/PrivateRoutes/Validation/Acceptable.antt =====
-- What makes a private route acceptable, as far as answers show it.
use kflared.Base.{◌≡◌, arith, ◌⊎◌, ℕ, true, false, some, List, [], ◌∷◌, Text, text_eq, All}
use kflared.Base.Int.{ℤ}
use kflared.Errors.{ok}
use kflared.Api.{CloudflareTunnelPrivateRoute, ClusterCloudflareProvider}
use kflared.Kube.{Service, ReferenceGrant, Namespace}
use kflared.Platform.{
  Platform, Call, Reply, History, get_provider, get_namespace, get_service, list_grants,
  list_routes,
}
use kflared.Platform.Chains.{}
use kflared.Conditions.{condition_true}
use kflared.References.{private_service_namespace, resolve_service_port}
use kflared.Addresses.{parse_ipv4, is_unspecified, host_prefix}
use kflared.PrivateRoutes.Validation.{
  any_grant_permits, conflicts_with, any_conflict, is_cluster_ip, selects_namespace,
}

abbrev Route : Type 0
Route = CloudflareTunnelPrivateRoute

abbrev Provider : Type 0
Provider = ClusterCloudflareProvider

-- What is known of answers: some answer to a call was this one, or each is.
abbrev pub Knowledge : Type 1
Knowledge = (c : Call) → Reply c → Type 0

abbrev pub Always : Platform → Knowledge
Always p c v = (h : History) → p.answer h c ≡ ok v

module _ (p : Platform) (Sees : Knowledge) (route : Route) where
  abbrev target : Text
  target = private_service_namespace route

  -- The Service exists with the port, is of type ClusterIP with an IPv4 address, whose host is the
  -- network, and none of the listed routes is in conflict over it.
  pub record IsReachable (network : Text) : Type 0 where
    pub service : Service
    pub ip : List ℕ
    pub port : ℤ
    pub others : List Route
    pub found :
        Sees
          (get_service (record { namespace = target; name = route.spec.service_ref.name }))
          service
    pub cluster_ip : is_cluster_ip p service ≡ true
    pub parsed : parse_ipv4 service.cluster_ip ≡ some ip
    pub specified : is_unspecified ip ≡ false
    pub resolved : resolve_service_port service route.spec.service_ref.port ≡ ok port
    pub listed : Sees list_routes others
    pub free : All (λ other. conflicts_with route target service.name network other ≡ false) others
    pub named : host_prefix ip ≡ network

  -- The Service is in the route's namespace, or a ReferenceGrant in its own one permits it.
  abbrev pub IsPermitted : Type 0
  IsPermitted =
      (target ≡ route.namespace)
      ⊎ ((grants : List ReferenceGrant) × Sees (list_grants target) grants
          × (any_grant_permits grants route ≡ true))

  pub record IsSelected (provider : Provider) : Type 0 where
    pub ns : Namespace
    pub found : Sees (get_namespace route.namespace) ns
    pub selected : selects_namespace p provider ns ≡ true

  pub record IsAcceptable (provider : Provider) (network : Text) : Type 0 where
    pub found : Sees (get_provider route.spec.provider_ref) provider
    pub controller : provider.spec.controller ≡ route.spec.controller
    pub accepted : condition_true p provider.status.conditions provider.generation "Accepted" ≡ true
    pub credentials_valid :
        condition_true p provider.status.conditions provider.generation "CredentialsValid" ≡ true
    pub selected : IsSelected provider
    pub permitted : IsPermitted
    pub reachable : IsReachable network

pub any_conflict-none :
    (route : Route) (ns name network : Text) (others : List Route)
    → any_conflict route ns name network others ≡ false
    → All (λ other. conflicts_with route ns name network other ≡ false) others
unfolding any_conflict
any_conflict-none route ns name network [] e = tt
any_conflict-none route ns name network (other ∷ others) e =
    (ground arith, any_conflict-none route ns name network others (ground arith))
