-- ===== src/Kube.antt =====
-- The Kubernetes and Gateway API objects that the controllers read or write, with the fields that
-- they use.
use kflared.Base.{ℕ, Bool, false, ◌||◌, Option, List, [], ◌∷◌, String, Text, nat_eq, ◌==◌}
use kflared.Base.Int.{ℤ}
use kflared.Api.{Condition, CloudflareTunnelBinding, CloudflareTunnelPrivateRoute}
use kflared.Api.{ClusterCloudflareProvider}

pub record NamespacedName : Type 0 where
  pub namespace : Text
  pub name : Text

pub record Namespace : Type 0 where
  pub name : Text
  pub uid : Text
  pub labels : List (Text × Text)

-- `Secret.Data`, of which the program reads one key.
pub record Secret : Type 0 where
  pub entries : List (Text × Text)

pub record ServicePort : Type 0 where
  pub name : Text
  pub port : ℤ

pub record Service : Type 0 where
  pub namespace : Text
  pub name : Text
  pub type : Text
  pub cluster_ip : Text
  pub ports : List ServicePort

pub record GrantFrom : Type 0 where
  pub group : Text
  pub kind : Text
  pub namespace : Text

pub record GrantTo : Type 0 where
  pub group : Text
  pub kind : Text
  pub name : Option Text

pub record ReferenceGrant : Type 0 where
  pub from : List GrantFrom
  pub to : List GrantTo

pub record Listener : Type 0 where
  pub name : Text
  pub protocol : Text

pub record Gateway : Type 0 where
  pub generation : ℕ
  pub class_name : Text
  pub listeners : List Listener
  pub conditions : List Condition

pub record GatewayClass : Type 0 where
  pub controller_name : Text

pub record ParentReference : Type 0 where
  pub group : Option Text
  pub kind : Option Text
  pub namespace : Option Text
  pub name : Text
  pub section_name : Option Text

pub record RouteParentStatus : Type 0 where
  pub parent_ref : ParentReference
  pub controller_name : Text
  pub conditions : List Condition

pub record HttpRoute : Type 0 where
  pub namespace : Text
  pub generation : ℕ
  pub parent_refs : List ParentReference
  pub hostnames : List Text
  pub parents : List RouteParentStatus

-- The pod that runs a connector. The fields that `connectorPodSpec` sets to constants are a
-- `PodSecurity`.
pub record PodSecurity : Type 0 where
  pub automount_token : Bool
  pub run_as_non_root : Bool
  pub user : ℕ
  pub group : ℕ
  pub fs_group : ℕ
  pub allow_privilege_escalation : Bool
  pub read_only_root_filesystem : Bool
  pub dropped_capabilities : List String

pub record PodSpec : Type 0 where
  pub security : PodSecurity
  pub image : Text
  pub args : List String
  pub metrics_port : ℕ
  pub token_secret : Text
  pub token_mode : ℕ
  pub token_read_only : Bool

abbrev pub Labels : Type 0
Labels = List (String × Text)

-- An entry of the endpoints of a DNSEndpoint.
pub record Endpoint : Type 0 where
  pub dns_name : Text
  pub record_type : String
  pub targets : List Text
  pub provider_specific : List (String × String)

-- What the controllers write into the objects that they own.
pub data ChildBody : Type 0 where
  empty : ChildBody
  -- an Opaque Secret with the entry "token"
  token_secret : Text → ChildBody
  -- replicas, selector, template labels, pod; the strategy is RollingUpdate
  connector : ℤ → Labels → Labels → PodSpec → ChildBody
  -- the endpoints of a DNSEndpoint, and the UID of the controlling owner
  dns_endpoint : List Endpoint → Text → ChildBody

pub data ChildKind : Type 0 where
  secret deployment endpoint : ChildKind

-- A Secret, Deployment or DNSEndpoint. An object that does not exist yet has no UID.
pub record Child : Type 0 where
  pub kind : ChildKind
  pub namespace : Text
  pub name : Text
  pub uid : Text
  pub labels : Labels
  pub generation : ℕ
  pub observed_generation : ℕ
  pub available_replicas : ℤ
  pub body : ChildBody

-- `client.Object`, as far as the watches look at it.
pub data Object : Type 0 where
  binding_object : CloudflareTunnelBinding → Object
  route_object : CloudflareTunnelPrivateRoute → Object
  provider_object : ClusterCloudflareProvider → Object
  gateway_class_object : Object
  gateway_object : NamespacedName → Object
  http_route_object : HttpRoute → Object
  -- the namespace of a ReferenceGrant
  grant_object : Text → Object
  service_object : NamespacedName → Object
  namespace_object : Text → Object

-- The Go types that a watch is registered for, and that of an object.
pub data Kind : Type 0 where
  binding_kind route_kind provider_kind gateway_class_kind gateway_kind http_route_kind grant_kind :
      Kind
  service_kind namespace_kind : Kind

abbrev pub kind_of : Object → Kind
kind_of (binding_object _) = binding_kind
kind_of (route_object _) = route_kind
kind_of (provider_object _) = provider_kind
kind_of gateway_class_object = gateway_class_kind
kind_of (gateway_object _) = gateway_kind
kind_of (http_route_object _) = http_route_kind
kind_of (grant_object _) = grant_kind
kind_of (service_object _) = service_kind
kind_of (namespace_object _) = namespace_kind

kind_code : Kind → ℕ
kind_code binding_kind = 0
kind_code route_kind = 1
kind_code provider_kind = 2
kind_code gateway_class_kind = 3
kind_code gateway_kind = 4
kind_code http_route_kind = 5
kind_code grant_kind = 6
kind_code service_kind = 7
kind_code namespace_kind = 8

-- Whether a kind is one of a list.
unfoldable pub is_registered : List Kind → Kind → Bool
unfolding kind_code
is_registered [] kind = false
is_registered (k ∷ kinds) kind = kind_code k == kind_code kind || is_registered kinds kind
