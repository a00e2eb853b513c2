-- ===== src/Api.antt =====
-- The types of api/v1alpha1, and of the Kubernetes and Gateway API objects that the controllers
-- read. A text field that the API server leaves out is the empty text, as in Go.
use kflared.Base.{ℕ, Bool, Option, List, String, Text}
use kflared.Base.Int.{ℤ}

pub data ConditionStatus : Type 0 where
  is_true is_false unknown : ConditionStatus

-- `metav1.Condition`, without the transition time, which the program neither sets nor reads.
pub record Condition : Type 0 where
  pub type : String
  pub status : ConditionStatus
  pub observed_generation : ℕ
  pub reason : String
  pub message : Text

-- The fields of `metav1.ObjectMeta` that the program uses. Times are in seconds, and a deletion
-- time that is not zero is `some`.
pub record ObjectMeta : Type 0 where
  pub namespace : Text
  pub name : Text
  pub uid : Text
  pub generation : ℕ
  pub creation_timestamp : ℕ
  pub deletion_timestamp : Option ℕ
  pub finalizers : List String
  pub labels : List (String × Text)

pub data DeletionPolicy : Type 0 where
  delete retain unset : DeletionPolicy

-- `intstr.IntOrString`
pub data IntOrString : Type 0 where
  int_val : ℤ → IntOrString
  str_val : Text → IntOrString

pub record GatewayReference : Type 0 where
  pub name : Text
  pub section_name : Text

-- `OriginServiceReference` and `PrivateRouteServiceReference`
pub record ServiceReference : Type 0 where
  pub name : Text
  pub namespace : Text
  pub port : IntOrString

pub record BindingSpec : Type 0 where
  pub controller : Text
  pub provider_ref : Text
  pub gateway_ref : GatewayReference
  pub origin_service_ref : ServiceReference
  pub connector_replicas : ℤ
  pub deletion_policy : DeletionPolicy
  pub dns_automation_enabled : Option Bool

pub record DnsRecord : Type 0 where
  pub hostname : Text
  pub type : String
  pub target : Text

pub record ConnectorResourceNames : Type 0 where
  pub deployment : Text
  pub secret : Text
  pub dns_endpoint : Text

pub record BindingStatus : Type 0 where
  pub observed_generation : ℕ
  pub tunnel_id : Text
  pub tunnel_name : Text
  pub tunnel_cname : Text
  pub published_hostnames : List Text
  pub dns_records : List DnsRecord
  pub resources : ConnectorResourceNames
  pub conditions : List Condition

pub record CloudflareTunnelBinding : Type 0 where
  pub metadata : ObjectMeta
  pub open metadata use *
  pub spec : BindingSpec
  pub status : BindingStatus

pub record PrivateRouteSpec : Type 0 where
  pub controller : Text
  pub provider_ref : Text
  pub service_ref : ServiceReference
  pub connector_replicas : ℤ
  pub deletion_policy : DeletionPolicy

pub record PrivateRouteStatus : Type 0 where
  pub observed_generation : ℕ
  pub tunnel_id : Text
  pub tunnel_name : Text
  pub route_id : Text
  pub network : Text
  pub resources : ConnectorResourceNames
  pub conditions : List Condition

pub record CloudflareTunnelPrivateRoute : Type 0 where
  pub metadata : ObjectMeta
  pub open metadata use *
  pub spec : PrivateRouteSpec
  pub status : PrivateRouteStatus

-- `metav1.LabelSelector`
pub record LabelRequirement : Type 0 where
  pub key : Text
  pub operator : Text
  pub values : List Text

pub record LabelSelector : Type 0 where
  pub match_labels : List (Text × Text)
  pub match_expressions : List LabelRequirement

pub record ProviderSpec : Type 0 where
  pub controller : Text
  pub account_id : Text
  pub secret_name : Text
  pub secret_key : Text
  pub allowed_dns_zones : List Text
  pub binding_namespace_selector : LabelSelector

pub record ProviderStatus : Type 0 where
  pub observed_generation : ℕ
  pub conditions : List Condition

pub record ClusterCloudflareProvider : Type 0 where
  pub metadata : ObjectMeta
  pub open metadata use *
  pub spec : ProviderSpec
  pub status : ProviderStatus
