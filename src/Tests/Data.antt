-- ===== src/Tests/Data.antt =====
-- Objects of the API with the texts that the tests give them, and every other field empty.
use kflared.Base.{
  ◌≡◌, ◌≢◌, false, text_eq, ◌==◌, arith, ℕ, Option, none, some, List, [], ◌∷◌, String, Text, bytes,
}
use kflared.Base.Int.{pos}
use kflared.Api.{ObjectMeta, CloudflareTunnelBinding, CloudflareTunnelPrivateRoute}
use kflared.Api.{ClusterCloudflareProvider}
use kflared.Api.{ServiceReference, int_val, delete, ConnectorResourceNames}
use kflared.Kube.{Child, ChildKind, empty, Labels}
use kflared.Cloudflare.{Tunnel, Client, config_source_cloudflare, PrivateRoute}
use kflared.Settings.{binding_finalizer, Settings, private_finalizer, cluster_provider_finalizer}

abbrev pub meta_of : String → String → String → ℕ → List String → Option ℕ → ObjectMeta
meta_of namespace name uid created finalizers deleted = record {
  namespace = bytes namespace;
  name = bytes name;
  uid = bytes uid;
  generation = 1;
  creation_timestamp = created;
  deletion_timestamp = deleted;
  finalizers = finalizers;
  labels = [];
}

abbrev no_resources : ConnectorResourceNames
no_resources = record { deployment = []; secret = []; dns_endpoint = [] }

abbrev web_service : ServiceReference
web_service = record { name = bytes "web"; namespace = []; port = int_val (pos 80) }

abbrev pub binding_of : String → String → String → ℕ → CloudflareTunnelBinding
binding_of namespace name uid created = record {
  metadata = meta_of namespace name uid created [] none;
  spec = record {
    controller = bytes "class";
    provider_ref = bytes "provider";
    gateway_ref = record { name = bytes "edge"; section_name = bytes "http" };
    origin_service_ref = web_service;
    connector_replicas = pos 2;
    deletion_policy = delete;
    dns_automation_enabled = none;
  };
  status = record {
    observed_generation = 0;
    tunnel_id = [];
    tunnel_name = [];
    tunnel_cname = [];
    published_hostnames = [];
    dns_records = [];
    resources = no_resources;
    conditions = [];
  };
}

abbrev pub route_of : String → String → String → ℕ → Option ℕ → CloudflareTunnelPrivateRoute
route_of namespace name uid created deleted = record {
  metadata = meta_of namespace name uid created (private_finalizer ∷ []) deleted;
  spec = record {
    controller = bytes "class";
    provider_ref = bytes "provider";
    service_ref = web_service;
    connector_replicas = pos 2;
    deletion_policy = delete;
  };
  status = record {
    observed_generation = 0;
    tunnel_id = [];
    tunnel_name = [];
    route_id = bytes "cf-route";
    network = bytes "10.0.0.1/32";
    resources = no_resources;
    conditions = [];
  };
}

abbrev pub provider : ClusterCloudflareProvider
provider = record {
  metadata = meta_of "" "provider" "provider-uid" 1 (cluster_provider_finalizer ∷ []) (some 9);
  spec = record {
    controller = bytes "class";
    account_id = bytes "account";
    secret_name = bytes "credentials";
    secret_key = bytes "token";
    allowed_dns_zones = bytes "example.com" ∷ [];
    binding_namespace_selector = record { match_labels = []; match_expressions = [] };
  };
  status = record { observed_generation = 0; conditions = [] };
}

abbrev pub settings : Settings
settings = record {
  system_namespace = [];
  cloudflared_image = [];
  controller_class = bytes "class";
}

abbrev pub owned_route : PrivateRoute
owned_route = record {
  id = bytes "cf-route";
  network = bytes "10.0.0.1/32";
  tunnel_id = bytes "tunnel";
  comment = bytes "kflared private route UID=u1";
  virtual_network_id = [];
}

abbrev pub tunnel_named : Text → Tunnel
tunnel_named name = record {
  id = bytes "tunnel";
  name = name;
  config_source = config_source_cloudflare;
  status = [];
}

abbrev pub client : Client
client = record { api_token = bytes "secret"; account_id = bytes "account" }

abbrev pub child_of : ChildKind → String → Labels → Child
child_of kind uid labels = record {
  kind = kind;
  namespace = bytes "kflared";
  name = bytes "child";
  uid = bytes uid;
  labels = labels;
  generation = 1;
  observed_generation = 1;
  available_replicas = pos 1;
  body = empty;
}

abbrev pub older : CloudflareTunnelBinding
older = binding_of "a" "first" "u1" 5

abbrev pub newer : CloudflareTunnelBinding
newer = binding_of "a" "second" "u2" 7

abbrev pub newest : CloudflareTunnelBinding
newest = binding_of "b" "third" "u3" 7

abbrev pub route_one : CloudflareTunnelPrivateRoute
route_one = route_of "a" "one" "u1" 5 (some 9)

abbrev pub route_two : CloudflareTunnelPrivateRoute
route_two = route_of "a" "two" "u2" 5 none

abbrev pub route_three : CloudflareTunnelPrivateRoute
route_three = route_of "b" "one" "u3" 5 none

pub differ : (s t : Text) → (s == t) ≡ false → s ≢ t
differ s t h e = ground arith

abbrev pub published : CloudflareTunnelBinding
published = record older {
  status = record older.status { published_hostnames = bytes "www.example.com" ∷ [] };
}

abbrev pub ended : CloudflareTunnelBinding
ended = record older {
  metadata = record older.metadata {
    finalizers = binding_finalizer ∷ [];
    deletion_timestamp = some 9;
  };
  status = record older.status { tunnel_id = bytes "tunnel" };
}
