-- ===== src/Command.antt =====
-- cmd/main.go: from the flags to the options of the manager and the reconcilers, with
-- `validateControllerClass` and `leaderElectionID`. The parsing of the flags, the logger, the servers
-- and the manager itself are controller-runtime's and the standard library's. The steps that follow
-- are in Start.antt.
pub mod Classes
pub mod Start
use kflared.Base.{
  Bool, true, false, not, Option, none, some, List, [], ◌∷◌, ◌++◌, String, Text, bytes, text_eq,
  ◌==◌, if◌then◌else◌,
}
use kflared.Base.Int.{ℤ, pos}
use kflared.Base.Strings.{trim_space}
use kflared.Errors.{message, Result, ok, err}
use kflared.Platform.{Platform, on_result}
use kflared.Settings.{Settings}

pub record Flags : Type 0 where
  pub metrics_addr : Text
  pub probe_addr : Text
  pub system_namespace : Text
  pub controller_class : Text
  pub enable_leader_election : Bool
  pub secure_metrics : Bool
  pub webhook_cert_path : Text
  pub webhook_cert_name : Text
  pub webhook_cert_key : Text
  pub webhook_port : ℤ
  pub metrics_cert_path : Text
  pub metrics_cert_name : Text
  pub metrics_cert_key : Text
  pub enable_http2 : Bool

-- The flags that are not given, where the argument is the variable POD_NAMESPACE.
abbrev pub default_flags : Text → Flags
default_flags pod_namespace = record {
  metrics_addr = bytes "0";
  probe_addr = bytes ":8081";
  system_namespace = pod_namespace;
  controller_class = [];
  enable_leader_election = false;
  secure_metrics = true;
  webhook_cert_path = [];
  webhook_cert_name = bytes "tls.crt";
  webhook_cert_key = bytes "tls.key";
  webhook_port = pos 9443;
  metrics_cert_path = [];
  metrics_cert_name = bytes "tls.crt";
  metrics_cert_key = bytes "tls.key";
  enable_http2 = false;
}

-- The directory, the certificate and the key of a server.
pub record Certificate : Type 0 where
  pub cert_dir : Text
  pub cert_name : Text
  pub key_name : Text

-- `webhook.Options` and `metricsserver.Options`. The protocols are those that the TLS options set.
pub record WebhookOptions : Type 0 where
  pub next_protos : Option (List String)
  pub port : ℤ
  pub certificate : Option Certificate

pub record MetricsOptions : Type 0 where
  pub bind_address : Text
  pub secure_serving : Bool
  pub next_protos : Option (List String)
  pub is_filtered : Bool
  pub certificate : Option Certificate

-- `ctrl.Options`
pub record ManagerOptions : Type 0 where
  pub uncached : List String
  pub metrics : MetricsOptions
  pub webhook : WebhookOptions
  pub health_probe_bind_address : Text
  pub leader_election : Bool
  pub leader_election_id : Text

-- The manager, and the fields of the three reconcilers.
pub record Setup : Type 0 where
  pub manager : ManagerOptions
  pub provider : Settings
  pub binding : Settings
  pub private_route : Settings

unfoldable pub leader_election_id : Platform → Text → Text
leader_election_id p controller_class =
    bytes "kflared-" ++ (p.sha256_hex controller_class ++ bytes ".kodeblox.com")

unfoldable pub validate_controller_class : Text → Result (Unit {0})
validate_controller_class controller_class =
    if trim_space controller_class == []
    then err (message "--controller-class is required and must not be empty" [])
    else ok tt

-- `tlsOpts`
abbrev pub tls_protos : Flags → Option (List String)
tls_protos flags = if not flags.enable_http2 then some ("http/1.1" ∷ []) else none

abbrev pub certificate_of : Text → Text → Text → Option Certificate
certificate_of [] name key = none
certificate_of (c ∷ path) name key =
    some (record { cert_dir = c ∷ path; cert_name = name; key_name = key })

abbrev pub webhook_options : Flags → WebhookOptions
webhook_options flags = record {
  next_protos = tls_protos flags;
  port = flags.webhook_port;
  certificate =
      certificate_of flags.webhook_cert_path flags.webhook_cert_name flags.webhook_cert_key;
}

abbrev pub metrics_options : Flags → MetricsOptions
metrics_options flags = record {
  bind_address = flags.metrics_addr;
  secure_serving = flags.secure_metrics;
  next_protos = tls_protos flags;
  is_filtered = flags.secure_metrics;
  certificate =
      certificate_of flags.metrics_cert_path flags.metrics_cert_name flags.metrics_cert_key;
}

abbrev pub manager_options : Platform → Flags → ManagerOptions
manager_options p flags = record {
  uncached = "Secret" ∷ "Deployment" ∷ [];
  metrics = metrics_options flags;
  webhook = webhook_options flags;
  health_probe_bind_address = flags.probe_addr;
  leader_election = flags.enable_leader_election;
  leader_election_id = leader_election_id p flags.controller_class;
}

-- No reconciler is given an image, so that each uses the default.
abbrev pub settings_of : Flags → Settings
settings_of flags = record {
  system_namespace = flags.system_namespace;
  cloudflared_image = [];
  controller_class = flags.controller_class;
}

-- What the command sets up, or the error with which it exits.
unfoldable pub setup : Platform → Flags → Result Setup
unfolding on_result
setup p flags = on_result (validate_controller_class flags.controller_class) err λ _. ok (record {
  manager = manager_options p flags;
  provider = settings_of flags;
  binding = settings_of flags;
  private_route = settings_of flags;
})
