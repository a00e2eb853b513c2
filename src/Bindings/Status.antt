-- ===== src/Bindings/Status.antt =====
-- The status patches of the binding reconciler: `setReadyStatus`, `reportOperationalFailure` and
-- `rejected`.
pub mod Ready
use kflared.Base.{
  ℕ, Bool, true, false, not, ◌&&◌, ◌||◌, Option, none, some, List, [], ◌∷◌, map, String, Text,
  bytes, str_eq, if◌then◌else◌,
}
use kflared.Errors.{Err, Result, ok, err, join}
use kflared.Api.{CloudflareTunnelBinding, BindingStatus, DnsRecord, Condition}
use kflared.Api.{ConditionStatus, is_true, is_false, unknown}
use kflared.Cloudflare.{Tunnel}
use kflared.Platform.{
  Platform, M, ◌>>=◌, ◌>>◌, pure, attempt, current, assign, perform, Outcome, patch_binding,
}
use kflared.Conditions.{set_condition}

abbrev Binding : Type 0
Binding = CloudflareTunnelBinding

-- The error of a result, which is `nil` if it went well.
abbrev pub error_of : {A : Type 0} → Result A → Option Err
error_of (ok _) = none
error_of (err e) = some e

abbrev pub no_hostnames : List Text → Bool
no_hostnames [] = true
no_hostnames (_ ∷ _) = false

module _ (p : Platform) where
  -- `change` writes the status in memory; a patch that succeeds leaves the server's answer there.
  unfoldable pub patch_status : (Binding → BindingStatus) → M Binding (Unit {0})
  patch_status change = do
    base ← current
    assign (record base { status = change base })
    patched ← perform p (patch_binding base (record base { status = change base }))
    assign patched

  unfoldable pub failed_status : String → String → Text → Binding → BindingStatus
  failed_status failed_condition reason text binding =
      let cs₁ =
        set_condition p binding.status.conditions binding.generation failed_condition unknown reason
          text in
      let cs₂ =
        if not (str_eq failed_condition "Ready")
        then set_condition p cs₁ binding.generation "Ready" unknown reason text
        else cs₁ in
      record binding.status { observed_generation = binding.generation; conditions = cs₂ }

  -- The run that failed ends with the cause, joined with the error of the patch.
  unfoldable pub report_operational_failure : String → String → Text → Err → M Binding Outcome
  report_operational_failure failed_condition reason text cause = do
    patched ← attempt (patch_status (failed_status failed_condition reason text))
    pure (record { requeue_after = 0; error = join (some cause) (error_of patched) })

  unfoldable pub rejected_status : String → Text → Binding → BindingStatus
  rejected_status reason text binding =
      let set = λ (cs : List Condition) (type reason : String) (text : Text).
        set_condition p cs binding.generation type is_false reason text in
      let cs₁ = set binding.status.conditions "Accepted" reason text in
      let cs₂ = set cs₁ "Programmed" "NotAccepted" (bytes "Binding is not accepted") in
      let cs₃ = set cs₂ "DNSAutomationReady" "NotAccepted" (bytes "Binding is not accepted") in
      let cs₄ = set cs₃ "Ready" "NotAccepted" (bytes "Binding is not accepted") in
      record binding.status {
        observed_generation = binding.generation;
        published_hostnames = [];
        dns_records = [];
        resources = record binding.status.resources { dns_endpoint = [] };
        conditions = cs₄;
      }

  unfoldable pub rejected : String → Text → Option Err → M Binding Outcome
  rejected reason text cause = do
    patched ← attempt (patch_status (rejected_status reason text))
    pure (record { requeue_after = 300; error = join cause (error_of patched) })

-- The arguments of `setReadyStatus`.
pub record Programmed : Type 0 where
  pub tunnel : Tunnel
  pub cname : Text
  pub resource_name : Text
  pub hostnames : List Text
  pub connector_ready : Bool
  pub dns_automation_enabled : Bool
  pub dns_automated : Bool

abbrev pub dns_record : Text → Text → DnsRecord
dns_record cname hostname = record { hostname = hostname; type = "CNAME"; target = cname }

module _ (p : Platform) (x : Programmed) (binding : Binding) where
  abbrev set : List Condition → String → ConditionStatus → String → String → List Condition
  set cs type status reason text =
      set_condition p cs binding.generation type status reason (bytes text)

  abbrev programmed_conditions : List Condition → List Condition
  programmed_conditions cs =
      if not (no_hostnames x.hostnames)
      then set cs "Programmed" is_true "Programmed"
          "Cloudflare Tunnel configuration matches accepted HTTPRoute hostnames"
      else set cs "Programmed" is_false "NoEligibleHostnames"
          "The tunnel was deprogrammed because no eligible hostname remains"

  abbrev connector_conditions : List Condition → List Condition
  connector_conditions cs =
      if x.connector_ready
      then set cs "ConnectorReady" is_true "ConnectorReady"
          "All desired cloudflared connector replicas are available"
      else set cs "ConnectorReady" is_false "ConnectorProgressing"
          "Waiting for cloudflared connector replicas"

  abbrev dns_conditions : List Condition → List Condition
  dns_conditions cs =
      if not x.dns_automation_enabled
      then set cs "DNSAutomationReady" is_true "DNSAutomationDisabled"
          "ExternalDNS DNSEndpoint automation is disabled by spec"
      else if x.dns_automated
      then set cs "DNSAutomationReady" is_true "DNSEndpointCreated"
          "ExternalDNS automation resource is present"
      else set cs "DNSAutomationReady" is_false "ManualConfigurationRequired"
          "Create the CNAME records listed in status.dnsRecords"

  abbrev ready_conditions : List Condition → List Condition
  ready_conditions cs =
      if not (no_hostnames x.hostnames)
        && (x.connector_ready && (x.dns_automated || not x.dns_automation_enabled))
      then set cs "Ready" is_true "Ready" "Tunnel and connectors are ready"
      else set cs "Ready" is_false "DependenciesNotReady"
          "Connector availability or DNS automation is incomplete"

  unfoldable pub ready_status : BindingStatus
  ready_status =
      let cs₁ =
        set binding.status.conditions "Accepted" is_true "Accepted"
          "Binding configuration and ownership are valid" in
      record {
        observed_generation = binding.generation;
        tunnel_id = x.tunnel.id;
        tunnel_name = x.tunnel.name;
        tunnel_cname = x.cname;
        published_hostnames = x.hostnames;
        dns_records = if x.dns_automation_enabled then map (dns_record x.cname) x.hostnames else [];
        resources = record {
          deployment = x.resource_name;
          secret = x.resource_name;
          dns_endpoint =
              if x.dns_automation_enabled && x.dns_automated then x.resource_name else [];
        };
        conditions =
            ready_conditions (dns_conditions (connector_conditions (programmed_conditions cs₁)));
      }

unfoldable pub set_ready_status : Platform → Programmed → M Binding (Unit {0})
set_ready_status p x = patch_status p (ready_status p x)
