-- ===== src/Bindings/Validation.antt =====
-- `validateAndPlan` and `validateClusterProvider`
pub mod Proceeds
pub mod Providers
pub mod Origins
pub mod Plans
pub mod Rejections
use kflared.Base.{
  Bool, false, not, ◌&&◌, ◌||◌, Option, none, some, List, [], ◌++◌, String, Text, bytes, text_eq,
  nat_eq, ◌==◌, if◌then◌else◌,
}
use kflared.Errors.{wrapped, provider_status_unknown, ignore_not_found}
use kflared.Api.{CloudflareTunnelBinding, ClusterCloudflareProvider, Condition}
use kflared.Platform.{
  Platform, M, ◌>>=◌, pure, fail, attempt, current, perform, on_result, on_option,
}
use kflared.Platform.{get_provider, get_namespace}
use kflared.Conditions.{status_is_true, status_is_false}
use kflared.Settings.{Settings, provider_controller_class_mismatch}
use kflared.PrivateRoutes.Validation.{selects_namespace}
use kflared.Planner.Zones.{normalize_zones}
use kflared.Planner.Hostnames.{normalize_hostnames}
use kflared.Bindings.Winners.{gateway_winner, accepted_route_hostnames, hostname_winner}
use kflared.Bindings.Status.{no_hostnames}
use kflared.Bindings.Origin.{Step, proceed, on_step, reject, validate_origin_service}

abbrev Binding : Type 0
Binding = CloudflareTunnelBinding

-- What a run goes on with.
pub record Plan : Type 0 where
  pub provider : ClusterCloudflareProvider
  pub hostnames : List Text
  pub origin : Text

-- The condition was written for the provider's generation, and says yes or no.
abbrev pub current_condition :
    (Condition → Bool) → ClusterCloudflareProvider → Option Condition → Bool
current_condition test provider none = false
current_condition test provider (some c) = c.observed_generation == provider.generation && test c

abbrev pub owner_text : Binding → Text
owner_text winner = winner.namespace ++ (bytes "/" ++ winner.name)

module _ (p : Platform) (r : Settings) where
  unfoldable pub provider_says : ClusterCloudflareProvider → (Condition → Bool) → String → Bool
  provider_says provider test type =
      current_condition test provider (p.find_status_condition provider.status.conditions type)

  unfoldable pub check_gateway_winner :
      ClusterCloudflareProvider → M Binding (Step ClusterCloudflareProvider)
  check_gateway_winner provider = do
    binding ← current
    winner ← gateway_winner p r binding
    on_option winner (pure (proceed provider)) λ other.
        reject p "GatewayConflict" (bytes "Gateway is already owned by " ++ owner_text other) none

  unfoldable pub check_namespace :
      ClusterCloudflareProvider → M Binding (Step ClusterCloudflareProvider)
  check_namespace provider = do
    binding ← current
    ns ← perform p (get_namespace binding.namespace)
    if not (selects_namespace p provider ns)
        then reject p "NamespaceNotAllowed"
            (bytes "The provider does not allow bindings from this namespace") none
        else check_gateway_winner provider

  -- What is asked of the provider that was found.
  unfoldable pub check_provider :
      ClusterCloudflareProvider → M Binding (Step ClusterCloudflareProvider)
  check_provider provider = do
    binding ← current
    let is_yes = provider_says provider (λ c. status_is_true c.status)
    let is_no = provider_says provider (λ c. status_is_false c.status)
    if not (provider.spec.controller == binding.spec.controller)
        then reject p provider_controller_class_mismatch
            (bytes
              "The referenced ClusterCloudflareProvider belongs to a different controller class")
            none
        else if is_no "Accepted" || is_no "CredentialsValid"
        then reject p "ProviderNotReady"
            (bytes "The referenced ClusterCloudflareProvider is not ready") none
        else if not (is_yes "Accepted") || not (is_yes "CredentialsValid")
        then fail (wrapped "%w: %q" provider_status_unknown)
        else check_namespace provider

  unfoldable pub validate_cluster_provider : M Binding (Step ClusterCloudflareProvider)
  validate_cluster_provider = do
    binding ← current
    found ← attempt (perform p (get_provider binding.spec.provider_ref))
    on_result found
        (λ e.
          reject p "ProviderNotFound"
            (bytes "The referenced ClusterCloudflareProvider was not found") (ignore_not_found e))
        check_provider

  -- No other binding may have one of the hostnames.
  unfoldable pub check_hostname_winner : Plan → M Binding (Step Plan)
  check_hostname_winner plan = do
    binding ← current
    winner ← hostname_winner p binding plan.hostnames
    on_option winner (pure (proceed plan)) λ (other, hostname).
        reject p "HostnameConflict"
          (bytes "Hostname " ++ (hostname ++ (bytes " is already owned by " ++ owner_text other)))
          none

  unfoldable pub plan_hostnames : Plan → M Binding (Step Plan)
  plan_hostnames plan = do
    binding ← current
    if not (no_hostnames plan.hostnames)
        then check_hostname_winner plan
        else if binding.status.tunnel_id == []
        then reject p "NoEligibleHostnames"
            (bytes
              "No accepted same-namespace HTTPRoute has a concrete hostname in an allowed DNS zone")
            none
        else pure (proceed plan)

  unfoldable pub plan_routes : ClusterCloudflareProvider → Text → M Binding (Step Plan)
  plan_routes provider origin = do
    binding ← current
    candidates ← accepted_route_hostnames p binding
    on_result (normalize_zones p.is_subdomain provider.spec.allowed_dns_zones)
        (λ e. reject p "ProviderInvalid" (p.error_text e) none)
        λ zones. plan_hostnames (record {
          provider = provider;
          hostnames = (normalize_hostnames p.is_subdomain candidates zones).0;
          origin = origin;
        })

  unfoldable pub validate_and_plan : M Binding (Step Plan)
  validate_and_plan = do
    checked ← validate_cluster_provider
    on_step checked
        λ provider. do found ← validate_origin_service p; on_step found (plan_routes provider)
