-- ===== src/Providers/Validation.antt =====
-- The checks of a provider: zones, namespace selector, token, credentials.
pub mod Conditions
use kflared.Base.{some, [], ◌++◌, String, Text, bytes, text_eq, ◌==◌, if◌then◌else◌}
use kflared.Base.Strings.{trim_space}
use kflared.Errors.{
  Err, Result, ok, err, joined, is_not_found, ignore_not_found, is_credential_rejected,
}
use kflared.Api.{ClusterCloudflareProvider, ConditionStatus, is_true, is_false, unknown}
use kflared.Kube.{Secret, NamespacedName}
use kflared.Platform.{
  on_result, Platform, M, ◌>>=◌, ◌>>◌, pure, attempt, current, assign, perform, Outcome, outcome_of,
}
use kflared.Platform.{get_secret, validate, patch_provider}
use kflared.Planner.Zones.{normalize_zones}
use kflared.Conditions.{set_condition}
use kflared.Settings.{Settings, system_namespace}
use kflared.PrivateRoutes.Status.{secret_data}

abbrev Provider : Type 0
Provider = ClusterCloudflareProvider

-- What the run found out about the token and the credentials.
pub data Credentials : Type 0 where
  secret_unreadable : NamespacedName → Err → Credentials
  token_missing : Credentials
  rejected_or_unavailable : Err → Credentials
  credentials_valid : Credentials

-- `provider.Status.ObservedGeneration = provider.Generation`
unfoldable pub observed : Provider → Provider
observed provider = record provider {
  status = record provider.status { observed_generation = provider.generation };
}

module _ (p : Platform) where
  unfoldable pub with_condition : String → ConditionStatus → String → Text → Provider → Provider
  with_condition type status reason message provider = record provider {
    status = record provider.status {
      conditions =
          set_condition p provider.status.conditions provider.generation type status reason message;
    };
  }

  unfoldable pub not_accepted : String → Err → Provider → Provider
  not_accepted reason e provider =
      with_condition "CredentialsValid" unknown "ValidationFailed"
        (bytes "Credentials were not checked")
        (with_condition "Accepted" is_false reason (p.error_text e) provider)

  unfoldable pub accepted : Provider → Provider
  accepted = with_condition "Accepted" is_true "Accepted" (bytes "Provider configuration is valid")

  -- The condition that the credentials' check leaves.
  unfoldable pub judged : Credentials → Provider → Provider
  judged (secret_unreadable key e) =
      with_condition "CredentialsValid" is_false
        (if is_not_found e then "SecretNotFound" else "SecretReadFailed")
        (bytes "Could not read API token Secret " ++ (key.namespace ++ (bytes "/" ++ key.name)))
  judged token_missing =
      with_condition "CredentialsValid" is_false "TokenMissing"
        (bytes "The configured Secret key is missing or empty")
  judged (rejected_or_unavailable e) =
      if is_credential_rejected e
      then with_condition "CredentialsValid" is_false "CloudflareAPIRejected"
          (bytes "Cloudflare rejected the configured credentials")
      else with_condition "CredentialsValid" unknown "CloudflareAPIUnavailable"
          (bytes "Cloudflare credentials could not be checked")
  judged credentials_valid =
      with_condition "CredentialsValid" is_true "CredentialsValid"
        (bytes "Cloudflare accepted the configured credentials")

  -- The result of the run for each, given that of the status patch.
  unfoldable pub verdict : Credentials → Result Provider → Outcome
  verdict (secret_unreadable _ e) (ok _) = record { requeue_after = 60; error = ignore_not_found e }
  verdict (secret_unreadable _ e) (err f) = record { requeue_after = 0; error = some f }
  verdict token_missing patched = outcome_of 60 patched
  verdict (rejected_or_unavailable e) (ok _) = record { requeue_after = 0; error = some e }
  verdict (rejected_or_unavailable e) (err f) = record {
    requeue_after = 0;
    error = some (joined e f);
  }
  verdict credentials_valid patched = outcome_of 600 patched

module _ (p : Platform) (r : Settings) where
  unfoldable pub check_token : Provider → Secret → M Provider Credentials
  check_token provider secret =
      let token = trim_space (secret_data provider.spec.secret_key secret.entries) in
      if token == [] then pure token_missing else do
        checked ← attempt (
            perform p
              (validate (record { api_token = token; account_id = provider.spec.account_id })))
        on_result checked (λ e. pure (rejected_or_unavailable e)) (λ _. pure credentials_valid)

  unfoldable pub check_credentials : Provider → M Provider Credentials
  check_credentials provider = do
    let key : NamespacedName = record {
      namespace = system_namespace r;
      name = provider.spec.secret_name;
    }
    found ← attempt (perform p (get_secret key))
    on_result found (λ e. pure (secret_unreadable key e)) (check_token provider)

  -- `Status().Patch(provider, MergeFrom(statusBase))`
  unfoldable pub patch : Provider → Provider → M Provider (Result Provider)
  patch base next = do assign next; attempt (perform p (patch_provider base next))

  unfoldable pub refuse : Provider → String → Err → M Provider Outcome
  refuse base reason e = do
    patched ← patch base (not_accepted p reason e (observed base))
    pure (outcome_of 300 patched)

  unfoldable pub judge : Provider → M Provider Outcome
  judge base = do
    credentials ← check_credentials base
    patched ← patch base (judged p credentials (accepted p (observed base)))
    pure (verdict p credentials patched)

  unfoldable pub check_selector : Provider → M Provider Outcome
  check_selector base =
      on_result (p.selector_matches base.spec.binding_namespace_selector)
        (refuse base "InvalidNamespaceSelector") (λ _. judge base)

  unfoldable pub validate_provider : M Provider Outcome
  validate_provider = do
    base ← current
    on_result (normalize_zones p.is_subdomain base.spec.allowed_dns_zones)
        (refuse base "InvalidDNSZones") (λ _. check_selector base)
