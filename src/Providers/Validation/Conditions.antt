-- ===== src/Providers/Validation/Conditions.antt =====
-- What the conditions of a provider say after its credentials were checked.
use kflared.Base.{ℕ, ◌≡◌, arith, Option, some, String, Text, Bool-cases, inl, inr, if◌then◌else◌}
use kflared.Api.{ClusterCloudflareProvider, ConditionStatus, is_true, is_false, unknown}
use kflared.Errors.{is_credential_rejected}
use kflared.Platform.{Platform}
use kflared.Conditions.Store.{IsConditionStore, reading, reading-set_condition}
use kflared.Providers.Validation.{
  Credentials, secret_unreadable, token_missing, rejected_or_unavailable, credentials_valid,
  with_condition, accepted, judged,
}

abbrev Provider : Type 0
Provider = ClusterCloudflareProvider

-- What a provider's conditions have to say of its credentials. Only an error that is not a rejection
-- leaves the question open.
abbrev pub known_of : Credentials → ConditionStatus
known_of credentials_valid = is_true
known_of (rejected_or_unavailable e) = if is_credential_rejected e then is_false else unknown
known_of token_missing = is_false
known_of (secret_unreadable _ _) = is_false

module _ (p : Platform) (store : IsConditionStore p) (provider : Provider) where
  abbrev pub stands : Credentials → String → Option (ConditionStatus × ℕ)
  stands credentials type =
      reading (
        p.find_status_condition (judged p credentials (accepted p provider)).status.conditions type)

  after : ConditionStatus → String → Text → String → Option (ConditionStatus × ℕ)
  after status reason text type = reading (
      p.find_status_condition
        (with_condition p "CredentialsValid" status reason text
          (accepted p provider)).status.conditions
        type)

  after_conditions :
      (status : ConditionStatus) (reason : String) (text : Text)
      → (after status reason text "Accepted" ≡ some (is_true, provider.generation))
        × (after status reason text "CredentialsValid" ≡ some (status, provider.generation))
  unfolding after accepted with_condition
  after_conditions status reason text = (
    simp (reading-set_condition p store) (ground arith),
    simp (reading-set_condition p store) (ground arith),
  )

  -- Given that a condition that is set is found, and the others stay: after the check of the
  -- credentials there are conditions of the current generation. Accepted is true. CredentialsValid is
  -- true if Cloudflare accepted the credentials, unknown if the check failed otherwise than by a
  -- rejection, and false if Cloudflare rejected them, the token is missing, or the Secret could not
  -- be read.
  pub judged_conditions :
      (credentials : Credentials)
      → (stands credentials "Accepted" ≡ some (is_true, provider.generation))
        × (stands credentials "CredentialsValid" ≡ some (known_of credentials, provider.generation))
  unfolding judged after
  judged_conditions (secret_unreadable key e) = after_conditions is_false _ _
  judged_conditions token_missing = after_conditions is_false _ _
  judged_conditions (rejected_or_unavailable e) = elim (Bool-cases (is_credential_rejected e)) [
    | inl yes' ↦ rw yes' (after_conditions is_false _ _)
    | inr no' ↦ rw no' (after_conditions unknown _ _)
  ]
  judged_conditions credentials_valid = after_conditions is_true _ _
