-- ===== src/Errors.antt =====
-- Go's `error` values, with the wrapping that `errors.Is` and `errors.As` see through, and the
-- `(value, error)` results of the planner and the clients.
use kflared.Base.{ℕ, Bool, true, false, ◌||◌, Option, none, some, List, Text, String}
use kflared.Base.{nat_eq, if◌then◌else◌}

pub data Err : Type 0 where
  -- a Kubernetes API error with reason NotFound, and any other
  not_found : Err
  api_failure : Text → Err
  -- a REST mapper that knows no such kind
  no_match : Err
  -- an error of Cloudflare's API with its HTTP status, and a failure with no answer
  status_code : ℕ → Err
  unreachable : Err
  -- `ErrCredentialsRejected`, `errClusterProviderStatusUnknown`
  credentials_rejected : Err
  provider_status_unknown : Err
  -- `errors.New` and `fmt.Errorf` with no `%w`, with the arguments of the format
  message : String → List Text → Err
  -- `fmt.Errorf` with `%w`
  wrapped : String → Err → Err
  -- `errors.Join` of two errors
  joined : Err → Err → Err

abbrev or_else : Option Bool → Option Bool → Option Bool
or_else none f = f
or_else (some b) f = some b

-- Whether the first API status in the chain has the reason NotFound; `none` if there is no status.
first_status : Err → Option Bool
first_status not_found = some true
first_status (api_failure _) = some false
first_status (wrapped _ e) = first_status e
first_status (joined e f) = or_else (first_status e) (first_status f)
first_status _ = none

-- `apierrors.IsNotFound`
unfoldable pub is_not_found : Err → Bool
unfolding first_status
is_not_found e = elim (first_status e) [ none ↦ false | some b ↦ b ]

-- `errors.Is(err, ErrCredentialsRejected)`
unfoldable pub is_credential_rejected : Err → Bool
is_credential_rejected credentials_rejected = true
is_credential_rejected (wrapped _ e) = is_credential_rejected e
is_credential_rejected (joined e f) = is_credential_rejected e || is_credential_rejected f
is_credential_rejected _ = false

-- `errors.Is(err, errClusterProviderStatusUnknown)`
unfoldable pub is_status_unknown : Err → Bool
is_status_unknown provider_status_unknown = true
is_status_unknown (wrapped _ e) = is_status_unknown e
is_status_unknown (joined e f) = is_status_unknown e || is_status_unknown f
is_status_unknown _ = false

-- `apiMeta.IsNoMatchError`
unfoldable pub is_no_match : Err → Bool
is_no_match no_match = true
is_no_match (wrapped _ e) = is_no_match e
is_no_match (joined e f) = is_no_match e || is_no_match f
is_no_match _ = false

-- `client.IgnoreNotFound`
abbrev pub ignore_not_found : Err → Option Err
ignore_not_found e = if is_not_found e then none else some e

-- `errors.Join`, which drops `nil`
abbrev pub join : Option Err → Option Err → Option Err
join none f = f
join (some e) none = some e
join (some e) (some f) = some (joined e f)

pub data Result {ℓ} (A : Type ℓ) : Type ℓ where
  ok : A → Result A
  err : Err → Result A
