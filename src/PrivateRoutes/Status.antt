-- ===== src/PrivateRoutes/Status.antt =====
-- `patchStatus`, `status`, and the reads that the other functions share: the API token of
-- `readAPIToken`, the comment that marks a Cloudflare route as owned, and the tunnel's name.
pub mod Patches
pub mod Ready
pub mod Clients
use kflared.Base.{
  ℕ, Bool, true, false, not, ◌&&◌, ◌||◌, Option, none, some, List, [], ◌∷◌, ◌++◌, String, Text,
  bytes,
}
use kflared.Base.{text_eq, ◌==◌, take, if◌then◌else◌}
use kflared.Base.Strings.{trim_space}
use kflared.Errors.{Err, message, Result, ok, err}
use kflared.Api.{CloudflareTunnelPrivateRoute, ClusterCloudflareProvider, PrivateRouteStatus}
use kflared.Api.{ConditionStatus, is_true, is_false}
use kflared.Kube.{Secret}
use kflared.Cloudflare.{Client}
use kflared.Platform.{
  Platform, M, ◌>>=◌, ◌>>◌, pure, fail, current, assign, perform, get_secret, patch_route,
}
use kflared.Conditions.{set_condition, status_is_true}
use kflared.Settings.{Settings, system_namespace}

unfoldable pub private_comment : CloudflareTunnelPrivateRoute → Text
private_comment route = bytes "kflared private route UID=" ++ route.uid

-- The first four bytes of the digest are its first eight digits.
unfoldable pub private_tunnel_name : Platform → Text → Text → Text
private_tunnel_name p cluster_uid route_uid =
    bytes "kflared-private-" ++ (take 8 (p.sha256_hex cluster_uid) ++ (bytes "-" ++ route_uid))

-- `secret.Data[key]`, which is empty where the key is missing.
unfoldable pub secret_data : Text → List (Text × Text) → Text
secret_data key [] = []
secret_data key ((k, v) ∷ entries) = if k == key then v else secret_data key entries

abbrev pub to_status : Bool → ConditionStatus
to_status b = if b then is_true else is_false

module _ (p : Platform) (r : Settings) {O : Type 0} where
  -- `readAPIToken` of the binding reconciler, which the private routes use as well.
  unfoldable pub read_api_token : ClusterCloudflareProvider → M O Text
  read_api_token provider = do
    secret ←
        perform p
          (get_secret (record { namespace = system_namespace r; name = provider.spec.secret_name }))
    let token = trim_space (secret_data provider.spec.secret_key secret.entries)
    if token == []
        then fail (message "cloudflare API token secret key is missing or empty" [])
        else pure token

  -- `api`: a client for the provider's account.
  unfoldable pub api : ClusterCloudflareProvider → M O Client
  api provider = do
    token ← read_api_token provider
    pure (record { api_token = token; account_id = provider.spec.account_id })

module _ (p : Platform) where
  -- `change()` writes the status in memory; a patch that succeeds leaves the server's answer there.
  unfoldable pub patch_status :
      (CloudflareTunnelPrivateRoute → PrivateRouteStatus)
      → M CloudflareTunnelPrivateRoute (Unit {0})
  patch_status change = do
    before ← current
    assign (record before { status = change before })
    patched ← perform p (patch_route before (record before { status = change before }))
    assign patched

  unfoldable pub route_status :
      Bool → String → Bool → CloudflareTunnelPrivateRoute → PrivateRouteStatus
  route_status accepted reason connector_ready route =
      let programmed = not (route.status.route_id == []) in
      let set = λ (cs : List _) (type : String) (s : ConditionStatus).
        set_condition p cs route.generation type s reason (bytes reason) in
      let cs₁ = set route.status.conditions "Accepted" (to_status accepted) in
      let cs₂ = set cs₁ "Programmed" (to_status programmed) in
      let cs₃ = set cs₂ "ConnectorReady" (to_status connector_ready) in
      let cs₄ =
        set cs₃ "Ready"
          (if not accepted || not programmed then is_false else to_status connector_ready) in
      record route.status { observed_generation = route.generation; conditions = cs₄ }

  unfoldable pub status : Bool → String → Bool → M CloudflareTunnelPrivateRoute (Unit {0})
  status accepted reason connector_ready =
      patch_status (route_status accepted reason connector_ready)
