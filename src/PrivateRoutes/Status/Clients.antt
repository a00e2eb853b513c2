-- ===== src/PrivateRoutes/Status/Clients.antt =====
-- The client that `api` makes is one for the provider's account.
use kflared.Base.{◌≡◌, refl}
use kflared.Api.{ClusterCloudflareProvider}
use kflared.Platform.{Platform}
use kflared.Platform.Gives.{Gives, Gives-bind, Gives-pure}
use kflared.Platform.Holds.{Holds, holds_rules}
use kflared.Settings.{Settings}
use kflared.PrivateRoutes.Status.{api, read_api_token}

module _ (p : Platform) (r : Settings) {O : Type 0} {J : O → Type 0} where
  token-Holds : (provider : ClusterCloudflareProvider) → Holds J (read_api_token p r provider)
  unfolding read_api_token
  token-Holds provider = search holds_rules depth 9

  pub api-Gives :
      (provider : ClusterCloudflareProvider)
      → Gives J (api p r provider) (λ client. client.account_id ≡ provider.spec.account_id)
  unfolding api
  api-Gives provider = Gives-bind _ _ (token-Holds provider) (λ token _. Gives-pure _ refl)
