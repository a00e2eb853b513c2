-- ===== src/Cloudflare.antt =====
-- The data of internal/cloudflare/client.go: what the controllers exchange with Cloudflare's API.
use kflared.Base.{Text, bytes}

abbrev pub config_source_cloudflare : Text
config_source_cloudflare = bytes "cloudflare"

pub record Tunnel : Type 0 where
  pub id : Text
  pub name : Text
  pub config_source : Text
  pub status : Text

pub record PrivateRoute : Type 0 where
  pub id : Text
  pub network : Text
  pub tunnel_id : Text
  pub comment : Text
  pub virtual_network_id : Text

-- A client, as `Factory.New(apiToken, accountID)` makes it.
pub record Client : Type 0 where
  pub api_token : Text
  pub account_id : Text
