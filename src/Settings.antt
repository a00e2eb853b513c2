-- ===== src/Settings.antt =====
-- The configuration of the three reconcilers, with the defaults that they put in.
use kflared.Base.{Bool, not, ◌&&◌, Text, bytes, String, [], ◌==◌, text_eq, if◌then◌else◌}

pub record Settings : Type 0 where
  pub system_namespace : Text
  pub cloudflared_image : Text
  pub controller_class : Text

abbrev pub private_finalizer : String
private_finalizer = "kflared.kodeblox.com/private-route-cleanup"

abbrev pub cluster_provider_finalizer : String
cluster_provider_finalizer = "kflared.kodeblox.com/cluster-provider-protection"

abbrev pub binding_finalizer : String
binding_finalizer = "kflared.kodeblox.com/tunnel-cleanup"

abbrev pub provider_controller_class_mismatch : String
provider_controller_class_mismatch = "ProviderControllerClassMismatch"

unfoldable pub system_namespace : Settings → Text
system_namespace r = if r.system_namespace == [] then bytes "kflared" else r.system_namespace

unfoldable pub cloudflared_image : Settings → Text
cloudflared_image r =
    if r.cloudflared_image == []
    then bytes "cloudflare/cloudflared:2026.8.3"
    else r.cloudflared_image

unfoldable pub owns : Settings → Text → Bool
owns r controller_class = not (r.controller_class == []) && controller_class == r.controller_class
