-- ===== src/References/Grants.antt =====
-- `referenceGrantPermitsOrigin` and `privateGrantPermits`
use kflared.Base.{Bool, true, false, ◌&&◌, ◌||◌, none, some, List, [], ◌∷◌, Text, bytes}
use kflared.Base.{text_eq, ◌==◌, if◌then◌else◌}
use kflared.Api.{CloudflareTunnelBinding, CloudflareTunnelPrivateRoute}
use kflared.Kube.{ReferenceGrant, GrantFrom, GrantTo}

abbrev pub api_group : Text
api_group = bytes "kflared.kodeblox.com"

from_allows : Text → Text → GrantFrom → Bool
from_allows kind namespace f = f.group == api_group && (f.kind == kind && f.namespace == namespace)

to_allows : Text → GrantTo → Bool
to_allows service t =
    (t.group == [] && t.kind == bytes "Service")
    && elim t.name [ none ↦ true | some name ↦ name == service ]

any_from : Text → Text → List GrantFrom → Bool
any_from kind namespace [] = false
any_from kind namespace (f ∷ fs) = from_allows kind namespace f || any_from kind namespace fs

any_to : Text → List GrantTo → Bool
any_to service [] = false
any_to service (t ∷ ts) = to_allows service t || any_to service ts

unfoldable pub reference_grant_permits_origin : ReferenceGrant → CloudflareTunnelBinding → Bool
unfolding any_from any_to from_allows to_allows
reference_grant_permits_origin grant binding =
    if any_from (bytes "CloudflareTunnelBinding") binding.namespace grant.from
    then any_to binding.spec.origin_service_ref.name grant.to
    else false

unfoldable pub private_grant_permits : ReferenceGrant → CloudflareTunnelPrivateRoute → Bool
unfolding any_from any_to from_allows to_allows
private_grant_permits grant route =
    if any_from (bytes "CloudflareTunnelPrivateRoute") route.namespace grant.from
    then any_to route.spec.service_ref.name grant.to
    else false
