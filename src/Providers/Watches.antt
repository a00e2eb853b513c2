-- ===== src/Providers/Watches.antt =====
-- `clusterProviderClassPredicate` and `NamespaceAllowed`
use kflared.Base.{Bool, false, not, ◌&&◌, [], Text, text_eq, ◌==◌}
use kflared.Errors.{Result, ok, err}
use kflared.Api.{ClusterCloudflareProvider}
use kflared.Kube.{Namespace, Object, provider_object}
use kflared.Platform.{Platform}

unfoldable pub cluster_provider_class_predicate : Text → Object → Bool
cluster_provider_class_predicate controller_class (provider_object provider) =
    not (controller_class == []) && provider.spec.controller == controller_class
cluster_provider_class_predicate controller_class _ = false

unfoldable pub namespace_allowed : Platform → ClusterCloudflareProvider → Namespace → Result Bool
namespace_allowed p provider namespace =
    elim (p.selector_matches provider.spec.binding_namespace_selector) [
      | err e ↦ err e
      | ok matches ↦ ok (matches namespace.labels)
    ]
