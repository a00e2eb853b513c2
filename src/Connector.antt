-- ===== src/Connector.antt =====
-- The objects that a connector is made of: names, labels, ownership, pod.
pub mod Laws
use kflared.Base.{
  ℕ, Bool, true, false, not, ◌&&◌, ◌||◌, Option, none, some, List, [], ◌∷◌, ◌++◌, String, str_eq,
}
use kflared.Base.{Text, bytes, text_eq, nat_eq, ◌==◌, length, take, ltb, if◌then◌else◌}
use kflared.Base.Strings.{without_dashes, trim_prefix}
use kflared.Errors.{Err, message, Result, ok, err}
use kflared.Kube.{PodSpec, Labels, Child}

-- `connectorResourceName`
unfoldable pub connector_resource_name : Text → Text
unfolding without_dashes
connector_resource_name uid =
    let value = without_dashes uid in
    let short = if ltb 12 (length value) then take 12 value else value in
    bytes "kflared-" ++ (if short == [] then bytes "pending" else short)

-- `privateResourceName`
unfoldable pub private_resource_name : Text → Text
unfolding connector_resource_name trim_prefix
private_resource_name uid =
    bytes "kflared-private-" ++ trim_prefix (connector_resource_name uid) (bytes "kflared-")

abbrev pub managed_by_label : String
managed_by_label = "app.kubernetes.io/managed-by"

abbrev pub managed_by_value : Text
managed_by_value = bytes "kflared"

abbrev pub owner_uid_label : String
owner_uid_label = "kflared.kodeblox.com/binding-uid"

abbrev pub private_uid_label : String
private_uid_label = "kflared.kodeblox.com/private-route-uid"

-- `managedLabels` and `privateLabels`, of the owner's UID.
abbrev pub managed_labels : Text → Labels
managed_labels uid = (managed_by_label, managed_by_value) ∷ (owner_uid_label, uid) ∷ []

abbrev pub private_labels : Text → Labels
private_labels uid = (managed_by_label, managed_by_value) ∷ (private_uid_label, uid) ∷ []

-- A map's value, which is empty where the key is missing.
unfoldable pub label : String → Labels → Text
label key [] = []
label key ((k, v) ∷ labels) = if str_eq k key then v else label key labels

-- `verifyChildOwnership`
unfoldable pub verify_child_ownership : Text → Child → Result (Unit {0})
verify_child_ownership uid child =
    let owner = label owner_uid_label child.labels in
    if not (owner == []) && not (owner == uid)
    then err (
        message "refusing to manage child %s/%s owned by binding UID %s"
          (child.namespace ∷ child.name ∷ owner ∷ []))
    else if not (child.uid == []) && not (owner == uid)
    then err (
        message "refusing to adopt existing child %s/%s without this binding ownership label"
          (child.namespace ∷ child.name ∷ []))
    else ok tt

-- `verifyPrivateChild`
unfoldable pub verify_private_child : Text → Child → Result (Unit {0})
verify_private_child uid child =
    if not (child.uid == []) && not (label private_uid_label child.labels == uid)
    then err (message "refusing to adopt unowned child %s/%s" (child.namespace ∷ child.name ∷ []))
    else ok tt

-- `connectorPodSpec`, without the probes, the volume's mount path and the resource quantities.
unfoldable pub connector_pod_spec : Text → Text → PodSpec
connector_pod_spec secret_name image = record {
  security = record {
    automount_token = false;
    run_as_non_root = true;
    user = 65532;
    group = 65532;
    fs_group = 65532;
    allow_privilege_escalation = false;
    read_only_root_filesystem = true;
    dropped_capabilities = "ALL" ∷ [];
  };
  image = image;
  args =
      "tunnel" ∷ "--no-autoupdate" ∷ "--metrics" ∷ "0.0.0.0:2000" ∷ "run" ∷ "--token-file"
      ∷ "/etc/cloudflared/token" ∷ [];
  metrics_port = 2000;
  token_secret = secret_name;
  token_mode = 0o440;
  token_read_only = true;
}
