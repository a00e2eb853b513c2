-- ===== src/Bindings/Owned.antt =====
-- Which calls a binding that is not being deleted may make: those that write or delete something may
-- only concern what belongs to the binding with this UID.
pub mod Children
pub mod Steps
pub mod Plans
pub mod Runs
use kflared.Base.{◌≡◌, Bool, true, false, ◌&&◌, ◌||◌, List, [], ◌∷◌, Text, text_eq, ◌==◌}
use kflared.Errors.{ok}
use kflared.Api.{CloudflareTunnelBinding}
use kflared.Kube.{Child}
use kflared.Connector.{label, owner_uid_label}
use kflared.Platform.{
  Platform, event, History, load_child, save_child, delete_child, delete_tunnel, patch_binding,
  update_binding, create_private_route, delete_private_route, patch_route, update_route,
  patch_provider, update_provider,
}
use kflared.Platform.Keeps.{Policy}

abbrev Binding : Type 0
Binding = CloudflareTunnelBinding

-- The child carries the UID, or is new and carries none.
abbrev pub is_own : Text → Child → Bool
is_own uid c =
    label owner_uid_label c.labels == uid || (label owner_uid_label c.labels == [] && c.uid == [])

abbrev pub is_same : Child → Child → Bool
is_same d c = d.namespace == c.namespace && (d.name == c.name && d.uid == c.uid)

-- Some answer shows the object that is written, and it was new or the binding's.
abbrev pub loaded : Text → Child → History → Bool
loaded uid c [] = false
loaded uid c (event (load_child _ _) (ok d) ∷ h) = (is_same d c && is_own uid d) || loaded uid c h
loaded uid c (_ ∷ h) = loaded uid c h

abbrev pub managing : Text → Policy
managing uid (save_child c) h = label owner_uid_label c.labels == uid && loaded uid c h
managing uid (delete_child c) h = label owner_uid_label c.labels == uid
managing uid (patch_binding _ next) h = next.uid == uid
managing uid (update_binding b) h = b.uid == uid
managing uid (delete_tunnel _ _) h = false
managing uid (create_private_route _ _ _ _) h = false
managing uid (delete_private_route _ _) h = false
managing uid (patch_route _ _) h = false
managing uid (update_route _) h = false
managing uid (patch_provider _ _) h = false
managing uid (update_provider _) h = false
managing uid _ h = true

-- What is fixed about the object: its UID.
abbrev pub HasUid : Text → Binding → Type 0
HasUid uid binding = binding.uid ≡ uid

-- The answer to a status patch is an object with the UID of the one that was sent.
pub record KeepsBindingUid (p : Platform) : Type 0 where
  pub same :
      (h : History) (base next : Binding) {o : Binding}
      → p.answer h (patch_binding base next) ≡ ok o
      → o.uid ≡ next.uid
