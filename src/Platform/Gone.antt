-- ===== src/Platform/Gone.antt =====
-- What the answers show of a child that is gone.
use kflared.Base.{◌≡◌, ◌⊎◌, true}
use kflared.Errors.{Err, err, is_not_found}
use kflared.Kube.{Child, ChildKind, NamespacedName}
use kflared.Platform.{Platform, Call, History, get_child, delete_child}
use kflared.Platform.Gives.{Once}

module _ (p : Platform) where
  -- Some answer to the call was that the object is not found.
  abbrev pub Missing : Call → Type 0
  Missing c = (h : History) × (x : Err) × (p.answer h c ≡ err x) × (is_not_found x ≡ true)

  -- The child was not found, or was deleted after it was found.
  abbrev pub IsGone : ChildKind → NamespacedName → Type 0
  IsGone kind key =
      Missing (get_child kind key)
      ⊎ ((child : Child) × Once p (get_child kind key) child
          × (Once p (delete_child child) tt ⊎ Missing (delete_child child)))
