-- ===== src/Tests/Copies.antt =====
-- Deep copies of concrete objects. A value of another package's type is copied to one at one new address.
use kflared.Base.{suc, refl, arith, [], ◌∷◌}
use kflared.DeepCopies.{Alloc, Foreign, External, foreign, pointers, lists}
use kflared.DeepCopies.Laws.{IsDeep, IsExternal}
use kflared.DeepCopies.Deep.{objects-IsDeep}
use kflared.DeepCopies.Bindings
use kflared.DeepCopies.PrivateRoutes
use kflared.DeepCopies.Providers

unfoldable moved : {A : Type 0} → Foreign A → Alloc (Foreign A)
moved x n = (record x { holds = n ∷ [] }, suc n)

moved-IsDeep : {A : Type 0} → IsDeep (foreign (moved {A = A}))
unfolding moved
moved-IsDeep = record {
  copied =
      λ n x. record { grows = omega arith; same = refl; fresh = ((omega arith, omega arith), tt) };
}

abbrev external : External
external = record {
  object_meta = moved;
  list_meta = moved;
  label_selector = moved;
  condition = moved;
}

external-IsExternal : IsExternal external
external-IsExternal = record {
  object_meta = moved-IsDeep;
  list_meta = moved-IsDeep;
  label_selector = moved-IsDeep;
  condition = moved-IsDeep;
}

objects-IsDeep_example :
    IsDeep (pointers (Bindings.bindings external))
    × IsDeep (pointers (PrivateRoutes.routes external))
    × IsDeep (pointers (Providers.providers external))
    × IsDeep (pointers (lists external (Bindings.bindings external)))
    × IsDeep (pointers (lists external (PrivateRoutes.routes external)))
    × IsDeep (pointers (lists external (Providers.providers external)))
objects-IsDeep_example = objects-IsDeep external external-IsExternal
