-- ===== src/DeepCopies/Laws.antt =====
-- What makes a copy deep, and how deep copies are put together.
use kflared.Base.{ℕ, suc, ◌≡◌, refl, ap, arith, ◌≤◌, ◌<◌, none, some, List, [], ◌∷◌, ◌++◌, All}
use kflared.DeepCopies.{
  Ptr, Copier, External, plain, copy_all, all_contents, all_addresses, copy_slice, slice_contents,
  slice_addresses, slices, copy_pointer, pointer_contents, pointer_addresses, pointers, foreign,
  copy_list, lists, copy_object,
}

-- The addresses were taken from the counter between these two values.
abbrev pub Within : ℕ → ℕ → List ℕ → Type 0
Within n k used = All (λ a. (n ≤ a) × (a < k)) used

pub Within-append :
    (n k : ℕ) (used bs : List ℕ) → Within n k used → Within n k bs → Within n k (used ++ bs)
Within-append n k [] bs first second = second
Within-append n k (a ∷ used) bs first second = (first.0, Within-append n k used bs first.1 second)

pub Within-widen : (n k m l : ℕ) (used : List ℕ) → m ≤ n → k ≤ l → Within n k used → Within m l used
Within-widen n k m l [] low high all = tt
Within-widen n k m l (a ∷ used) low high all =
    ((omega (arith, all.0.0), omega (arith, all.0.1)), Within-widen n k m l used low high all.1)

module _ {X A : Type 0} (c : Copier X A) where
  -- A copy made where the counter is `n` says the same, and holds only addresses that are new.
  pub record IsCopied (n : ℕ) (x : X) : Type 0 where
    pub grows : n ≤ (c.into x n).1
    pub same : c.contents (c.into x n).0 ≡ c.contents x
    pub fresh : Within n (c.into x n).1 (c.addresses (c.into x n).0)

  pub record IsDeep : Type 0 where
    pub copied : (n : ℕ) (x : X) → IsCopied n x

pub plain-IsDeep : {A : Type 0} → IsDeep (plain {A = A})
plain-IsDeep = record { copied = λ n x. record { grows = omega arith; same = refl; fresh = tt } }

module _ {X A : Type 0} (c : Copier X A) (deep : IsDeep c) where
  all_copied :
      (n : ℕ) (xs : List X)
      → (n ≤ (copy_all c xs n).1)
        × (all_contents c (copy_all c xs n).0 ≡ all_contents c xs)
        × Within n (copy_all c xs n).1 (all_addresses c (copy_all c xs n).0)
  unfolding copy_all all_contents all_addresses
  all_copied n [] = (omega arith, refl, tt)
  all_copied n (x ∷ xs) =
      let first = deep.copied n x in
      let k = (c.into x n).1 in
      let (grows, same, fresh) = all_copied k xs in
      (
        omega (arith, first.grows, grows),
        rw (first.same, same) refl,
        Within-append _ _ _ _ (Within-widen n k n _ _ (omega arith) grows first.fresh)
            (Within-widen k _ n _ _ first.grows (omega arith) fresh),
      )

  pub slices-IsDeep : IsDeep (slices c)
  unfolding copy_slice slice_contents slice_addresses
  slices-IsDeep = record {
    copied = λ n x. elim x as (λ y. IsCopied (slices c) n y) [
      | none ↦ record { grows = omega arith; same = refl; fresh = tt }
      | some p ↦
          let (grows, same, fresh) = all_copied (suc n) p.value in
          record {
            grows = omega (arith, grows);
            same = same;
            fresh = (
              (omega arith, omega (arith, grows)),
              Within-widen (suc n) _ n _ _ (omega arith) (omega arith) fresh,
            );
          }
    ];
  }

  -- `DeepCopyObject` answers the nil interface for nil, and else the object of `DeepCopy`: never an
  -- interface that holds a nil pointer.
  pub object_of_nil : (n : ℕ) → copy_object c none n ≡ (none, n)
  unfolding copy_object copy_pointer
  object_of_nil n = refl

  pub object_of_some :
      (n : ℕ) (p : Ptr X)
      → (q : Ptr X) × (copy_object c (some p) n ≡ (some (some q), (copy_pointer c (some p) n).1))
        × ((copy_pointer c (some p) n).0 ≡ some q)
  unfolding copy_object copy_pointer
  object_of_some n p = (record { address = n; value = (c.into p.value (suc n)).0 }, refl, refl)

  pub pointers-IsDeep : IsDeep (pointers c)
  unfolding copy_pointer pointer_contents pointer_addresses
  pointers-IsDeep = record {
    copied = λ n x. elim x as (λ y. IsCopied (pointers c) n y) [
      | none ↦ record { grows = omega arith; same = refl; fresh = tt }
      | some p ↦
          let inner = deep.copied (suc n) p.value in
          record {
            grows = omega (arith, inner.grows);
            same = ap some inner.same;
            fresh = (
              (omega arith, omega (arith, inner.grows)),
              Within-widen (suc n) _ n _ _ (omega arith) (omega arith) inner.fresh,
            );
          }
    ];
  }

-- Two copies, one after the other.
pub Within-join :
    (n k m : ℕ) (used bs : List ℕ)
    → n ≤ k
    → k ≤ m
    → Within n k used
    → Within k m bs
    → Within n m (used ++ bs)
Within-join n k m used bs low high first second =
    Within-append n m used bs (Within-widen n k n m used (omega arith) high first)
      (Within-widen k m n m bs low (omega arith) second)

-- The copies of the types of other packages are deep.
pub record IsExternal (e : External) : Type 0 where
  pub object_meta : IsDeep (foreign e.object_meta)
  pub list_meta : IsDeep (foreign e.list_meta)
  pub label_selector : IsDeep (foreign e.label_selector)
  pub condition : IsDeep (foreign e.condition)

pub lists-IsDeep :
    {X A : Type 0} (e : External) (c : Copier X A) → IsExternal e → IsDeep c → IsDeep (lists e c)
unfolding copy_list
lists-IsDeep e c external deep = record {
  copied = λ n x.
      let first = external.list_meta.copied n x.list_meta in
      let k = (e.list_meta x.list_meta n).1 in
      let second = (slices-IsDeep c deep).copied k x.items in
      record {
        grows = omega (arith, first.grows, second.grows);
        same = rw (first.same, second.same) refl;
        fresh = Within-join n k _ _ _ first.grows second.grows first.fresh second.fresh;
      };
}
