-- ===== src/DeepCopies.antt =====
-- api/v1alpha1/zz_generated.deepcopy.go: objects in memory, and the copies of them. A pointer and a
-- slice that is not nil carry the address of what they lead to; a copy takes addresses from a counter
-- of those in use. Types of other packages hold addresses that the model does not look into, and their
-- own DeepCopyInto is a parameter.
pub mod Bindings
pub mod PrivateRoutes
pub mod Providers
pub mod Values
pub mod Laws
pub mod Deep
use kflared.Base.{ℕ, suc, ◌≡◌, ◌≤◌, ◌<◌, Option, none, some, List, [], ◌∷◌, ◌++◌, Text, All}
use kflared.Api.{Condition, LabelSelector, ObjectMeta}

abbrev pub Alloc : Type 0 → Type 0
Alloc A = ℕ → A × ℕ

abbrev pub pure : {A : Type 0} → A → Alloc A
pure a n = (a, n)

infixl 10 ◌>>=◌
abbrev pub ◌>>=◌ : {A B : Type 0} → Alloc A → (A → Alloc B) → Alloc B
◌>>=◌ m f n = let (a, k) = m n in f a k

-- An address that is not in use.
abbrev pub new : Alloc ℕ
new n = (n, suc n)

pub record Ptr (A : Type 0) : Type 0 where
  pub address : ℕ
  pub value : A

-- A pointer that may be nil, and a slice.
abbrev pub Pointer : Type 0 → Type 0
Pointer A = Option (Ptr A)

abbrev pub Slice : Type 0 → Type 0
Slice A = Option (Ptr (List A))

-- A value of a type of another package, with the addresses that it holds.
pub record Foreign (A : Type 0) : Type 0 where
  pub contents : A
  pub holds : List ℕ

-- How a type in memory is copied, what it says, and which addresses it holds.
pub record Copier (X A : Type 0) : Type 0 where
  pub into : X → Alloc X
  pub contents : X → A
  pub addresses : X → List ℕ

-- A type with no pointer: `*out = *in`
abbrev pub plain : {A : Type 0} → Copier A A
plain = record { into = pure; contents = λ a. a; addresses = λ a. [] }

module _ {X A : Type 0} (c : Copier X A) where
  -- The loop over the elements of a slice.
  unfoldable pub copy_all : List X → Alloc (List X)
  copy_all [] = pure []
  copy_all (x ∷ xs) = do y ← c.into x; ys ← copy_all xs; pure (y ∷ ys)

  unfoldable pub all_contents : List X → List A
  all_contents [] = []
  all_contents (x ∷ xs) = c.contents x ∷ all_contents xs

  unfoldable pub all_addresses : List X → List ℕ
  all_addresses [] = []
  all_addresses (x ∷ xs) = c.addresses x ++ all_addresses xs

  -- `if in.F != nil`, with a new array
  unfoldable pub copy_slice : Slice X → Alloc (Slice X)
  copy_slice none = pure none
  copy_slice (some p) = do
    address ← new
    value ← copy_all p.value
    pure (some (record { address = address; value = value }))

  unfoldable pub slice_contents : Slice X → List A
  slice_contents none = []
  slice_contents (some p) = all_contents p.value

  unfoldable pub slice_addresses : Slice X → List ℕ
  slice_addresses none = []
  slice_addresses (some p) = p.address ∷ all_addresses p.value

  abbrev pub slices : Copier (Slice X) (List A)
  slices = record { into = copy_slice; contents = slice_contents; addresses = slice_addresses }

  -- `DeepCopy` over `DeepCopyInto`: nil for nil, and else a new object.
  unfoldable pub copy_pointer : Pointer X → Alloc (Pointer X)
  copy_pointer none = pure none
  copy_pointer (some p) = do
    address ← new
    value ← c.into p.value
    pure (some (record { address = address; value = value }))

  unfoldable pub pointer_contents : Pointer X → Option A
  pointer_contents none = none
  pointer_contents (some p) = some (c.contents p.value)

  unfoldable pub pointer_addresses : Pointer X → List ℕ
  pointer_addresses none = []
  pointer_addresses (some p) = p.address ∷ c.addresses p.value

  abbrev pub pointers : Copier (Pointer X) (Option A)
  pointers = record {
    into = copy_pointer;
    contents = pointer_contents;
    addresses = pointer_addresses;
  }

-- An interface value: nil, or a pointer with its type. An interface that holds a nil pointer is not nil.
abbrev pub RuntimeObject : Type 0 → Type 0
RuntimeObject X = Option (Pointer X)

-- `DeepCopyObject`
unfoldable pub copy_object : {X A : Type 0} → Copier X A → Pointer X → Alloc (RuntimeObject X)
copy_object c x = do
  copy ← copy_pointer c x
  pure (elim copy [ none ↦ none | some p ↦ some (some p) ])

-- `DeepCopyInto` of `ObjectMeta`, `ListMeta`, `LabelSelector` and `Condition`. What a `ListMeta` says
-- is a text here.
pub record External : Type 0 where
  pub object_meta : Foreign ObjectMeta → Alloc (Foreign ObjectMeta)
  pub list_meta : Foreign Text → Alloc (Foreign Text)
  pub label_selector : Foreign LabelSelector → Alloc (Foreign LabelSelector)
  pub condition : Foreign Condition → Alloc (Foreign Condition)

abbrev pub foreign : {A : Type 0} → (Foreign A → Alloc (Foreign A)) → Copier (Foreign A) A
foreign copy = record { into = copy; contents = λ x. x.contents; addresses = λ x. x.holds }

pub record TypeMeta : Type 0 where
  pub kind : Text
  pub api_version : Text

-- The three list types.
pub record StoredList (X : Type 0) : Type 0 where
  pub type_meta : TypeMeta
  pub list_meta : Foreign Text
  pub items : Slice X

module _ {X A : Type 0} (e : External) (c : Copier X A) where
  unfoldable pub copy_list : StoredList X → Alloc (StoredList X)
  copy_list x = do
    list_meta ← e.list_meta x.list_meta
    items ← copy_slice c x.items
    pure (record { type_meta = x.type_meta; list_meta = list_meta; items = items })

  abbrev pub lists : Copier (StoredList X) (TypeMeta × Text × List A)
  lists = record {
    into = copy_list;
    contents = λ x. (x.type_meta, x.list_meta.contents, slice_contents c x.items);
    addresses = λ x. x.list_meta.holds ++ slice_addresses c x.items;
  }
