-- ===== src/Base/Sort.antt =====
-- Sets of strings, as the program keeps them in a `map[string]struct{}` and lists them by
-- `slices.Sort`. A strictly increasing list is determined by its members.
use kflared.Base.{◌≡◌, refl, sym, ◌∙◌, arith, true, false, ◌||◌, List, [], ◌∷◌}
use kflared.Base.{Bool-cases, inl, inr, Text, text_eq, ◌==◌, contains, All, if◌then◌else◌}
use kflared.Base.Order.{text_lt, text_lt_irrefl, text_lt_trans, text_lt_asymm, text_lt_connex}

-- `set[a] = struct{}{}`
unfoldable pub add : Text → List Text → List Text
add a set = if contains a set then set else a ∷ set

insert : Text → List Text → List Text
insert a [] = a ∷ []
insert a (x ∷ xs) = if text_lt a x then a ∷ x ∷ xs else x ∷ insert a xs

-- `slices.Sort`
unfoldable pub sort : List Text → List Text
unfolding insert text_lt
sort [] = []
sort (x ∷ xs) = insert x (sort xs)

abbrev pub Increasing : List Text → Type 0
Increasing [] = Unit
Increasing (x ∷ xs) = All (λ y. text_lt x y ≡ true) xs × Increasing xs

abbrev pub Distinct : List Text → Type 0
Distinct [] = Unit
Distinct (x ∷ xs) = (contains x xs ≡ false) × Distinct xs

pub contains-add :
    (a b : Text) (set : List Text) → contains b (add a set) ≡ (a == b || contains b set)
unfolding add
contains-add a b set = ground arith

contains-insert :
    (a b : Text) (xs : List Text) → contains b (insert a xs) ≡ (a == b || contains b xs)
unfolding insert
contains-insert a b [] = refl
contains-insert a b (x ∷ xs) = ground (arith, contains-insert a b xs)

pub contains-sort : (b : Text) (xs : List Text) → contains b (sort xs) ≡ contains b xs
unfolding sort
contains-sort b [] = refl
contains-sort b (x ∷ xs) = ground (arith, contains-insert x b (sort xs), contains-sort b xs)

pub add-Distinct : (a : Text) (set : List Text) → Distinct set → Distinct (add a set)
unfolding add
add-Distinct a set d = ground arith

All-insert :
    (y a : Text) (xs : List Text)
    → text_lt y a ≡ true
    → All (λ z. text_lt y z ≡ true) xs
    → All (λ z. text_lt y z ≡ true) (insert a xs)
unfolding insert
All-insert y a [] h k = (h, tt)
All-insert y a (x ∷ xs) h k = ground (arith, All-insert y a xs h)

All-trans :
    (a x : Text) (xs : List Text)
    → text_lt a x ≡ true
    → All (λ z. text_lt x z ≡ true) xs
    → All (λ z. text_lt a z ≡ true) xs
All-trans a x [] h k = tt
All-trans a x (y ∷ xs) h (p, q) = (text_lt_trans a x y h p, All-trans a x xs h q)

insert-Increasing :
    (a : Text) (xs : List Text) → contains a xs ≡ false → Increasing xs → Increasing (insert a xs)
unfolding insert
insert-Increasing a [] n i = (tt, tt)
insert-Increasing a (x ∷ xs) n i =
    ground (arith, insert-Increasing a xs, All-trans a x xs, All-insert x a xs, text_lt_connex a x)

pub sort-Increasing : (xs : List Text) → Distinct xs → Increasing (sort xs)
unfolding sort
sort-Increasing [] d = tt
sort-Increasing (x ∷ xs) (n, d) =
    insert-Increasing x (sort xs) (contains-sort x xs ∙ n) (sort-Increasing xs d)

All-contains :
    (a x : Text) (xs : List Text)
    → All (λ y. text_lt a y ≡ true) xs
    → contains x xs ≡ true
    → text_lt a x ≡ true
All-contains a x [] h c = cc
All-contains a x (y ∷ xs) (p, q) c = ground (arith, All-contains a x xs q)

head-eq :
    (x y : Text) (xs ys : List Text)
    → Increasing (x ∷ xs)
    → Increasing (y ∷ ys)
    → contains x (y ∷ ys) ≡ true
    → contains y (x ∷ xs) ≡ true
    → x ≡ y
head-eq x y xs ys (p, _) (q, _) h k =
    ground (arith, All-contains y x ys q, All-contains x y xs p, text_lt_asymm x y)

not-contains_self :
    (a : Text) (xs : List Text) → All (λ y. text_lt a y ≡ true) xs → contains a xs ≡ false
not-contains_self a xs h = elim (Bool-cases (contains a xs)) [
  | inl e ↦ ground (arith, All-contains a a xs h e, text_lt_irrefl a)
  | inr e ↦ e
]

contains_self : (a : Text) (xs : List Text) → contains a (a ∷ xs) ≡ true
contains_self a xs = ground arith

tail_same :
    (x : Text) (xs ys : List Text) (a : Text)
    → contains x xs ≡ false
    → contains x ys ≡ false
    → contains a (x ∷ xs) ≡ contains a (x ∷ ys)
    → contains a xs ≡ contains a ys
tail_same x xs ys a h k e = ground arith

-- A strictly increasing list is determined by its members.
pub Increasing-ext :
    (xs ys : List Text)
    → Increasing xs
    → Increasing ys
    → ((a : Text) → contains a xs ≡ contains a ys)
    → xs ≡ ys
Increasing-ext [] [] i j same = refl
Increasing-ext [] (y ∷ ys) i j same = ground (arith, same y, contains_self y ys)
Increasing-ext (x ∷ xs) [] i j same = ground (arith, same x, contains_self x xs)
Increasing-ext (x ∷ xs) (y ∷ ys) (p, i) (q, j) same =
    let e =
      head-eq x y xs ys (p, i) (q, j) (sym (same x) ∙ contains_self x xs)
        (same y ∙ contains_self y ys) in
    let rest = Increasing-ext xs ys i j λ a.
      tail_same x xs ys a (not-contains_self x xs p) (rw e (not-contains_self y ys q))
        (rw (← e) at (same a)) in
    cc
