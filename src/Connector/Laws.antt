-- ===== src/Connector/Laws.antt =====
-- The names of connectors, and the checks of ownership.
use kflared.Base.{
  ℕ, zero, suc, ◌≤◌, ◌≡◌, ◌≢◌, ◌↔◌, ◌⊎◌, inl, inr, refl, sym, ap, ◌∙◌, arith, Bool, true, false,
  not, ◌&&◌,
}
use kflared.Base.{
  [], ◌∷◌, ◌++◌, Text, bytes, text_eq, nat_eq, ◌==◌, contains, length, take, ltb, if◌then◌else◌,
}
use kflared.Base.Strings.{without_dashes, is_dash, trim_prefix, trim_prefix-append, length-take-le}
use kflared.Errors.{Err, ok, err}
use kflared.Kube.{Child}
use kflared.Connector.{
  connector_resource_name, private_resource_name, label, owner_uid_label, private_uid_label,
}
use kflared.Connector.{verify_child_ownership, verify_private_child}

-- The part of a connector's name that comes from the UID.
short_uid : Text → Text
short_uid uid =
    let value = without_dashes uid in
    let short = if ltb 12 (length value) then take 12 value else value in
    if short == [] then bytes "pending" else short

connector-short_uid : (uid : Text) → connector_resource_name uid ≡ bytes "kflared-" ++ short_uid uid
unfolding connector_resource_name short_uid
connector-short_uid uid = refl

private-short_uid :
    (uid : Text) → private_resource_name uid ≡ bytes "kflared-private-" ++ short_uid uid
unfolding private_resource_name
private-short_uid uid =
    ap (λ t. bytes "kflared-private-" ++ t)
      (ap (λ t. trim_prefix t (bytes "kflared-")) (connector-short_uid uid)
        ∙ trim_prefix-append (bytes "kflared-") (short_uid uid))

-- No dash.
abbrev Dashless : Text → Type 0
Dashless s = contains b'-' s ≡ false

without_dashes-Dashless : (s : Text) → Dashless (without_dashes s)
unfolding without_dashes is_dash
without_dashes-Dashless [] = refl
without_dashes-Dashless (c ∷ s) = ground (arith, without_dashes-Dashless s)

take-Dashless : (n : ℕ) (s : Text) → Dashless s → Dashless (take n s)
take-Dashless zero s h = refl
take-Dashless (suc n) [] h = refl
take-Dashless (suc n) (c ∷ s) h = ground (arith, take-Dashless n s)

cut-Dashless : (n : ℕ) (s : Text) → Dashless s → Dashless (if ltb n (length s) then take n s else s)
cut-Dashless n s h = ground (arith, take-Dashless n s h)

pending-Dashless : (s : Text) → Dashless s → Dashless (if s == [] then bytes "pending" else s)
unfolding nat_eq
pending-Dashless [] h = ground arith
pending-Dashless (c ∷ s) h = ground arith

short_uid-Dashless : (uid : Text) → Dashless (short_uid uid)
unfolding short_uid
short_uid-Dashless uid = pending-Dashless _ (cut-Dashless 12 _ (without_dashes-Dashless uid))

dash_in : (t : Text) → contains b'-' (bytes "private-" ++ t) ≡ true
unfolding nat_eq
dash_in t = refl

after_prefix :
    (s t : Text) → bytes "kflared-" ++ s ≡ bytes "kflared-private-" ++ t → s ≡ bytes "private-" ++ t
after_prefix s t e = cc

-- The connector of a binding and that of a private route never have one name, whatever the UIDs.
connector-ne-private : (u v : Text) → connector_resource_name u ≢ private_resource_name v
connector-ne-private u v e =
    let same =
      after_prefix (short_uid u) (short_uid v)
        (sym (connector-short_uid u) ∙ (e ∙ private-short_uid v)) in
    cc (short_uid-Dashless u, dash_in (short_uid v), same)

short_uid-length : (uid : Text) → length (short_uid uid) ≤ 12
unfolding short_uid
short_uid-length uid = ground (arith, length-take-le 12 (without_dashes uid))

-- Both names fit the 63 bytes of a DNS label.
pub resource_name-length :
    (uid : Text)
    → (length (connector_resource_name uid) ≤ 63) × (length (private_resource_name uid) ≤ 63)
resource_name-length uid = (
  rw (connector-short_uid uid) (omega (arith, short_uid-length uid)),
  rw (private-short_uid uid) (omega (arith, short_uid-length uid)),
)

self_eq : (a : Text) → (a == a) ≡ true
self_eq a = ground arith

and_false :
    (e f : Err) (a b : Bool)
    → (if a && false then err e else if b && false then err f else ok tt) ≡ ok (tt {0})
and_false e f a b = ground arith

owner_check :
    (o uid c : Text) (e f : Err)
    → ((if not (o == []) && not (o == uid)
          then err e
          else if not (c == []) && not (o == uid)
          then err f
          else ok tt)
        ≡ ok (tt {0}))
      ↔ ((o ≡ uid) ⊎ ((o ≡ []) × (c ≡ [])))
owner_check o uid c e f = (
  λ h. ground arith,
  λ h. elim h [
    | inl same ↦ rw same (rw (self_eq uid) (and_false e f (not (uid == [])) (not (c == []))))
    | inr (q, r) ↦ rw q (rw r (rw (self_eq []) refl))
  ],
)

private_check :
    (o uid c : Text) (e : Err)
    → ((if not (c == []) && not (o == uid) then err e else ok tt) ≡ ok (tt {0}))
      ↔ ((c ≡ []) ⊎ (o ≡ uid))
private_check o uid c e = (λ h. ground arith, λ h. ground arith)

-- The check of a binding's child passes exactly if the child carries the binding's UID, or has
-- neither an owner's UID nor one of its own.
pub verify_child_ownership_iff :
    (uid : Text) (child : Child)
    → (verify_child_ownership uid child ≡ ok tt) ↔ (
        (label owner_uid_label child.labels ≡ uid)
        ⊎ ((label owner_uid_label child.labels ≡ []) × (child.uid ≡ [])))
unfolding verify_child_ownership
verify_child_ownership_iff uid child = owner_check _ uid child.uid _ _

-- The check of a private route's child passes exactly if the child does not exist yet or carries
-- the route's UID.
pub verify_private_child_iff :
    (uid : Text) (child : Child)
    → (verify_private_child uid child ≡ ok tt)
      ↔ ((child.uid ≡ []) ⊎ (label private_uid_label child.labels ≡ uid))
unfolding verify_private_child
verify_private_child_iff uid child = private_check _ uid child.uid _
