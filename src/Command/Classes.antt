-- ===== src/Command/Classes.antt =====
-- Operators of different controller classes do not compete, and share no object.
use kflared.Base.{
  ℕ, ◌≡◌, ◌≢◌, refl, sym, ◌∙◌, arith, not, ◌&&◌, ap, true, false, [], ◌∷◌, ◌++◌, Text, bytes,
  text_eq, ◌==◌, length,
}
use kflared.Base.Strings.{trim_space, trim, trim_left, trim_right, length-append}
use kflared.Errors.{Result, ok, err}
use kflared.Platform.{Platform}
use kflared.Settings.{owns}
use kflared.Platform.{on_result}
use kflared.Command.{
  Flags, Setup, leader_election_id, validate_controller_class, settings_of, setup,
}

-- What is expected of SHA-256 at two classes: 64 hexadecimal digits, and no collision.
pub record IsDigest (p : Platform) (a b : Text) : Type 0 where
  pub size_left : length (p.sha256_hex a) ≡ 64
  pub size_right : length (p.sha256_hex b) ≡ 64
  pub no_collision : p.sha256_hex a ≡ p.sha256_hex b → a ≡ b

abbrev head_byte : Text → ℕ
head_byte [] = 0
head_byte (c ∷ s) = c

abbrev tail_bytes : Text → Text
tail_bytes [] = []
tail_bytes (c ∷ s) = s

cancel_right : (s t u : Text) → length s ≡ length t → s ++ u ≡ t ++ u → s ≡ t
cancel_right [] [] u n e = refl
cancel_right [] (d ∷ t) u n e = absurd (omega (arith, n))
cancel_right (c ∷ s) [] u n e = absurd (omega (arith, n))
cancel_right (c ∷ s) (d ∷ t) u n e = cc (e, cancel_right s t u (omega (arith, n)) (ap tail_bytes e))

cancel_left : (s t u : Text) → s ++ t ≡ s ++ u → t ≡ u
cancel_left [] t u e = e
cancel_left (c ∷ s) t u e = cancel_left s t u (ap tail_bytes e)

named : (a : Text) → validate_controller_class a ≡ ok tt → a ≢ []
unfolding validate_controller_class trim_space trim trim_left trim_right text_eq
named [] h e = ground arith
named (c ∷ s) h e = ground arith

self_text : (s : Text) → (s == s) ≡ true
self_text s = ground arith

same_digest :
    (p : Platform) (a b : Text)
    → IsDigest p a b
    → leader_election_id p a ≡ leader_election_id p b
    → p.sha256_hex a ≡ p.sha256_hex b
unfolding leader_election_id
same_digest p a b d e =
    cancel_right (p.sha256_hex a) (p.sha256_hex b) _ (omega (arith, d.size_left, d.size_right))
      (cancel_left (bytes "kflared-") _ _ e)

leader-length :
    (p : Platform) (a : Text) → length (p.sha256_hex a) ≡ 64 → length (leader_election_id p a) ≡ 85
unfolding leader_election_id
leader-length p a n = simp (length-append, n) refl

owned_once :
    (a b c : Text) → a ≢ b → (not (a == []) && c == a) ≡ true → (not (b == []) && c == b) ≡ false
owned_once a b c n h = ground arith

by_result :
    (r : Result (Unit {0})) (m x : Setup)
    → on_result r err (λ _. ok m) ≡ ok x
    → (r ≡ ok tt) × (m ≡ x)
unfolding on_result
by_result (ok u) m x e = (refl, cc e)
by_result (err y) m x e = absurd (ground arith)

setup-valid :
    (p : Platform) (f : Flags) (x : Setup)
    → setup p f ≡ ok x
    → (validate_controller_class f.controller_class ≡ ok tt)
      × (x.manager.leader_election_id ≡ leader_election_id p f.controller_class)
      × (x.provider ≡ settings_of f)
      × (x.binding ≡ settings_of f)
      × (x.private_route ≡ settings_of f)
unfolding setup
setup-valid p f x e =
    let (valid, same) = by_result (validate_controller_class f.controller_class) _ x e in
    (valid, rw (← same) refl, rw (← same) refl, rw (← same) refl, rw (← same) refl)

-- For two operators that the command sets up, whose flags give different controller classes, and if
-- SHA-256 gives the two classes different digests of 64 digits: the operators elect their leaders
-- under different IDs of 85 bytes, the reconcilers of the first own the objects of its class, and no
-- object is owned by reconcilers of both.
pub classes_separate :
    (p : Platform) (f g : Flags) (x y : Setup)
    → setup p f ≡ ok x
    → setup p g ≡ ok y
    → f.controller_class ≢ g.controller_class
    → IsDigest p f.controller_class g.controller_class
    → (x.manager.leader_election_id ≢ y.manager.leader_election_id)
      × (length x.manager.leader_election_id ≡ 85)
      × (owns x.binding f.controller_class ≡ true)
      × ((c : Text) → owns x.binding c ≡ true → owns y.binding c ≡ false)
      × ((c : Text) → owns x.provider c ≡ true → owns y.provider c ≡ false)
      × (x.private_route ≡ x.binding)
unfolding owns
classes_separate p f g x y u v n d =
    let (valid, id, pro, bin, pri) = setup-valid p f x u in
    let (valid', id', pro', bin', pri') = setup-valid p g y v in
    (
      λ e. n (d.no_collision (same_digest p _ _ d (sym id ∙ e ∙ id'))),
      rw id (leader-length p f.controller_class d.size_left),
      rw bin (ground (arith, named f.controller_class valid, self_text f.controller_class)),
      λ c h. rw bin' (owned_once _ _ c n (rw bin at h)),
      λ c h. rw pro' (owned_once _ _ c n (rw pro at h)),
      pri ∙ sym bin,
    )
