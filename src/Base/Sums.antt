-- ===== src/Base/Sums.antt =====
-- Two lists of which one keeps some elements of the other, one head at a time.
use kflared.Base.{◌↔◌, ◌⊎◌, inl, inr}

-- A head that counts on both sides, and one that counts on neither.
pub head_both : {P Q R S : Type 0} → P ↔ Q → R ↔ S → (P ⊎ R) ↔ (Q ⊎ S)
head_both (f, g) (h, k) = (
  λ s. elim s [ inl a ↦ inl (f a) | inr b ↦ inr (h b) ],
  λ s. elim s [ inl a ↦ inl (g a) | inr b ↦ inr (k b) ],
)

pub head_right : {Q R S : Type 0} → ¬ Q → R ↔ S → R ↔ (Q ⊎ S)
head_right n (h, k) = (λ r. inr (h r), λ s. elim s [ inl q ↦ absurd (n q) | inr b ↦ k b ])
