-- ===== src/Sdk/Credentials.antt =====
-- Which failures of `Validate` say that the credentials were rejected.
use kflared.Base.{
  ℕ, ◌≡◌, refl, arith, ◌↔◌, Bool, true, false, ◌||◌, Option, none, some, nat_eq, ◌==◌, Bool-cases,
  ◌⊎◌, inl, inr,
}
use kflared.Errors.{Err, credentials_rejected, joined, err, is_credential_rejected}
use kflared.Cloudflare.{Client}
use kflared.Sdk.{Api, tunnels_list, api_status, is_credential_rejection, validate}

by_status :
    (o : Option ℕ)
    → (elim o [ none ↦ false | some n ↦ n == 401 || n == 403 ]) ≡ true
      ↔ ((o ≡ some 401) ⊎ (o ≡ some 403))
by_status none = (λ h. ground arith, λ h. elim h [ inl e ↦ ground arith | inr e ↦ ground arith ])
by_status (some n) =
    (λ h. ground arith, λ h. elim h [ inl e ↦ ground arith | inr e ↦ ground arith ])

rejection_iff :
    (e : Err)
    → (is_credential_rejection e ≡ true) ↔ ((api_status e ≡ some 401) ⊎ (api_status e ≡ some 403))
unfolding is_credential_rejection
rejection_iff e = by_status (api_status e)

differ : (b : Bool) → b ≡ true → b ≡ false → ⊥
differ b h k = ground arith

module _ {S : Type 0} (api : Api S) (client : Client) where
  -- When the request of `Validate` fails with an error that is not already marked as a rejection,
  -- `Validate` fails, and its error is marked as one exactly if the first error of the API in its
  -- chain has the HTTP status 401 or 403.
  pub validate-rejected :
      (e : Err) (s s' : S)
      → api s (tunnels_list client.account_id none 1 false) ≡ (err e, s')
      → is_credential_rejected e ≡ false
      → (f : Err) × (validate api client s ≡ (err f, s'))
        × ((is_credential_rejected f ≡ true)
            ↔ ((api_status e ≡ some 401) ⊎ (api_status e ≡ some 403)))
  unfolding validate is_credential_rejection is_credential_rejected
  validate-rejected e s s' q clean = elim (Bool-cases (is_credential_rejection e)) [
    | inl yes' ↦ (
      joined credentials_rejected e,
      rw q (rw yes' refl),
      (λ _. (rejection_iff e).0 yes', λ _. refl),
    )
    | inr no' ↦ (
      e,
      rw q (rw no' refl),
      (
        λ h. absurd (differ (is_credential_rejected e) h clean),
        λ h. absurd (differ (is_credential_rejection e) ((rejection_iff e).1 h) no'),
      ),
    )
  ]
