-- ===== src/Auth/Contract.antt =====
-- What a credential scheme promises its callers, independent of how it is made.

use zkapi_ef_collab.Base.{ℕ, ◌+◌, Bool, true, false, nat_eq, ◌≡◌, ◌≤◌, ◌<◌}
use zkapi_ef_collab.Server.Wire.{Felt252}
use zkapi_ef_collab.Auth.Defs.{
  CredentialScheme, AuthError, Draws, ok, err, insufficient_balance, replay,
}

-- `IsGenuine` is a credential that the scheme in this state has signed, `Presents` a presentation
-- of a credential with its spend token, `IsAuthentic` a presentation whose signature is one on what
-- it shows, `amount` the balance that it shows, `is_spent` whether its token is used, `IsIssuable`
-- and `IsProper` the draws with which a first and a next credential can be signed.
pub record IsScheme {S C P : Type 0} (scheme : CredentialScheme S C P) (IsGenuine : C → S → Type 0)
    (IsAuthentic : P → S → Type 0) (Presents : C → P → Felt252 → Type 0) (amount : P → ℕ)
    (is_spent : P → S → Bool) (IsIssuable : Draws → Felt252 → ℕ → S → Type 0)
    (IsProper : Draws → C → P → ℕ → S → Type 0) : Type 0 where
  pub issue-ok :
      (draws : Draws) (secret : Felt252) (balance : ℕ) (s : S)
      → IsIssuable draws secret balance s
      → (c : C) × (scheme.issue draws secret balance s ≡ (ok c, s))
        × (scheme.balance c ≡ balance)
        × IsGenuine c s
  pub genuine-IsAuthentic :
      (c : C) (p : P) (t : Felt252) (s : S)
      → IsGenuine c s
      → Presents c p t
      → IsAuthentic p s × (amount p ≡ scheme.balance c)
  pub verify-IsAuthentic :
      (p : P) (t : Felt252) (s s_next : S)
      → scheme.verify p s ≡ (ok t, s_next)
      → IsAuthentic p s × (is_spent p s ≡ false)
  pub verify-err :
      (p : P) (e : AuthError) (s s_next : S) → scheme.verify p s ≡ (err e, s_next) → s_next ≡ s
  pub withdrawal-IsAuthentic :
      (p : P) (paid : ℕ) (t : Felt252) (s s_next : S)
      → scheme.verify_withdrawal p s ≡ (ok (paid, t), s_next)
      → IsAuthentic p s × (is_spent p s ≡ false) × (paid ≡ amount p)
  pub authenticate-ok :
      (draws : Draws) (c : C) (cap : ℕ) (s : S)
      → cap ≤ scheme.balance c
      → (p : P) × (t : Felt252) × (scheme.authenticate draws c cap s ≡ ok (p, t)) × Presents c p t
  pub authenticate-err :
      (draws : Draws) (c : C) (cap : ℕ) (s : S)
      → scheme.balance c < cap
      → scheme.authenticate draws c cap s ≡ err (insufficient_balance (scheme.balance c) cap)
  pub verify-ok :
      (c : C) (p : P) (t : Felt252) (s : S)
      → IsGenuine c s
      → Presents c p t
      → is_spent p s ≡ false
      → (s_next : S) × (scheme.verify p s ≡ (ok t, s_next))
        × (is_spent p s_next ≡ true)
        × ((d : C) → IsGenuine d s → IsGenuine d s_next)
  pub verify-replay :
      (c : C) (p : P) (t : Felt252) (s : S)
      → IsGenuine c s
      → Presents c p t
      → is_spent p s ≡ true
      → scheme.verify p s ≡ (err replay, s)
  pub charge-ok :
      (draws : Draws) (c : C) (p : P) (charge : ℕ) (s : S)
      → charge ≤ scheme.balance c
      → IsProper draws c p charge s
      → (c_next : C) × (s_next : S) × (scheme.apply_charge draws c p charge s ≡ (ok c_next, s_next))
        × IsGenuine c_next s_next
        × ((q : P) → is_spent q s ≡ true → is_spent q s_next ≡ true)
  pub charge-err :
      (draws : Draws) (c : C) (p : P) (charge : ℕ) (s : S)
      → scheme.balance c < charge
      → scheme.apply_charge draws c p charge s
        ≡ (err (insufficient_balance (scheme.balance c) charge), s)
  pub charge-balance :
      (draws : Draws) (c c_next : C) (p : P) (charge : ℕ) (s : S)
      → (scheme.apply_charge draws c p charge s).0 ≡ ok c_next
      → scheme.balance c_next + charge ≡ scheme.balance c
  pub withdrawal :
      (c : C) (s : S)
      → (w : P) × (t : Felt252) × (scheme.build_withdrawal c s ≡ ok w)
        × Presents c w t
        × ((s_next : S)
            → scheme.verify w s ≡ (ok t, s_next)
            → scheme.verify_withdrawal w s ≡ (ok (scheme.balance c, t), s_next))
