-- ===== src/Auth/Defs.antt =====
-- zkapi-auth/src/lib.rs: the errors, the kinds of scheme and the interface CredentialScheme. The
-- message that an error formats keeps its fixed text alone.

use zkapi_ef_collab.Base.{
  ℕ, List, [], ◌∷◌, Bool, true, false, arith, ◌||◌, ◌==◌, nat_eq, String, ◌≡◌, ◌⊎◌, inl, inr, refl,
}
use zkapi_ef_collab.Server.Wire.{Felt252}

pub data AuthError : Type 0 where
  verification_failed : String → AuthError
  -- have and need
  insufficient_balance : ℕ → ℕ → AuthError
  replay : AuthError
  crypto : String → AuthError

-- Result<T, AuthError>
pub data AuthResult (A : Type 0) : Type 0 where
  ok : A → AuthResult A
  err : AuthError → AuthResult A

pub AuthResult-cases :
    {A : Type 0} (r : AuthResult A) → ((e : AuthError) × (r ≡ err e)) ⊎ ((a : A) × (r ≡ ok a))
AuthResult-cases (ok a) = inr (a, refl)
AuthResult-cases (err e) = inl (e, refl)

pub data AuthSchemeKind : Type 0 where
  state_anchor : AuthSchemeKind
  blind_signature : AuthSchemeKind

-- The random numbers that a call draws: the bytes of a scalar each.
abbrev pub Draws : Type 0
Draws = ℕ → List ℕ

-- The trait, with a scheme's state as an argument and in the result where a method takes `&mut self`.
pub record CredentialScheme (S Credential Presentation : Type 0) : Type 0 where
  pub kind : AuthSchemeKind
  pub issue : Draws → Felt252 → ℕ → S → AuthResult Credential × S
  pub authenticate : Draws → Credential → ℕ → S → AuthResult (Presentation × Felt252)
  pub verify : Presentation → S → AuthResult Felt252 × S
  pub apply_charge : Draws → Credential → Presentation → ℕ → S → AuthResult Credential × S
  pub build_withdrawal : Credential → S → AuthResult Presentation
  pub verify_withdrawal : Presentation → S → AuthResult (ℕ × Felt252) × S
  pub balance : Credential → ℕ

-- HashSet::contains
unfoldable pub contains : Felt252 → List Felt252 → Bool
contains token [] = false
contains token (t ∷ spent) = t == token || contains token spent

pub contains_self : (token : Felt252) (spent : List Felt252) → contains token (token ∷ spent) ≡ true
unfolding contains
contains_self token spent = ground arith

-- What `verify_withdrawal` does after `verify`.
abbrev pub settled : {S : Type 0} → ℕ → AuthResult Felt252 × S → AuthResult (ℕ × Felt252) × S
settled balance (err e, s) = (err e, s)
settled balance (ok token, s) = (ok (balance, token), s)

-- A withdrawal that is settled was verified, and pays what it shows.
pub settled-ok :
    {S : Type 0} (balance paid : ℕ) (t : Felt252) (s_next : S) (r : AuthResult Felt252 × S)
    → settled balance r ≡ (ok (paid, t), s_next)
    → (r ≡ (ok t, s_next)) × (paid ≡ balance)
settled-ok balance paid t s_next (err e, s) h = cc
settled-ok balance paid t s_next (ok token, s) h = (cc, cc)
