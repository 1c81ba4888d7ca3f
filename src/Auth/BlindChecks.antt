-- ===== src/Auth/BlindChecks.antt =====
-- What the checks of zkapi-auth/src/blind_signature.rs accept.

use zkapi_ef_collab.Base.{ℕ, [], ◌∷◌, Bool, true, false, nat_eq, ◌≡◌, arith, Bool-cases, inl, inr}
use zkapi_ef_collab.Server.Wire.{Felt252}
use zkapi_ef_collab.Auth.Defs.{AuthError, ok, err, contains}
use zkapi_ef_collab.Auth.Schnorr as Schnorr
use zkapi_ef_collab.Auth.Schnorr.{Primitives, Signature, from_secret}
use zkapi_ef_collab.Auth.Scalar as Scalar
use zkapi_ef_collab.Auth.Blind.{
  BlindCredential, BlindPresentation, BlindSignatureScheme, credential_message, verify,
}

module _ {P : Type 0} (prims : Primitives P) where
  -- The equations of a Schnorr signature.
  abbrev pub IsSignature : P → Felt252 → Signature → Type 0
  IsSignature public message sig =
      let r =
        prims.curve.add (Schnorr.multiply prims prims.curve.generator sig.s_prime)
          (prims.curve.neg (Schnorr.multiply prims public sig.c_prime)) in
      (prims.curve.is_identity r ≡ false) × (Schnorr.challenge prims r message ≡ sig.c_prime)

  -- A signature under the scheme's key on the balance and the serial.
  abbrev pub IsSigned : ℕ → Felt252 → Signature → BlindSignatureScheme P → Type 0
  IsSigned balance serial sig s =
      IsSignature s.key.public
        (Scalar.from_bytes_reduced prims.order (
          prims.keccak256 "zkapi.bs.cred.v1"
            (prims.u128_bytes balance ∷ prims.felt_bytes serial ∷ [])))
        sig

  abbrev pub IsGenuine : BlindCredential → BlindSignatureScheme P → Type 0
  IsGenuine c s = IsSigned c.balance c.serial c.signature s

  abbrev pub IsAuthentic : BlindPresentation → BlindSignatureScheme P → Type 0
  IsAuthentic p s = IsSigned p.balance p.serial p.signature s

  abbrev pub amount : BlindPresentation → ℕ
  amount p = p.balance

  pub signature-ok :
      (public : P) (message : Felt252) (sig : Signature)
      → IsSignature public message sig
      → Schnorr.verify prims public message sig ≡ true
  unfolding Schnorr.verify
  signature-ok public message sig h = rw (Schnorr.verify, h.0) (ground (arith, h.1))

  pub signature-IsSignature :
      (public : P) (message : Felt252) (sig : Signature)
      → Schnorr.verify prims public message sig ≡ true
      → IsSignature public message sig
  unfolding Schnorr.verify
  signature-IsSignature public message sig h = ground arith

  abbrev pub is_spent : BlindPresentation → BlindSignatureScheme P → Bool
  is_spent p s = contains p.serial s.spent

  -- What is accepted is signed and unspent, and what is refused changes nothing.
  pub verify-IsAuthentic :
      (p : BlindPresentation) (t : Felt252) (s s_next : BlindSignatureScheme P)
      → verify prims p s ≡ (ok t, s_next)
      → IsAuthentic p s × (is_spent p s ≡ false)
  unfolding verify credential_message
  verify-IsAuthentic p t s s_next h =
      let message = credential_message prims p.balance p.serial in
      elim (Bool-cases (Schnorr.verify prims s.key.public message p.signature)) [
        | inr forged ↦ let x = rw (verify, forged) at h in cc
        | inl valid ↦ elim (Bool-cases (contains p.serial s.spent)) [
          | inl spent ↦ let x = rw (verify, valid, spent) at h in cc
          | inr fresh ↦ (signature-IsSignature s.key.public message p.signature valid, fresh)
        ]
      ]

  pub verify-err :
      (p : BlindPresentation) (e : AuthError) (s s_next : BlindSignatureScheme P)
      → verify prims p s ≡ (err e, s_next)
      → s_next ≡ s
  unfolding verify
  verify-err p e s s_next h =
      let message = credential_message prims p.balance p.serial in
      elim (Bool-cases (Schnorr.verify prims s.key.public message p.signature)) [
        | inr forged ↦ let x = rw (verify, forged) at h in cc
        | inl valid ↦ elim (Bool-cases (contains p.serial s.spent)) [
          | inl spent ↦ let x = rw (verify, valid, spent) at h in cc
          | inr fresh ↦ let x = rw (verify, valid, fresh) at h in cc
        ]
      ]
