-- ===== src/Auth/Blind.antt =====
-- zkapi-auth/src/blind_signature.rs: BlindSignatureScheme. The set of spent serials is a list.

use zkapi_ef_collab.Base.{ℕ, String, ◌-◌, List, [], ◌∷◌, not, ltb, if◌then◌else◌}
use zkapi_ef_collab.Server.Wire.{Felt252}
use zkapi_ef_collab.Auth.Defs.{
  AuthResult, CredentialScheme, Draws, ok, err, verification_failed, insufficient_balance, replay,
  blind_signature, contains, settled,
}
use zkapi_ef_collab.Auth.Scalar as Scalar
use zkapi_ef_collab.Auth.Schnorr as Schnorr
use zkapi_ef_collab.Auth.Schnorr.{
  Primitives, SigningKey, Signature, from_secret, server_commit, client_blind, server_respond,
  client_unblind,
}

pub record BlindCredential : Type 0 where
  pub balance : ℕ
  pub serial : Felt252
  pub signature : Signature

pub record BlindPresentation : Type 0 where
  pub balance : ℕ
  pub serial : Felt252
  pub signature : Signature

pub record BlindSignatureScheme (P : Type 0) : Type 0 where
  pub key : SigningKey P
  pub spent : List Felt252

abbrev pub presented : BlindCredential → BlindPresentation
presented c = record { balance = c.balance; serial = c.serial; signature = c.signature }

module _ {P : Type 0} (prims : Primitives P) where
  open prims use {order, keccak256, felt_bytes, u128_bytes}

  abbrev pub hash_to_felt : String → List (List ℕ) → Felt252
  hash_to_felt domain parts = Scalar.from_bytes_reduced order (keccak256 domain parts)

  unfoldable pub credential_message : ℕ → Felt252 → Felt252
  credential_message balance serial =
      hash_to_felt "zkapi.bs.cred.v1" (u128_bytes balance ∷ felt_bytes serial ∷ [])

  -- The bytes of "genesis", and those of the secret.
  unfoldable pub first_serial : Felt252 → Felt252
  first_serial secret =
      hash_to_felt "zkapi.bs.serial.v1"
        ((103 ∷ 101 ∷ 110 ∷ 101 ∷ 115 ∷ 105 ∷ 115 ∷ []) ∷ felt_bytes secret ∷ [])

  unfoldable pub next_serial : Felt252 → Felt252
  next_serial prev = hash_to_felt "zkapi.bs.serial.v1" (felt_bytes prev ∷ [])

  abbrev pub new_scheme : SigningKey P → BlindSignatureScheme P
  new_scheme key = record { key = key; spent = [] }

  -- The draws are the nonce, and α and β.
  unfoldable pub blind_issue : SigningKey P → Felt252 → Draws → Signature
  blind_issue key message draws =
      let nonce = server_commit prims (draws 0) in
      let blinded = client_blind prims nonce.commitment key.public message (draws 1) (draws 2) in
      client_unblind prims blinded.0 (server_respond prims nonce key blinded.1)

  unfoldable pub issue :
      Draws
      → Felt252
      → ℕ
      → BlindSignatureScheme P
      → AuthResult BlindCredential × BlindSignatureScheme P
  issue draws secret balance s =
      let serial = first_serial secret in
      (
        ok (record {
          balance = balance;
          serial = serial;
          signature = blind_issue s.key (credential_message balance serial) draws;
        }),
        s,
      )

  unfoldable pub authenticate :
      Draws
      → BlindCredential
      → ℕ
      → BlindSignatureScheme P
      → AuthResult (BlindPresentation × Felt252)
  authenticate draws c cap s =
      if ltb c.balance cap
      then err (insufficient_balance c.balance cap)
      else ok (presented c, c.serial)

  unfoldable pub verify :
      BlindPresentation → BlindSignatureScheme P → AuthResult Felt252 × BlindSignatureScheme P
  verify p s =
      let message = credential_message p.balance p.serial in
      if not (Schnorr.verify prims s.key.public message p.signature)
      then (err (verification_failed "invalid blind signature"), s)
      else if contains p.serial s.spent
      then (err replay, s)
      else (ok p.serial, record s { spent = p.serial ∷ s.spent })

  unfoldable pub apply_charge :
      Draws
      → BlindCredential
      → BlindPresentation
      → ℕ
      → BlindSignatureScheme P
      → AuthResult BlindCredential × BlindSignatureScheme P
  apply_charge draws c p charge s =
      let next_balance = c.balance - charge in
      let serial = next_serial c.serial in
      if ltb c.balance charge then (err (insufficient_balance c.balance charge), s) else (
        ok (record {
          balance = next_balance;
          serial = serial;
          signature = blind_issue s.key (credential_message next_balance serial) draws;
        }),
        s,
      )

  unfoldable pub verify_withdrawal :
      BlindPresentation → BlindSignatureScheme P → AuthResult (ℕ × Felt252) × BlindSignatureScheme P
  verify_withdrawal w s = settled w.balance (verify w s)

  abbrev pub blind_scheme :
      CredentialScheme (BlindSignatureScheme P) BlindCredential BlindPresentation
  blind_scheme = record {
    kind = blind_signature;
    issue = issue;
    authenticate = authenticate;
    verify = verify;
    apply_charge = apply_charge;
    build_withdrawal = λ c s. ok (presented c);
    verify_withdrawal = verify_withdrawal;
    balance = λ c. c.balance;
  }
