-- ===== src/Auth/Schnorr.antt =====
-- zkapi-auth/src/blind_schnorr.rs over a curve, a group order and Keccak-256 as parameters. The
-- random scalars are reduced from the bytes that are drawn.

use zkapi_ef_collab.Base.{ℕ, String, List, [], ◌∷◌, Bool, false, ◌==◌, nat_eq, if◌then◌else◌}
use zkapi_ef_collab.Server.Wire.{Felt252}
use zkapi_ef_collab.Auth.Multiply.{Curve, scalar_mul}
use zkapi_ef_collab.Auth.Scalar as Scalar

-- What the scheme takes from its libraries: the curve and its order, the Keccak-256 digest of a
-- domain and further pieces, and the bytes of a field element and of a u128.
pub record Primitives (P : Type 0) : Type 0 where
  pub curve : Curve P
  pub order : ℕ
  pub keccak256 : String → List (List ℕ) → List ℕ
  pub felt_bytes : Felt252 → List ℕ
  pub u128_bytes : ℕ → List ℕ

pub record SigningKey (P : Type 0) : Type 0 where
  pub secret : ℕ
  pub public : P

pub record IssuanceNonce (P : Type 0) : Type 0 where
  pub k : ℕ
  pub commitment : P

pub record BlindState (P : Type 0) : Type 0 where
  pub alpha : ℕ
  pub r_prime : P
  pub message : Felt252

pub record Signature : Type 0 where
  pub c_prime : ℕ
  pub s_prime : ℕ

module _ {P : Type 0} (prims : Primitives P) where
  open prims use {curve, order, keccak256, felt_bytes}
  open curve use {generator, add, neg, x, is_identity}

  -- `scalar_mul`, and the scalars of scalar.rs, at the order of the curve
  abbrev pub multiply : P → ℕ → P
  multiply = scalar_mul curve order

  unfoldable pub challenge : P → Felt252 → ℕ
  challenge r_prime message =
      Scalar.from_bytes_reduced order
        (keccak256 "zkapi.blind-schnorr.v1" (felt_bytes (x r_prime) ∷ felt_bytes message ∷ []))

  abbrev pub random_scalar : List ℕ → ℕ
  random_scalar bytes = Scalar.from_bytes_reduced order bytes

  unfoldable pub from_secret : Felt252 → SigningKey P
  from_secret secret =
      let reduced = Scalar.reduce order secret in
      record { secret = reduced; public = multiply generator reduced }

  unfoldable pub server_commit : List ℕ → IssuanceNonce P
  server_commit bytes =
      let k = random_scalar bytes in record { k = k; commitment = multiply generator k }

  -- The blinding state and the challenge to send, with the bytes of α and of β.
  unfoldable pub client_blind : P → P → Felt252 → List ℕ → List ℕ → BlindState P × ℕ
  client_blind commitment public_key message alpha_bytes beta_bytes =
      let alpha = random_scalar alpha_bytes in
      let beta = random_scalar beta_bytes in
      let r_prime = add (add commitment (multiply generator alpha)) (multiply public_key beta) in
      let c_prime = challenge r_prime message in
      (
        record { alpha = alpha; r_prime = r_prime; message = message },
        Scalar.add order c_prime beta,
      )

  unfoldable pub server_respond : IssuanceNonce P → SigningKey P → ℕ → ℕ
  server_respond nonce key c = Scalar.add order nonce.k (Scalar.mul order c key.secret)

  unfoldable pub client_unblind : BlindState P → ℕ → Signature
  client_unblind state s = record {
    c_prime = challenge state.r_prime state.message;
    s_prime = Scalar.add order s state.alpha;
  }

  unfoldable pub verify : P → Felt252 → Signature → Bool
  verify public_key message sig =
      let r_pp = add (multiply generator sig.s_prime) (neg (multiply public_key sig.c_prime)) in
      if is_identity r_pp then false else challenge r_pp message == sig.c_prime
