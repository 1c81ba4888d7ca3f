-- ===== src/Auth/Complete.antt =====
-- A blind signature that was issued is accepted.
use zkapi_ef_collab.Base.{
  ℕ, zero, suc, ◌+◌, ◌*◌, ◌%◌, ◌/◌, ◌^◌, List, true, false, ◌==◌, nat_eq, ◌≡◌, ◌<◌, ◌≤◌, refl,
  arith, ap, sym, ◌∙◌,
}
use zkapi_ef_collab.Server.Wire.{Felt252}
use zkapi_ef_collab.Auth.Multiply.{IsGroup, times, times-add, times-mul, scalar_mul-times}
use zkapi_ef_collab.Auth.Scalar as Scalar
use zkapi_ef_collab.Auth.Schnorr.{
  Primitives, BlindState, Signature, multiply, challenge, random_scalar, from_secret, server_commit,
  client_blind, server_respond, client_unblind, verify,
}
use native.Mathlib.Nat.{mod-add-div', mul_comm}

module _ {P : Type 0} (prims : Primitives P) where
  -- The issuance of a signature in its four steps, with the draws of both sides.
  abbrev pub issuance : Felt252 → Felt252 → List ℕ → List ℕ → List ℕ → BlindState P × Signature
  issuance secret message k_bytes alpha_bytes beta_bytes =
      let key = from_secret prims secret in
      let nonce = server_commit prims k_bytes in
      let blinded = client_blind prims nonce.commitment key.public message alpha_bytes beta_bytes in
      let s = server_respond prims nonce key blinded.1 in
      (blinded.0, client_unblind prims blinded.0 s)

-- The points are a group, the generator's order divides the given one, and that is below 2 ^ 256.
pub record IsCurve {P : Type 0} (prims : Primitives P) : Type 0 where
  pub group : IsGroup prims.curve
  pub order_positive : zero < prims.order
  pub order-le : prims.order ≤ 2 ^ 256
  pub order-times : times prims.curve prims.order prims.curve.generator ≡ prims.curve.identity

module _ {P : Type 0} (prims : Primitives P) (laws : IsCurve prims) where
  open prims use {curve, order}
  open curve use {generator, add, neg, identity, is_identity}

  times-identity : (k : ℕ) → times curve k identity ≡ identity
  times-identity zero = refl
  times-identity (suc k) = ap (add identity) (times-identity k) ∙ laws.group.add-identity identity

  -- A point whose multiple by the order is the identity, multiplied by a residue.
  times-mod :
      (p : P) (k : ℕ) → times curve order p ≡ identity → times curve (k % order) p ≡ times curve k p
  times-mod p k torsion =
      let whole =
        ap (λ n. times curve n p) (sym (mod-add-div' k order))
        ∙ times-add curve laws.group (k % order) (k / order * order) p
        ∙ ap (add (times curve (k % order) p)) (
            times-mul curve laws.group (k / order) order p
            ∙ ap (times curve (k / order)) torsion
            ∙ times-identity (k / order))
        ∙ laws.group.add-identity (times curve (k % order) p) in
      sym whole

  times-torsion : (k : ℕ) → times curve order (times curve k generator) ≡ identity
  times-torsion k =
      sym (times-mul curve laws.group order k generator)
      ∙ ap (λ n. times curve n generator) (mul_comm order k)
      ∙ times-mul curve laws.group k order generator
      ∙ ap (times curve k) laws.order-times
      ∙ times-identity k

  multiply-times :
      (p : P) (k : ℕ) → times curve order p ≡ identity → multiply prims p k ≡ times curve k p
  multiply-times p k torsion =
      scalar_mul-times curve laws.group order p k laws.order_positive laws.order-le
      ∙ times-mod p k torsion

  -- A sum of scalars that is reduced, in the group.
  times-add_mod :
      (a b : ℕ) (p : P)
      → times curve order p ≡ identity
      → times curve (Scalar.add order a b) p ≡ add (times curve a p) (times curve b p)
  times-add_mod a b p torsion = times-mod p (a + b) torsion ∙ times-add curve laws.group a b p

  add_right_comm : (p q r : P) → add (add p q) r ≡ add (add p r) q
  add_right_comm p q r =
      laws.group.add_assoc p q r
      ∙ ap (add p) (laws.group.add_comm q r)
      ∙ sym (laws.group.add_assoc p r q)

  cancel :
      (nonce alpha beta c : P)
      → add (add (add nonce (add c beta)) alpha) (neg c) ≡ add (add nonce alpha) beta
  cancel nonce alpha beta c =
      ap (λ p. add (add p alpha) (neg c))
        (ap (add nonce) (laws.group.add_comm c beta) ∙ sym (laws.group.add_assoc nonce beta c))
      ∙ ap (λ p. add p (neg c)) (add_right_comm (add nonce beta) c alpha)
      ∙ laws.group.add_assoc (add (add nonce beta) alpha) c (neg c)
      ∙ ap (add (add (add nonce beta) alpha)) (laws.group.add-neg c)
      ∙ laws.group.add-identity (add (add nonce beta) alpha)
      ∙ add_right_comm nonce beta alpha

  -- The point that `verify` recovers is the client's blinded commitment.
  recovered :
      (k alpha beta c_prime secret : ℕ) (public_key : P)
      → public_key ≡ times curve secret generator
      → let c = Scalar.add order c_prime beta in
        let s = Scalar.add order k (Scalar.mul order c secret) in
        add
          (multiply prims generator (Scalar.add order s alpha))
          (neg (multiply prims public_key c_prime))
        ≡ add
            (add (multiply prims generator k) (multiply prims generator alpha))
            (multiply prims public_key beta)
  recovered k alpha beta c_prime secret public_key e =
      let c = Scalar.add order c_prime beta in
      let s = Scalar.add order k (Scalar.mul order c secret) in
      let on_g = laws.order-times in
      let on_public = ap (times curve order) e ∙ times-torsion secret in
      let nonce = times curve k generator in
      let blinding = times curve alpha generator in
      let shift = times curve beta public_key in
      let bound = times curve c_prime public_key in
      let answer =
        multiply-times generator (Scalar.add order s alpha) on_g
        ∙ times-add_mod s alpha generator on_g
        ∙ ap (λ p. add p blinding)
            (times-add_mod k (Scalar.mul order c secret) generator on_g
              ∙ ap (add nonce) (
                  times-mod generator (c * secret) on_g
                  ∙ times-mul curve laws.group c secret generator
                  ∙ ap (times curve c) (sym e)
                  ∙ times-add_mod c_prime beta public_key on_public)) in
      let blinded =
        ap (λ p. add (add p (multiply prims generator alpha)) (multiply prims public_key beta))
          (multiply-times generator k on_g)
        ∙ ap (λ p. add (add nonce p) (multiply prims public_key beta))
            (multiply-times generator alpha on_g)
        ∙ ap (add (add nonce blinding)) (multiply-times public_key beta on_public) in
      ap (λ p. add p (neg (multiply prims public_key c_prime))) answer
      ∙ ap (λ p. add (add (add nonce (add bound shift)) blinding) (neg p))
          (multiply-times public_key c_prime on_public)
      ∙ cancel nonce blinding shift bound
      ∙ sym blinded

  verify-accepts :
      (public_key : P) (message : Felt252) (sig : Signature) (r : P)
      → add (multiply prims generator sig.s_prime) (neg (multiply prims public_key sig.c_prime)) ≡ r
      → is_identity r ≡ false
      → challenge prims r message ≡ sig.c_prime
      → verify prims public_key message sig ≡ true
  unfolding verify
  verify-accepts public_key message sig r e proper same =
      let agrees : (challenge prims r message == sig.c_prime) ≡ true = ground arith in
      rw (verify, e, proper) agrees

  -- Every signature that is issued verifies, whatever is drawn, if the blinded commitment is not
  -- the identity.
  pub verify-issuance :
      (secret message : Felt252) (k_bytes alpha_bytes beta_bytes : List ℕ)
      → let issued = issuance prims secret message k_bytes alpha_bytes beta_bytes in
        is_identity issued.0.r_prime ≡ false
        → verify prims (from_secret prims secret).public message issued.1 ≡ true
  unfolding from_secret server_commit client_blind server_respond client_unblind verify
  verify-issuance secret message k_bytes alpha_bytes beta_bytes proper =
      let issued = issuance prims secret message k_bytes alpha_bytes beta_bytes in
      let x = Scalar.reduce order secret in
      let k = random_scalar prims k_bytes in
      let alpha = random_scalar prims alpha_bytes in
      let beta = random_scalar prims beta_bytes in
      verify-accepts (from_secret prims secret).public message issued.1 issued.0.r_prime
        (recovered k alpha beta (challenge prims issued.0.r_prime message) x
          (multiply prims generator x) (multiply-times generator x laws.order-times))
        proper refl
