-- ===== src/Auth/Multiply.antt =====
-- The points of a curve as a group, and double-and-add against repeated addition.

use zkapi_ef_collab.Base.{
  ℕ, zero, suc, ◌+◌, ◌*◌, ◌/◌, ◌%◌, ◌^◌, List, [], ◌∷◌, Bool, ◌==◌, nat_eq, if◌then◌else◌, ◌≡◌, ◌<◌,
  ◌≤◌, refl, arith, ap, sym, ◌∙◌, Bool-cases, inl, inr,
}
use zkapi_ef_collab.Server.Wire.{Felt252}
use native.Mathlib.Nat.{suc-mul, mod-lt, two-pow-succ}

-- starknet_types_core: ProjectivePoint by its operations. `x` is that of the affine point.
pub record Curve (P : Type 0) : Type 0 where
  pub generator : P
  pub identity : P
  pub add : P → P → P
  pub neg : P → P
  pub x : P → Felt252
  pub is_identity : P → Bool

-- The points are a commutative group, in which the generator has the given order.
pub record IsGroup {P : Type 0} (curve : Curve P) : Type 0 where
  pub add_assoc : (p q r : P) → curve.add (curve.add p q) r ≡ curve.add p (curve.add q r)
  pub add_comm : (p q : P) → curve.add p q ≡ curve.add q p
  pub add-identity : (p : P) → curve.add p curve.identity ≡ p
  pub add-neg : (p : P) → curve.add p (curve.neg p) ≡ curve.identity

module _ {P : Type 0} (curve : Curve P) where
  open curve use {identity, add}

  -- Repeated addition.
  abbrev pub times : ℕ → P → P
  times zero p = identity
  times (suc k) p = add p (times k p)

  -- `Felt::to_bits_le`: the lowest bit first, in a fixed number of bits.
  abbrev pub to_bits_le : ℕ → ℕ → List Bool
  to_bits_le zero k = []
  to_bits_le (suc width) k = (k % 2 == 1) ∷ to_bits_le width (k / 2)

  -- The loop of `scalar_mul`.
  abbrev pub add_bits : List Bool → P → P → P
  add_bits [] result temp = result
  add_bits (bit ∷ bits) result temp =
      add_bits bits (if bit then add result temp else result) (add temp temp)

  unfoldable pub scalar_mul : ℕ → P → ℕ → P
  scalar_mul order point k = add_bits (to_bits_le 256 (k % order)) identity point

  module _ (laws : IsGroup curve) where
    identity-add : (p : P) → add identity p ≡ p
    identity-add p = laws.add_comm identity p ∙ laws.add-identity p

    pub times-add : (a b : ℕ) (p : P) → times (a + b) p ≡ add (times a p) (times b p)
    times-add zero b p =
        ap (λ n. times n p) {x = 0 + b} {y = b} (omega arith) ∙ sym (identity-add (times b p))
    times-add (suc a) b p =
        ap (λ n. times n p) {x = suc a + b} {y = suc (a + b)} (omega arith)
        ∙ ap (add p) (times-add a b p)
        ∙ sym (laws.add_assoc p (times a p) (times b p))

    pub times-mul : (a b : ℕ) (p : P) → times (a * b) p ≡ times a (times b p)
    times-mul zero b p = ap (λ n. times n p) {x = 0 * b} {y = 0} (omega arith)
    times-mul (suc a) b p =
        ap (λ n. times n p) (suc-mul a b)
        ∙ times-add (a * b) b p
        ∙ laws.add_comm (times (a * b) p) (times b p)
        ∙ ap (add (times b p)) (times-mul a b p)

    pub add_swap : (p q r s : P) → add (add p q) (add r s) ≡ add (add p r) (add q s)
    add_swap p q r s =
        laws.add_assoc p q (add r s)
        ∙ ap (add p) (
            sym (laws.add_assoc q r s)
            ∙ ap (λ t. add t s) (laws.add_comm q r)
            ∙ laws.add_assoc r q s)
        ∙ sym (laws.add_assoc p r (add q s))

    times-double : (k : ℕ) (p : P) → times k (add p p) ≡ times (k + k) p
    times-double zero p = refl
    times-double (suc k) p =
        ap (add (add p p)) (times-double k p ∙ times-add k k p)
        ∙ add_swap p p (times k p) (times k p)
        ∙ sym (times-add (suc k) (suc k) p)

    add_bits-times :
        (width k : ℕ) (result temp : P)
        → k < 2 ^ width
        → add_bits (to_bits_le width k) result temp ≡ add result (times k temp)
    add_bits-times zero k result temp h =
        sym (laws.add-identity result)
        ∙ ap (λ n. add result (times n temp)) {x = 0} {y = k} (omega arith)
    add_bits-times (suc width) k result temp h =
        let half : k / 2 < 2 ^ width = ground (arith, two-pow-succ width) in
        add_bits-times width (k / 2) (if k % 2 == 1 then add result temp else result)
          (add temp temp) half
        ∙ ap (add (if k % 2 == 1 then add result temp else result)) (times-double (k / 2) temp)
        ∙ elim (Bool-cases (k % 2 == 1)) [
          | inl odd ↦ rw odd (
              laws.add_assoc result temp (times (k / 2 + k / 2) temp)
              ∙ ap (λ n. add result (times n temp)) {x = suc (k / 2 + k / 2)} {y = k}
                  (ground arith))
          | inr even ↦
              rw even
                (ap (λ n. add result (times n temp)) {x = k / 2 + k / 2} {y = k} (ground arith))
        ]

    -- Double-and-add over the bits is repeated addition, as many times as the scalar's residue.
    pub scalar_mul-times :
        (order : ℕ) (point : P) (k : ℕ)
        → zero < order
        → order ≤ 2 ^ 256
        → scalar_mul order point k ≡ times (k % order) point
    unfolding scalar_mul
    scalar_mul-times order point k positive bound =
        add_bits-times 256 (k % order) identity point (ground (arith, mod-lt k positive))
        ∙ identity-add (times (k % order) point)
