-- ===== src/Auth/Scalar.antt =====
-- zkapi-auth/src/scalar.rs: arithmetic modulo the order of the curve's group, which zkapi-crypto
-- has as a constant and which is an argument here.

use zkapi_ef_collab.Base.{ℕ, zero, ◌+◌, ◌-◌, ◌*◌, ◌%◌, ◌/◌, List, ◌≡◌, ◌<◌, arith, ap, ◌∙◌}
use zkapi_ef_collab.Indexer.Poller.Text.{be_value}
use native.Mathlib.Nat.{
  mod-lt, mod-mod, mod-add-mod, mod-add-div, mul-add, mul-one, add-mul-mod_self_left,
}

module _ (order : ℕ) where
  abbrev pub reduce : ℕ → ℕ
  reduce a = a % order

  abbrev pub add : ℕ → ℕ → ℕ
  add a b = (a + b) % order

  unfoldable pub sub : ℕ → ℕ → ℕ
  sub a b = (a % order + order - b % order) % order

  abbrev pub mul : ℕ → ℕ → ℕ
  mul a b = (a * b) % order

  unfoldable pub from_bytes_reduced : List ℕ → ℕ
  from_bytes_reduced bytes = be_value 0 bytes % order

  -- Taking the residue of `b` away and adding `b` changes no residue.
  minus_residue : (a b : ℕ) → zero < order → (a + (order - b % order) + b) % order ≡ a % order
  minus_residue a b positive =
      ap (λ n. n % order) {x = a + (order - b % order) + b} {y = a + order * (b / order + 1)}
        (ground (
          arith,
          mod-lt b positive,
          mod-add-div b order,
          mul-add order (b / order) 1,
          mul-one order,
        ))
      ∙ add-mul-mod_self_left a order (b / order + 1)

  -- Subtraction takes back an addition and an addition a subtraction, on residues.
  pub sub_inverse :
      (a b : ℕ)
      → zero < order
      → (sub (add a b) b ≡ reduce a) × (add (sub a b) b ≡ reduce a) × (sub a b < order)
  unfolding sub
  sub_inverse a b positive =
      let low = mod-lt b positive in
      (
        ap (λ n. n % order) {x = (a + b) % order % order + order - b % order}
              {y = (a + b) % order % order + (order - b % order)} (ground (arith, low))
            ∙ ap (λ n. (n + (order - b % order)) % order) (mod-mod (a + b) order)
            ∙ mod-add-mod (a + b) order (order - b % order)
            ∙ ap (λ n. n % order) {x = a + b + (order - b % order)}
                {y = a + (order - b % order) + b} (omega arith)
            ∙ minus_residue a b positive,
        mod-add-mod (a % order + order - b % order) order b
            ∙ ap (λ n. n % order) {x = a % order + order - b % order + b}
                {y = a % order + (order - b % order) + b} (ground (arith, low))
            ∙ minus_residue (a % order) b positive
            ∙ mod-mod a order,
        mod-lt (a % order + order - b % order) positive,
      )
