-- ===== src/Server/PriceLaws.antt =====
-- The price that zkapi-serverd/src/pricing.rs finds is that of the longest id.

use Prim.Native.String.{len}
use text.Mathlib.Text.{starts_with}
use zkapi_ef_collab.Base.{
  ℕ, String, suc, List, [], ◌∷◌, Bool, true, false, ◌&&◌, Option, none, some, if◌then◌else◌, ◌≡◌,
  ◌≤◌, ◌<◌, refl, arith, Bool-cases, inl, inr, ◌⊎◌, subst,
}
use zkapi_ef_collab.Server.Pricing.{
  Entry, PriceFloats, ModelPrice, is_longer, longest_match, openai_prices, priced, openai_price,
  trim,
}

-- An entry of the table.
pub data In (e : Entry) : List Entry → Type 0 where
  here : {rest : List Entry} → In e (e ∷ rest)
  there : {x : Entry} {rest : List Entry} → In e rest → In e (x ∷ rest)

-- The length of the best id so far, above that of no id.
abbrev size : Option Entry → ℕ
size none = 0
size (some best) = suc (len best.0)

size-step :
    (model id : String) (price : ModelPrice) (best : Option Entry)
    → size best
      ≤ size (if starts_with model id && is_longer id best then some (id, price) else best)
size-step model id price none = ground arith
size-step model id price (some best) = ground arith

size-longest_match :
    (model : String) (table : List Entry) (best : Option Entry)
    → size best ≤ size (longest_match model table best)
unfolding longest_match
size-longest_match model [] best = omega arith
size-longest_match model ((id, price) ∷ rest) best =
    let next = if starts_with model id && is_longer id best then some (id, price) else best in
    let first = size-step model id price best in
    let then_on = size-longest_match model rest next in omega arith

size-matched :
    (model id : String) (price : ModelPrice) (best : Option Entry)
    → starts_with model id ≡ true
    → len id < size (if starts_with model id && is_longer id best then some (id, price) else best)
size-matched model id price none h = rw h (omega arith)
size-matched model id price (some best) h = rw h (ground arith)

-- Every id that the model starts with is at most as long as the one that is found.
matches-le :
    (model id : String) (price : ModelPrice) {table : List Entry} (best : Option Entry)
    → In (id, price) table
    → starts_with model id ≡ true
    → len id < size (longest_match model table best)
unfolding longest_match
matches-le model id price best (here {rest = rest}) h =
    let next = if starts_with model id && is_longer id best then some (id, price) else best in
    let first = size-matched model id price best h in
    let then_on = size-longest_match model rest next in omega arith
matches-le model id price best (there {x = (other, q)} i) h =
    matches-le model id price
      (if starts_with model other && is_longer other best then some (other, q) else best) i h

and_left : (a b : Bool) → (a && b) ≡ true → a ≡ true
and_left true b h = refl
and_left false b h = cc

-- What is found starts the model and stands in the table, or was the best before.
found-In :
    (model : String) (table : List Entry) (best : Option Entry) (e : Entry)
    → longest_match model table best ≡ some e
    → (In e table × (starts_with model e.0 ≡ true)) ⊎ (best ≡ some e)
unfolding longest_match
found-In model [] best e h = inr h
found-In model ((id, price) ∷ rest) best e h =
    elim (Bool-cases (starts_with model id && is_longer id best)) [
      | inl taken ↦
          elim (found-In model rest (some (id, price)) e (rw (longest_match, taken) at h)) [
            | inl (i, starts) ↦ inl (there i, starts)
            | inr same ↦
                let found : ◌≡◌ {A = Entry} (id, price) e = cc in
                let starts = and_left (starts_with model id) (is_longer id best) taken in
                inl (
                  subst (λ x. In x ((id, price) ∷ rest)) found here,
                  subst (λ (x : Entry). starts_with model x.0 ≡ true) found starts,
                )
          ]
      | inr passed ↦ elim (found-In model rest best e (rw (longest_match, passed) at h)) [
        | inl (i, starts) ↦ inl (there i, starts)
        | inr same ↦ inr same
      ]
    ]

-- The price that is found exactly is that of an id in the table that the model starts with, and no
-- longer id of the table is one; if no id is, the price is the table's of gpt-4o-mini.
abbrev pub IsPriced : String → List Entry → ModelPrice × Bool → Type 0
IsPriced model table (price, true) =
    (id : String) × In (id, price) table
    × (starts_with model id ≡ true)
    × ((other : String) (q : ModelPrice)
        → In (other, q) table
        → starts_with model other ≡ true
        → len other ≤ len id)
IsPriced model table (price, false) =
    In ("gpt-4o-mini", price) table
    × ((other : String) (q : ModelPrice) → In (other, q) table → starts_with model other ≡ false)

module _ (floats : PriceFloats) where
  priced-IsPriced :
      (model : String) (o : Option Entry)
      → longest_match model (openai_prices floats) none ≡ o
      → IsPriced model (openai_prices floats) (priced floats o)
  priced-IsPriced model none e = (
    here,
    λ other q i. elim (Bool-cases (starts_with model other)) [
      | inl starts ↦
          let none_longer =
            subst (λ o. len other < size o) e (matches-le model other q none i starts) in
          absurd (omega arith)
      | inr differs ↦ differs
    ],
  )
  priced-IsPriced model (some (id, price)) e =
      elim (found-In model (openai_prices floats) none (id, price) e) [
        | inl (i, starts) ↦ (
          id,
          i,
          starts,
          λ other q j h.
              let bound = subst (λ o. len other < size o) e (matches-le model other q none j h) in
              omega arith,
        )
        | inr no_best ↦ cc
      ]

  -- Every lookup is priced by the longest id of the table that the model, without the blanks around
  -- it, starts with, or by the table's price of gpt-4o-mini, marked as not exact, if there is none.
  pub openai_price-IsPriced :
      (model : String) → IsPriced (trim model) (openai_prices floats) (openai_price floats model)
  unfolding openai_price
  openai_price-IsPriced model =
      priced-IsPriced (trim model) (longest_match (trim model) (openai_prices floats) none) refl
