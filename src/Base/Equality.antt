-- ===== src/Base/Equality.antt =====
-- Rust's `==`, `if` and the tests on unsigned integers, for types with decidable equality.
use Prim.Native.Nat.{ℕ}
use Prim.Native.String.{String}
use mathlib.Core.Path.{◌≡◌, refl, ap}
use mathlib.Core.Logic.{◌⊎◌, inl, inr, ite, dite}
use mathlib.Core.Bool.{Bool, true, false, cond, Bool-discrete}
use mathlib.Core.Option.{Option, none, some, none-ne-some, some-ne-none, some-injective}
use native.Mathlib.Decide.{dec_lt, dec_le, ℕ_discrete}
use mathlib.Core.List.{List, [], ◌∷◌}
use text.Mathlib.Text
use text.Mathlib.TextEquality.{eq_iff}

infix 1 if◌then◌else◌
abbrev pub if◌then◌else◌ {ℓ} : {A : Type ℓ} → Bool → A → A → A
if b then x else y = cond b x y

abbrev pub ltb : ℕ → ℕ → Bool
ltb a b = ite (dec_lt a b) true false

abbrev pub leb : ℕ → ℕ → Bool
leb a b = ite (dec_le a b) true false

pub record Eq {ℓ} (A : Type ℓ) : Type ℓ where
  pub dec : Discrete A

module _ {ℓ} {A : Type ℓ} ⦃e : Eq A⦄ where
  infix 50 ◌==◌ ◌!=◌
  abbrev pub ◌==◌ : A → A → Bool
  a == b = ite (e.dec a b) true false

  abbrev pub ◌!=◌ : A → A → Bool
  a != b = ite (e.dec a b) false true

  option_dec : Discrete (Option A)
  option_dec none none = yes refl
  option_dec none (some b) = no (none-ne-some b)
  option_dec (some a) none = no (some-ne-none a)
  option_dec (some a) (some b) =
      dite (e.dec a b) (λ p. yes (ap some p)) (λ n. no (λ p. n (some-injective a b p)))

  instance unfoldable pub option_eq : Eq (Option A)
  unfolding option_dec
  option_eq = record { dec = option_dec }

  heads_dec : {a b : A} {l m : List A} → Dec (a ≡ b) → Dec (l ≡ m) → Dec (a ∷ l ≡ b ∷ m)
  heads_dec (yes p) (yes q) = yes cc
  heads_dec (yes p) (no q) = no (λ r. q cc)
  heads_dec (no p) _ = no (λ r. p cc)

  list_dec : Discrete (List A)
  list_dec [] [] = yes refl
  list_dec [] (b ∷ m) = no (λ r. cc)
  list_dec (a ∷ l) [] = no (λ r. cc)
  list_dec (a ∷ l) (b ∷ m) = heads_dec (e.dec a b) (list_dec l m)

  instance unfoldable pub list_eq : Eq (List A)
  unfolding heads_dec list_dec
  list_eq = record { dec = list_dec }

-- Shut in proofs, where a split on a test gives the equation or its negation.
instance unfoldable pub string_eq : Eq String
string_eq = record {
  dec = λ s t.
      dite (Bool-discrete (Text.◌==◌ s t) true) (λ same. yes ((eq_iff s t).0 same))
        (λ differ. no (λ p. differ ((eq_iff s t).1 p)));
}

instance abbrev pub nat_eq : Eq ℕ
nat_eq = record { dec = ℕ_discrete }

pub Bool-cases : (b : Bool) → (b ≡ true) ⊎ (b ≡ false)
Bool-cases true = inl refl
Bool-cases false = inr refl

pub Option-cases {ℓ} : {A : Type ℓ} (o : Option A) → (o ≡ none) ⊎ ((a : A) × (o ≡ some a))
Option-cases none = inl refl
Option-cases (some a) = inr (a, refl)
