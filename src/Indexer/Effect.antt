-- ===== src/Indexer/Effect.antt =====
-- What a sequence of events does to one index of the mirror: one of five effects, so that events
-- that are applied a second time change nothing.

use zkapi_ef_collab.Base.{Option, none, some, nat_eq, ◌≡◌, refl}
use zkapi_ef_collab.Server.Wire.{Felt252, zero_felt}

-- The leaf at an index and the original leaf that is kept for it.
abbrev pub Slot : Type 0
Slot = Felt252 × Option Felt252

abbrev pub restored : Felt252 → Option Felt252 → Felt252
restored leaf none = leaf
restored leaf (some original) = original

pub pair_eq : {a c : Felt252} {b d : Option Felt252} → a ≡ c → b ≡ d → ◌≡◌ {A = Slot} (a, b) (c, d)
pair_eq p q = cc

pub data Effect : Type 0 where
  keep : Effect
  clear : Effect
  restore : Effect
  clear_restore : Effect
  set : Felt252 → Felt252 → Effect

unfoldable pub apply : Effect → Slot → Slot
apply keep (leaf, original) = (leaf, original)
apply clear (leaf, original) = (zero_felt, original)
apply restore (leaf, original) = (restored leaf original, original)
apply clear_restore (leaf, original) = (restored zero_felt original, original)
apply (set leaf original) _ = (leaf, some original)

-- An effect, and then that of clearing or restoring the leaf.
unfoldable pub then_clear : Effect → Effect
then_clear keep = clear
then_clear clear = clear
then_clear restore = clear
then_clear clear_restore = clear
then_clear (set leaf original) = set zero_felt original

unfoldable pub then_restore : Effect → Effect
then_restore keep = restore
then_restore clear = clear_restore
then_restore restore = restore
then_restore clear_restore = clear_restore
then_restore (set leaf original) = set original original

pub apply-then_clear : (e : Effect) (s : Slot) → apply (then_clear e) s ≡ (zero_felt, (apply e s).1)
unfolding apply then_clear
apply-then_clear keep s = refl
apply-then_clear clear s = refl
apply-then_clear restore s = refl
apply-then_clear clear_restore s = refl
apply-then_clear (set leaf original) s = refl

pub apply-then_restore :
    (e : Effect) (s : Slot)
    → apply (then_restore e) s ≡ (restored (apply e s).0 (apply e s).1, (apply e s).1)
unfolding apply then_restore
apply-then_restore keep s = refl
apply-then_restore clear s = refl
apply-then_restore restore (leaf, none) = refl
apply-then_restore restore (leaf, some original) = refl
apply-then_restore clear_restore (leaf, none) = refl
apply-then_restore clear_restore (leaf, some original) = refl
apply-then_restore (set leaf original) s = refl

pub apply_twice : (e : Effect) (s : Slot) → apply e (apply e s) ≡ apply e s
unfolding apply
apply_twice keep s = refl
apply_twice clear s = refl
apply_twice restore (leaf, none) = refl
apply_twice restore (leaf, some original) = refl
apply_twice clear_restore (leaf, none) = refl
apply_twice clear_restore (leaf, some original) = refl
apply_twice (set leaf original) s = refl
