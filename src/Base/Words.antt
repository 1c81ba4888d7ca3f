-- ===== src/Base/Words.antt =====
-- Machine words as native numbers. A signed word is its bit pattern, as `as i64` gives it.
use Prim.Native.Nat.{ℕ, ◌+◌, ◌-◌, ◌%◌, ◌≤◌, ◌<◌}
use mathlib.Core.Path.{◌≡◌}
use mathlib.Core.Logic.{◌⊎◌, ◌↔◌}
use mathlib.Core.Bool.{Bool}
use native.Mathlib.Omega.{arith}
use zkapi_ef_collab.Base.Equality.{if◌then◌else◌, ltb, leb}

abbrev pub u32_max : ℕ
u32_max = 0xffff_ffff

abbrev pub u64_max : ℕ
u64_max = 0xffff_ffff_ffff_ffff

-- 2 ^ 63, the sign bit of an i64.
abbrev pub i64_sign : ℕ
i64_sign = 0x8000_0000_0000_0000

-- 2 ^ 64 and 2 ^ 128.
abbrev pub u64_mod : ℕ
u64_mod = 0x1_0000_0000_0000_0000

abbrev pub u128_mod : ℕ
u128_mod = 0x1_0000_0000_0000_0000_0000_0000_0000_0000

abbrev pub u32_mod : ℕ
u32_mod = 0x1_0000_0000

-- `u64::saturating_add` and `u64::saturating_sub`.
abbrev pub saturating_add : ℕ → ℕ → ℕ
saturating_add a b = if leb (a + b) u64_max then a + b else u64_max

abbrev pub saturating_sub : ℕ → ℕ → ℕ
saturating_sub a b = a - b

-- `x as i64` for a u64 or a u128: the low 64 bits.
abbrev pub as_i64 : ℕ → ℕ
as_i64 x = x % u64_mod

-- `w as u128` for an i64: the sign is extended.
abbrev pub i64_as_u128 : ℕ → ℕ
i64_as_u128 w = if ltb w i64_sign then w else w + (u128_mod - u64_mod)

-- `w as u64` for an i64: the same bits.
abbrev pub i64_as_u64 : ℕ → ℕ
i64_as_u64 w = w

-- `a <= b` on i64 bit patterns: flipping the sign bit makes the order that of the numbers.
abbrev pub i64_key : ℕ → ℕ
i64_key w = if ltb w i64_sign then w + i64_sign else w - i64_sign

abbrev pub i64_leb : ℕ → ℕ → Bool
i64_leb a b = leb (i64_key a) (i64_key b)

-- `x as i32` for a u16 or a u32.
abbrev pub as_i32 : ℕ → ℕ
as_i32 x = x % u32_mod

-- `w as u16` for an i32.
abbrev pub i32_as_u16 : ℕ → ℕ
i32_as_u16 w = w % 0x1_0000

-- A u128 survives the cast to i64 and back exactly when it is small, or so large that the sign
-- extension of its low bits gives it back.
pub i64_as_u128-as_i64 :
    (c : ℕ)
    → c < u128_mod
    → (i64_as_u128 (as_i64 c) ≡ c) ↔ ((c < i64_sign) ⊎ (u128_mod - i64_sign ≤ c))
i64_as_u128-as_i64 c h = (λ e. ground arith, λ s. ground arith)

pub i64_as_u128-as_i64_of_lt : (c : ℕ) → c < i64_sign → i64_as_u128 (as_i64 c) ≡ c
i64_as_u128-as_i64_of_lt c h = ground arith

pub i32_as_u16-as_i32 : (c : ℕ) → c < 0x1_0000 → i32_as_u16 (as_i32 c) ≡ c
i32_as_u16-as_i32 c h = omega arith
