-- ===== src/Indexer/Poller/Text.antt =====
-- The texts of zkapi-indexerd/src/poller.rs: a text is the list of its characters, a byte string
-- the list of its bytes. What the source uses of `str` is written out; the hex crate is a
-- parameter.

use zkapi_ef_collab.Base.{
  ℕ, zero, suc, ◌+◌, ◌*◌, ◌/◌, ◌%◌, List, [], ◌∷◌, ◌++◌, Bool, true, false, ◌&&◌, ◌||◌, Option,
  none, some, ◌==◌, nat_eq, leb, ltb, if◌then◌else◌, ◌-◌, u64_max,
}
use zkapi_ef_collab.Server.External.{Outcome, success, failure}

abbrev pub Text : Type 0
Text = List ℕ

abbrev pub is_empty : {A : Type 0} → List A → Bool
is_empty [] = true
is_empty (a ∷ rest) = false

-- The `?` of a Result whose error is only formatted.
abbrev pub and_then : {A B : Type 0} → Outcome A → (A → Outcome B) → Outcome B
and_then (failure e) f = failure e
and_then (success a) f = f a

abbrev between : ℕ → ℕ → ℕ → Bool
between low high c = leb low c && leb c high

-- The characters with the Unicode property White_Space, which `str::trim` removes.
unfoldable pub is_whitespace : ℕ → Bool
is_whitespace c =
    between 9 13 c
    || c == 0x20
    || c == 0x85
    || c == 0xa0
    || c == 0x1680
    || between 0x2000 0x200a c
    || c == 0x2028
    || c == 0x2029
    || c == 0x202f
    || c == 0x205f
    || c == 0x3000

abbrev pub trim_start : Text → Text
trim_start [] = []
trim_start (c ∷ rest) =
    let trimmed = trim_start rest in if is_whitespace c then trimmed else c ∷ rest

abbrev pub trim_end : Text → Text
trim_end [] = []
trim_end (c ∷ rest) =
    let trimmed = trim_end rest in if is_empty trimmed && is_whitespace c then [] else c ∷ trimmed

unfoldable pub trim : Text → Text
trim t = trim_end (trim_start t)

-- `strip_prefix("0x")`, else `strip_prefix("0X")`, else the text
abbrev pub without_0x : Text → Text
without_0x [] = []
without_0x (c ∷ []) = c ∷ []
without_0x (c ∷ d ∷ rest) = if c == 48 && (d == 120 || d == 88) then rest else c ∷ d ∷ rest

-- The UTF-8 bytes of a character.
abbrev pub char_bytes : ℕ → List ℕ
char_bytes c =
    if ltb c 0x80
    then c ∷ []
    else if ltb c 0x800
    then (0xc0 + c / 64) ∷ (0x80 + c % 64) ∷ []
    else if ltb c 0x1_0000
    then (0xe0 + c / 4096) ∷ (0x80 + c / 64 % 64) ∷ (0x80 + c % 64) ∷ []
    else (0xf0 + c / 0x4_0000)
      ∷ (0x80 + c / 4096 % 64)
      ∷ (0x80 + c / 64 % 64)
      ∷ (0x80 + c % 64)
      ∷ []

unfoldable pub as_bytes : Text → List ℕ
as_bytes [] = []
as_bytes (c ∷ rest) = char_bytes c ++ as_bytes rest

-- `char::to_digit`, for a radix of at most 16
abbrev pub to_digit : ℕ → ℕ → Option ℕ
to_digit radix c =
    let value =
      if between 48 57 c
      then c - 48
      else if between 97 102 c
      then c - 87
      else if between 65 70 c
      then c - 55
      else 99 in
    if ltb value radix then some value else none

-- `u64::from_str_radix`: at least one digit after an optional sign, and no overflow on the way.
unfoldable pub u64_digits : ℕ → ℕ → Text → Option ℕ
u64_digits radix value [] = some value
u64_digits radix value (c ∷ rest) = elim (to_digit radix c) [
  | none ↦ none
  | some d ↦
      let next = value * radix + d in
      let parsed = u64_digits radix next rest in if leb next u64_max then parsed else none
]

abbrev pub u64_from_str_radix : ℕ → Text → Option ℕ
u64_from_str_radix radix [] = none
u64_from_str_radix radix (c ∷ rest) =
    if c == 43
    then (if is_empty rest then none else u64_digits radix 0 rest)
    else u64_digits radix 0 (c ∷ rest)

-- The value of big-endian bytes.
unfoldable pub be_value : ℕ → List ℕ → ℕ
be_value value [] = value
be_value value (b ∷ bytes) = be_value (value * 256 + b) bytes

-- `&bytes[..n]` and `&bytes[n..]`, of a list that is long enough
unfoldable pub take_bytes : ℕ → List ℕ → List ℕ
take_bytes n [] = []
take_bytes zero (b ∷ bytes) = []
take_bytes (suc n) (b ∷ bytes) = b ∷ take_bytes n bytes

unfoldable pub drop_bytes : ℕ → List ℕ → List ℕ
drop_bytes n [] = []
drop_bytes zero (b ∷ bytes) = b ∷ bytes
drop_bytes (suc n) (b ∷ bytes) = drop_bytes n bytes

-- `slice::chunks`; each chunk takes at least one element, so that `fuel` is the length.
unfoldable pub chunks_loop : ℕ → ℕ → List ℕ → List (List ℕ)
chunks_loop size zero bytes = []
chunks_loop size (suc fuel) [] = []
chunks_loop size (suc fuel) (b ∷ bytes) =
    take_bytes size (b ∷ bytes) ∷ chunks_loop size fuel (drop_bytes size (b ∷ bytes))

-- The hex crate: `decode` of bytes and `encode` of bytes.
pub record Hex : Type 0 where
  pub decode : List ℕ → Option (List ℕ)
  pub encode : List ℕ → Text
