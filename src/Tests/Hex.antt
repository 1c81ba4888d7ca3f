-- ===== src/Tests/Hex.antt =====
-- A hex codec that computes.

use zkapi_ef_collab.Base.{
  ℕ, ◌+◌, ◌*◌, ◌/◌, ◌%◌, List, [], ◌∷◌, Option, none, some, nat_eq, leb, false, if◌then◌else◌, ◌≡◌,
  ◌<◌, refl, arith,
}
use zkapi_ef_collab.Indexer.Mirror.{length}
use zkapi_ef_collab.Indexer.Poller.Text.{Text, Hex, to_digit, is_whitespace}
use zkapi_ef_collab.Indexer.Poller.Encode.{AreBytes, AreGraphic, IsHex}

abbrev joined : Option ℕ → Option ℕ → Option (List ℕ) → Option (List ℕ)
joined (some high) (some low) (some bytes) = some ((high * 16 + low) ∷ bytes)
joined _ _ _ = none

unfoldable pub decode_hex : List ℕ → Option (List ℕ)
decode_hex [] = some []
decode_hex (c ∷ []) = none
decode_hex (c ∷ d ∷ rest) = joined (to_digit 16 c) (to_digit 16 d) (decode_hex rest)

abbrev digit : ℕ → ℕ
digit d = if leb d 9 then d + 48 else d + 87

unfoldable pub encode_hex : List ℕ → Text
encode_hex [] = []
encode_hex (b ∷ bytes) = digit (b / 16) ∷ digit (b % 16) ∷ encode_hex bytes

abbrev pub hex : Hex
hex = record { decode = decode_hex; encode = encode_hex }

length-encode_hex : (bytes : List ℕ) → length (encode_hex bytes) ≡ 2 * length bytes
unfolding encode_hex length
length-encode_hex [] = refl
length-encode_hex (b ∷ bytes) = ground (arith, length-encode_hex bytes)

digit-lt : (d : ℕ) → d < 16 → digit d < 0x80
digit-lt d h = ground arith

digit-graphic : (d : ℕ) → d < 16 → is_whitespace (digit d) ≡ false
unfolding is_whitespace
digit-graphic d h = ground arith

to_digit-digit : (d : ℕ) → d < 16 → to_digit 16 (digit d) ≡ some d
to_digit-digit d h = ground arith

encode_hex-AreGraphic : (bytes : List ℕ) → AreBytes bytes → AreGraphic (encode_hex bytes)
unfolding encode_hex
encode_hex-AreGraphic [] h = tt
encode_hex-AreGraphic (b ∷ bytes) h = (
  digit-lt (b / 16) (omega arith),
  digit-graphic (b / 16) (omega arith),
  (
    digit-lt (b % 16) (omega arith),
    digit-graphic (b % 16) (omega arith),
    encode_hex-AreGraphic bytes h.1,
  ),
)

decode_hex-encode_hex :
    (bytes : List ℕ) → AreBytes bytes → decode_hex (encode_hex bytes) ≡ some bytes
unfolding encode_hex decode_hex
decode_hex-encode_hex [] h = refl
decode_hex-encode_hex (b ∷ bytes) h =
    let whole : b / 16 * 16 + b % 16 ≡ b = omega arith in
    rw
      (
        to_digit-digit (b / 16) (omega arith),
        to_digit-digit (b % 16) (omega arith),
        decode_hex-encode_hex bytes h.1,
        whole,
      )
      refl

pub hex-IsHex : IsHex hex
hex-IsHex = record {
  length-encode = length-encode_hex;
  encode-AreGraphic = encode_hex-AreGraphic;
  decode-encode = decode_hex-encode_hex;
}
