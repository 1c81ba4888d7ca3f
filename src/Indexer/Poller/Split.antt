-- ===== src/Indexer/Poller/Split.antt =====
-- split_words (zkapi-indexerd/src/poller.rs) finds the words whose hex digits a log's data are.

use zkapi_ef_collab.Base.{
  ℕ, zero, suc, ◌*◌, ◌%◌, List, [], ◌∷◌, ◌++◌, true, false, ◌!=◌, nat_eq, ℕ_discrete, ltb, ◌≡◌, ◌≤◌,
  refl, arith, ap, ◌∙◌,
}
use zkapi_ef_collab.Server.External.{success}
use zkapi_ef_collab.Indexer.Mirror.{length}
use zkapi_ef_collab.Indexer.Poller.Text.{
  Text, is_empty, is_whitespace, trim, trim_start, trim_end, as_bytes, take_bytes, drop_bytes,
  chunks_loop,
}
use zkapi_ef_collab.Indexer.Poller.Decode.{LogCodec, decode_words, split_words}
use zkapi_ef_collab.Indexer.Poller.Encode.{AreGraphic, IsHex, hex_text}
use zkapi_ef_collab.Indexer.Poller.Words.{IsWord, AreWords, length-append}

zero_graphic : is_whitespace 48 ≡ false
unfolding is_whitespace
zero_graphic = ground arith

x_graphic : is_whitespace 120 ≡ false
unfolding is_whitespace
x_graphic = ground arith

AreGraphic-append :
    (text more : Text) → AreGraphic text → AreGraphic more → AreGraphic (text ++ more)
AreGraphic-append [] more h rest = rest
AreGraphic-append (c ∷ text) more h rest = (h.0, h.1, AreGraphic-append text more h.2 rest)

trim_start-graphic : (text : Text) → AreGraphic text → trim_start text ≡ text
trim_start-graphic [] h = refl
trim_start-graphic (c ∷ text) h = rw h.1 refl

trim_end-graphic : (text : Text) → AreGraphic text → trim_end text ≡ text
trim_end-graphic [] h = refl
trim_end-graphic (c ∷ text) h =
    let rest = trim_end-graphic text h.2 in rw (rest, h.1) (ground arith)

trim-graphic : (text : Text) → AreGraphic text → trim text ≡ text
unfolding trim
trim-graphic text h = rw (trim_start-graphic text h) (trim_end-graphic text h)

as_bytes-graphic : (text : Text) → AreGraphic text → as_bytes text ≡ text
unfolding as_bytes
as_bytes-graphic [] h = refl
as_bytes-graphic (c ∷ text) h =
    let ascii : ltb c 0x80 ≡ true = ground (arith, h.0) in
    rw (ascii, as_bytes-graphic text h.2) refl

take-append :
    (n : ℕ) (chunk rest : List ℕ) → length chunk ≡ n → take_bytes n (chunk ++ rest) ≡ chunk
unfolding take_bytes length
take-append zero [] [] h = refl
take-append zero [] (b ∷ rest) h = refl
take-append zero (b ∷ chunk) rest h = absurd (omega arith)
take-append (suc n) [] rest h = absurd (omega arith)
take-append (suc n) (b ∷ chunk) rest h =
    ap (λ taken. b ∷ taken) (take-append n chunk rest (omega arith))

drop-append : (n : ℕ) (chunk rest : List ℕ) → length chunk ≡ n → drop_bytes n (chunk ++ rest) ≡ rest
unfolding drop_bytes length
drop-append zero [] [] h = refl
drop-append zero [] (b ∷ rest) h = refl
drop-append zero (b ∷ chunk) rest h = absurd (omega arith)
drop-append (suc n) [] rest h = absurd (omega arith)
drop-append (suc n) (b ∷ chunk) rest h = drop-append n chunk rest (omega arith)

module _ (codec : LogCodec) (laws : IsHex codec.hex) where
  abbrev digits : List (List ℕ) → Text
  digits = hex_text codec

  abbrev chunks : List (List ℕ) → List (List ℕ)
  chunks [] = []
  chunks (word ∷ words) = codec.hex.encode word ∷ chunks words

  length-word : (word : List ℕ) → IsWord word → length (codec.hex.encode word) ≡ 64
  length-word word h = ground (arith, laws.length-encode word, h.1)

  hex_text-AreGraphic : (words : List (List ℕ)) → AreWords words → AreGraphic (digits words)
  hex_text-AreGraphic [] h = tt
  hex_text-AreGraphic (word ∷ words) h =
      AreGraphic-append (codec.hex.encode word) (digits words) (laws.encode-AreGraphic word h.0.0)
        (hex_text-AreGraphic words h.1)

  length-hex_text :
      (words : List (List ℕ)) → AreWords words → length (digits words) ≡ 64 * length words
  unfolding length
  length-hex_text [] h = refl
  length-hex_text (word ∷ words) h =
      length-append (codec.hex.encode word) (digits words)
      ∙ ground (arith, length-word word h.0, length-hex_text words h.1)

  chunks_loop-chunk :
      (fuel : ℕ) (chunk rest : List ℕ)
      → length chunk ≡ 64
      → chunks_loop 64 (suc fuel) (chunk ++ rest) ≡ chunk ∷ chunks_loop 64 fuel rest
  unfolding chunks_loop length
  chunks_loop-chunk fuel [] rest h = absurd (omega arith)
  chunks_loop-chunk fuel (b ∷ chunk) rest h =
      rw (take-append 64 (b ∷ chunk) rest h, drop-append 64 (b ∷ chunk) rest h) refl

  chunks_loop-hex_text :
      (fuel : ℕ) (words : List (List ℕ))
      → AreWords words
      → length words ≤ fuel
      → chunks_loop 64 fuel (digits words) ≡ chunks words
  unfolding chunks_loop length
  chunks_loop-hex_text zero [] h le = refl
  chunks_loop-hex_text (suc fuel) [] h le = refl
  chunks_loop-hex_text zero (word ∷ words) h le = absurd (omega arith)
  chunks_loop-hex_text (suc fuel) (word ∷ words) h le =
      chunks_loop-chunk fuel (codec.hex.encode word) (digits words) (length-word word h.0)
      ∙ ap (λ rest. codec.hex.encode word ∷ rest)
          (chunks_loop-hex_text fuel words h.1 (omega arith))

  decode_words-chunks :
      (words : List (List ℕ)) → AreWords words → decode_words codec (chunks words) ≡ success words
  decode_words-chunks [] h = refl
  decode_words-chunks (word ∷ words) h =
      rw (laws.decode-encode word h.0.0, decode_words-chunks words h.1) refl

  is_empty-long : (text : List ℕ) → 64 ≤ length text → is_empty text ≡ false
  unfolding length
  is_empty-long [] h = absurd (omega arith)
  is_empty-long (c ∷ text) h = refl

  -- The hex digits of at least one word, behind 0x, split into the words.
  pub split_words-hex_text :
      (word : List ℕ) (words : List (List ℕ))
      → AreWords (word ∷ words)
      → split_words codec (48 ∷ 120 ∷ digits (word ∷ words)) ≡ success (word ∷ words)
  unfolding split_words length as_bytes ℕ_discrete
  split_words-hex_text word words h =
      let raw = digits (word ∷ words) in
      let graphic = hex_text-AreGraphic (word ∷ words) h in
      let trimmed : trim (48 ∷ 120 ∷ raw) ≡ 48 ∷ 120 ∷ raw =
        trim-graphic (48 ∷ 120 ∷ raw)
          (omega arith, zero_graphic, (omega arith, x_graphic, graphic)) in
      let size = length-hex_text (word ∷ words) h in
      let some_left : is_empty raw ≡ false = is_empty-long raw (omega arith) in
      let whole : (length raw % 64 != 0) ≡ false = ground (arith, size) in
      rw (trimmed, as_bytes-graphic raw graphic, some_left, whole)
        (rw (chunks_loop-hex_text (length raw) (word ∷ words) h (omega arith))
          (decode_words-chunks (word ∷ words) h))
