-- ===== src/Indexer/Poller/Words.antt =====
-- What zkapi-indexerd/src/poller.rs reads from the words of a log is what they were made from, and
-- the words are what split_words finds in their hex digits.

use zkapi_ef_collab.Base.{
  ℕ, zero, suc, ◌+◌, ◌*◌, ◌/◌, ◌%◌, List, [], ◌∷◌, ◌++◌, nat_eq, u64_mod, u128_mod, ◌≡◌, ◌<◌, refl,
  arith, ap, ◌∙◌,
}
use zkapi_ef_collab.Indexer.Mirror.{length}
use zkapi_ef_collab.Indexer.Poller.Text.{be_value, drop_bytes}
use zkapi_ef_collab.Indexer.Poller.Decode.{word_to_u64, word_to_u128, word_to_felt}
use zkapi_ef_collab.Indexer.Poller.Encode.{
  AreBytes, be_bytes, bytes_bound, padding, u64_word, u128_word, u256_word,
}

be_value-append :
    (value b : ℕ) (bytes : List ℕ)
    → be_value value (bytes ++ b ∷ []) ≡ be_value value bytes * 256 + b
unfolding be_value
be_value-append value b [] = refl
be_value-append value b (c ∷ bytes) = be_value-append (value * 256 + c) b bytes

be_value-be_bytes : (n value : ℕ) → value < bytes_bound n → be_value 0 (be_bytes n value) ≡ value
unfolding be_value be_bytes
be_value-be_bytes zero value h = omega arith
be_value-be_bytes (suc n) value h =
    let rest = be_value-be_bytes n (value / 256) (omega arith) in
    be_value-append 0 (value % 256) (be_bytes n (value / 256)) ∙ rw rest (omega arith)

pub word_to_u64-word : (value : ℕ) → value < u64_mod → word_to_u64 (u64_word value) ≡ value
unfolding word_to_u64 drop_bytes be_bytes
word_to_u64-word value h = be_value-be_bytes 8 value (omega arith)

pub word_to_u128-word : (value : ℕ) → value < u128_mod → word_to_u128 (u128_word value) ≡ value
unfolding word_to_u128 drop_bytes be_bytes
word_to_u128-word value h = be_value-be_bytes 16 value (omega arith)

pub word_to_felt-word :
    (value : ℕ) → value < bytes_bound 32 → word_to_felt (u256_word value) ≡ value
unfolding word_to_felt
word_to_felt-word value h = be_value-be_bytes 32 value h

-- The words are 32 bytes.
abbrev pub IsWord : List ℕ → Type 0
IsWord word = AreBytes word × (length word ≡ 32)

abbrev pub AreWords : List (List ℕ) → Type 0
AreWords [] = Unit
AreWords (word ∷ words) = IsWord word × AreWords words

AreBytes-append : (bytes : List ℕ) (b : ℕ) → AreBytes bytes → b < 256 → AreBytes (bytes ++ b ∷ [])
AreBytes-append [] b h lt = (lt, tt)
AreBytes-append (c ∷ bytes) b h lt = (h.0, AreBytes-append bytes b h.1 lt)

be_bytes-AreBytes : (n value : ℕ) → AreBytes (be_bytes n value)
unfolding be_bytes
be_bytes-AreBytes zero value = tt
be_bytes-AreBytes (suc n) value =
    AreBytes-append (be_bytes n (value / 256)) (value % 256) (be_bytes-AreBytes n (value / 256))
      (omega arith)

pub length-append : (bytes more : List ℕ) → length (bytes ++ more) ≡ length bytes + length more
unfolding length
length-append [] more = omega arith
length-append (b ∷ bytes) more = ground (arith, length-append bytes more)

length-be_bytes : (n value : ℕ) → length (be_bytes n value) ≡ n
unfolding be_bytes length
length-be_bytes zero value = refl
length-be_bytes (suc n) value =
    length-append (be_bytes n (value / 256)) (value % 256 ∷ [])
    ∙ ground (arith, length-be_bytes n (value / 256))

padding-AreBytes : (n : ℕ) (bytes : List ℕ) → AreBytes bytes → AreBytes (padding n bytes)
padding-AreBytes zero bytes h = h
padding-AreBytes (suc n) bytes h = (omega arith, padding-AreBytes n bytes h)

length-padding : (n : ℕ) (bytes : List ℕ) → length (padding n bytes) ≡ n + length bytes
unfolding length
length-padding zero bytes = omega arith
length-padding (suc n) bytes = ground (arith, length-padding n bytes)

pub u64_word-IsWord : (value : ℕ) → IsWord (u64_word value)
u64_word-IsWord value = (
  padding-AreBytes 24 (be_bytes 8 value) (be_bytes-AreBytes 8 value),
  length-padding 24 (be_bytes 8 value) ∙ ap (λ n. 24 + n) (length-be_bytes 8 value),
)

pub u128_word-IsWord : (value : ℕ) → IsWord (u128_word value)
u128_word-IsWord value = (
  padding-AreBytes 16 (be_bytes 16 value) (be_bytes-AreBytes 16 value),
  length-padding 16 (be_bytes 16 value) ∙ ap (λ n. 16 + n) (length-be_bytes 16 value),
)

pub u256_word-IsWord : (value : ℕ) → IsWord (u256_word value)
u256_word-IsWord value = (be_bytes-AreBytes 32 value, length-be_bytes 32 value)
