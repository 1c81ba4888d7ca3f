-- ===== src/Indexer/Poller/Decode.antt =====
-- zkapi-indexerd/src/poller.rs: decode_log and what it reads a log with. Keccak, the hex crate and
-- the parser of zkapi-types are parameters. An error keeps the fixed text of its message.

use zkapi_ef_collab.Base.{
  ℕ, String, ◌%◌, List, [], ◌∷◌, Option, none, some, ◌==◌, ◌!=◌, leb, nat_eq, list_eq,
  if◌then◌else◌, u32_max,
}
use zkapi_ef_collab.Server.Wire.{Felt252}
use zkapi_ef_collab.Server.External.{Outcome, success, failure}
use zkapi_ef_collab.Indexer.Mirror.{length}
use zkapi_ef_collab.Indexer.Events.{
  VaultEvent, note_deposited, mutual_close, escape_withdrawal_initiated,
  escape_withdrawal_challenged, escape_withdrawal_finalized, expired_claimed,
}
use zkapi_ef_collab.Indexer.Poller.Text.{
  Text, Hex, and_then, is_empty, trim, without_0x, as_bytes, be_value, chunks_loop, drop_bytes,
}

-- RpcLog
pub record RpcLog : Type 0 where
  pub block_number : Text
  pub «data» : Text
  pub topics : List Text

-- Keccak-256 of a text's bytes, and `Felt252::from_hex` and `Felt252::to_u64`
pub record LogCodec : Type 0 where
  pub hex : Hex
  pub keccak256 : String → List ℕ
  pub felt_from_hex : Text → Option Felt252
  pub felt_to_u64 : Felt252 → Option ℕ

abbrev pub Decoded : Type 0
Decoded = Outcome (Option (VaultEvent × Option Felt252))

-- The words of a log, each the value of its 32 bytes.
unfoldable pub word_to_u64 : List ℕ → ℕ
word_to_u64 word = be_value 0 (drop_bytes 24 word)

unfoldable pub word_to_u128 : List ℕ → ℕ
word_to_u128 word = be_value 0 (drop_bytes 16 word)

unfoldable pub word_to_felt : List ℕ → Felt252
word_to_felt word = be_value 0 word

module _ (codec : LogCodec) where
  open codec use {felt_from_hex, felt_to_u64, keccak256}
  open codec.hex use {encode, decode}

  unfoldable pub event_topic : String → Text
  event_topic signature = 48 ∷ 120 ∷ encode (keccak256 signature)

  abbrev pub decode_words : List (List ℕ) → Outcome (List (List ℕ))
  decode_words [] = success []
  decode_words (chunk ∷ rest) = elim (decode chunk) [
    | none ↦ failure "invalid hex in log data"
    | some word ↦ and_then (decode_words rest) (λ words. success (word ∷ words))
  ]

  unfoldable pub split_words : Text → Outcome (List (List ℕ))
  split_words text =
      let raw = as_bytes (without_0x (trim text)) in
      if is_empty raw
      then success []
      else if length raw % 64 != 0
      then failure "log data is not a whole number of 32-byte words"
      else decode_words (chunks_loop 64 (length raw) raw)

  unfoldable pub topic_to_u32 : Text → Outcome ℕ
  topic_to_u32 topic = elim (felt_from_hex topic) [
    | none ↦ failure "invalid indexed topic"
    | some felt ↦ elim (felt_to_u64 felt) [
      | none ↦ failure "indexed note id does not fit in u64"
      | some value ↦
          if leb value u32_max then success value else failure "indexed note id does not fit in u32"
    ]
  ]

  unfoldable pub topic_to_felt : Text → Outcome Felt252
  topic_to_felt topic = elim (felt_from_hex topic) [
    | none ↦ failure "invalid topic felt"
    | some felt ↦ success felt
  ]

  -- The branches of `decode_log`, on the topics after the first and on the words of the data.
  unfoldable pub decode_deposited : List Text → List (List ℕ) → Decoded
  decode_deposited (t1 ∷ t2 ∷ topics) (w0 ∷ w1 ∷ w2 ∷ []) = and_then (topic_to_u32 t1) λ note_id.
      and_then (topic_to_felt t2) λ commitment.
        let new_root = word_to_felt w2 in
        success (
          some (
            note_deposited note_id commitment (word_to_u128 w0) (word_to_u64 w1) new_root,
            some new_root,
          ))
  decode_deposited _ _ = failure "malformed NoteDeposited log"

  unfoldable pub decode_closed : List Text → List (List ℕ) → Decoded
  decode_closed (t1 ∷ topics) (w0 ∷ w1 ∷ w2 ∷ []) =
      and_then (topic_to_u32 t1)
        λ note_id. success (some (mutual_close note_id (word_to_felt w0) (word_to_u128 w1), none))
  decode_closed _ _ = failure "malformed MutualClose log"

  unfoldable pub decode_initiated : List Text → List (List ℕ) → Decoded
  decode_initiated (t1 ∷ topics) (w0 ∷ w1 ∷ w2 ∷ w3 ∷ w4 ∷ []) =
      let new_root = word_to_felt w4 in
      and_then (topic_to_u32 t1) λ note_id. success (
        some (
          escape_withdrawal_initiated note_id (word_to_felt w0) (word_to_u128 w1) (word_to_u64 w3)
              new_root,
          some new_root,
        ))
  decode_initiated _ _ = failure "malformed EscapeWithdrawalInitiated log"

  unfoldable pub decode_challenged : List Text → List (List ℕ) → Decoded
  decode_challenged (t1 ∷ topics) (w0 ∷ w1 ∷ []) =
      let restored_root = word_to_felt w1 in
      and_then (topic_to_u32 t1) λ note_id. success (
        some (
          escape_withdrawal_challenged note_id (word_to_felt w0) restored_root,
          some restored_root,
        ))
  decode_challenged _ _ = failure "malformed EscapeWithdrawalChallenged log"

  unfoldable pub decode_finalized : List Text → List (List ℕ) → Decoded
  decode_finalized (t1 ∷ topics) (w0 ∷ w1 ∷ w2 ∷ []) = and_then (topic_to_u32 t1) λ note_id.
      success (some (escape_withdrawal_finalized note_id (word_to_felt w0) (word_to_u128 w1), none))
  decode_finalized _ _ = failure "malformed EscapeWithdrawalFinalized log"

  unfoldable pub decode_expired : List Text → List (List ℕ) → Decoded
  decode_expired (t1 ∷ topics) (w0 ∷ w1 ∷ []) =
      let new_root = word_to_felt w1 in
      and_then (topic_to_u32 t1) λ note_id.
        success (some (expired_claimed note_id (word_to_u128 w0) new_root, some new_root))
  decode_expired _ _ = failure "malformed ExpiredClaimed log"

  -- The `match` on the first topic.
  unfoldable pub decode_topic : Text → List Text → List (List ℕ) → Decoded
  decode_topic topic0 topics words =
      if topic0 == event_topic "NoteDeposited(uint32,bytes32,uint128,uint64,uint256)"
      then decode_deposited topics words
      else if topic0 == event_topic "MutualClose(uint32,uint256,uint128,address)"
      then decode_closed topics words
      else if topic0
          == event_topic "EscapeWithdrawalInitiated(uint32,uint256,uint128,address,uint64,uint256)"
      then decode_initiated topics words
      else if topic0 == event_topic "EscapeWithdrawalChallenged(uint32,uint256,uint256)"
      then decode_challenged topics words
      else if topic0 == event_topic "EscapeWithdrawalFinalized(uint32,uint256,uint128,address)"
      then decode_finalized topics words
      else if topic0 == event_topic "ExpiredClaimed(uint32,uint128,uint256)"
      then decode_expired topics words
      else success none

  unfoldable pub decode_topics : List Text → Text → Decoded
  decode_topics [] text = success none
  decode_topics (topic0 ∷ topics) text = and_then (split_words text) (decode_topic topic0 topics)

  unfoldable pub decode_log : RpcLog → Decoded
  unfolding decode_topics
  decode_log log = decode_topics log.topics log.«data»
