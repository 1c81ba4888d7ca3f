-- ===== src/Indexer/Poller/Roundtrip.antt =====
-- decode_log (zkapi-indexerd/src/poller.rs) reads back the events that the contract emits.

use zkapi_ef_collab.Base.{
  ℕ, List, true, false, some, ◌==◌, nat_eq, list_eq, leb, u32_max, ◌≡◌, ◌≢◌, ◌≤◌, ◌<◌, refl, arith,
  ◌∙◌,
}
use zkapi_ef_collab.Server.Wire.{Felt252}
use zkapi_ef_collab.Server.External.{success}
use zkapi_ef_collab.Indexer.Events.{
  VaultEvent, note_deposited, mutual_close, escape_withdrawal_initiated,
  escape_withdrawal_challenged, escape_withdrawal_finalized, expired_claimed,
}
use zkapi_ef_collab.Indexer.Poller.Text.{Text}
use zkapi_ef_collab.Indexer.Poller.Decode.{
  LogCodec, Decoded, event_topic, decode_log, decode_topics, decode_topic, decode_deposited,
  decode_closed, decode_initiated, decode_challenged, decode_finalized, decode_expired, split_words,
  topic_to_u32, topic_to_felt,
}
use zkapi_ef_collab.Indexer.Poller.Encode.{
  EventKind, deposited, closed, initiated, challenged, withdrawn, claimed, signature_of, kind_of,
  indexed, words_of, IsInRange, root_after, topics_of, log_of, IsLogCodec, bytes_bound,
}
use zkapi_ef_collab.Indexer.Poller.Words.{
  IsWord, word_to_u64-word, word_to_u128-word, word_to_felt-word, u64_word-IsWord, u128_word-IsWord,
  u256_word-IsWord,
}
use zkapi_ef_collab.Indexer.Poller.Split.{split_words-hex_text}

module _ (codec : LogCodec) (print_felt : Felt252 → Text) (laws : IsLogCodec codec print_felt) where
  topic_to_u32-print :
      (note_id : ℕ) → note_id ≤ u32_max → topic_to_u32 codec (print_felt note_id) ≡ success note_id
  unfolding topic_to_u32
  topic_to_u32-print note_id le =
      let small : leb note_id u32_max ≡ true = ground arith in
      rw
        (
          topic_to_u32,
          laws.felt_from_hex-print note_id (omega arith),
          laws.felt_to_u64-small note_id (omega arith),
          small,
        )
        refl

  topic_to_felt-print :
      (felt : Felt252)
      → felt < bytes_bound 32
      → topic_to_felt codec (print_felt felt) ≡ success felt
  unfolding topic_to_felt
  topic_to_felt-print felt lt = rw (topic_to_felt, laws.felt_from_hex-print felt lt) refl

  topic_self :
      (kind : EventKind)
      → (event_topic codec (signature_of kind) == event_topic codec (signature_of kind)) ≡ true
  topic_self kind = ground arith

  topic_differs :
      (a b : EventKind)
      → a ≢ b
      → (event_topic codec (signature_of a) == event_topic codec (signature_of b)) ≡ false
  topic_differs a b differ = ground (arith, laws.distinct_topics a b)

  -- The function that decodes a kind of event.
  abbrev decoder : EventKind → List Text → List (List ℕ) → Decoded
  decoder deposited = decode_deposited codec
  decoder closed = decode_closed codec
  decoder initiated = decode_initiated codec
  decoder challenged = decode_challenged codec
  decoder withdrawn = decode_finalized codec
  decoder claimed = decode_expired codec

  decode_topic-signature :
      (kind : EventKind) (topics : List Text) (words : List (List ℕ))
      → decode_topic codec (event_topic codec (signature_of kind)) topics words
        ≡ decoder kind topics words
  unfolding decode_topic
  decode_topic-signature deposited topics words = rw (topic_self deposited) refl
  decode_topic-signature closed topics words =
      rw (topic_differs closed deposited (λ e. cc), topic_self closed) refl
  decode_topic-signature initiated topics words =
      rw
        (
          topic_differs initiated deposited (λ e. cc),
          topic_differs initiated closed (λ e. cc),
          topic_self initiated,
        )
        refl
  decode_topic-signature challenged topics words =
      rw
        (
          topic_differs challenged deposited (λ e. cc),
          topic_differs challenged closed (λ e. cc),
          topic_differs challenged initiated (λ e. cc),
          topic_self challenged,
        )
        refl
  decode_topic-signature withdrawn topics words =
      rw
        (
          topic_differs withdrawn deposited (λ e. cc),
          topic_differs withdrawn closed (λ e. cc),
          topic_differs withdrawn initiated (λ e. cc),
          topic_differs withdrawn challenged (λ e. cc),
          topic_self withdrawn,
        )
        refl
  decode_topic-signature claimed topics words =
      rw
        (
          topic_differs claimed deposited (λ e. cc),
          topic_differs claimed closed (λ e. cc),
          topic_differs claimed initiated (λ e. cc),
          topic_differs claimed challenged (λ e. cc),
          topic_differs claimed withdrawn (λ e. cc),
          topic_self claimed,
        )
        refl

  -- The decoder of an event's kind reads its topics and words back.
  decoder-event :
      (address : List ℕ) (e : VaultEvent)
      → IsInRange e
      → decoder (kind_of e) (topics_of codec print_felt (indexed e)) (words_of address e)
        ≡ success (some (e, root_after e))
  unfolding decode_deposited decode_closed decode_initiated decode_challenged decode_finalized
      decode_expired
  decoder-event address (note_deposited note_id commitment amount expiry_ts new_root) h =
      rw
        (
          topic_to_u32-print note_id h.0,
          topic_to_felt-print commitment h.1,
          word_to_u128-word amount h.2,
          word_to_u64-word expiry_ts h.3,
          word_to_felt-word new_root h.4,
        )
        refl
  decoder-event address (mutual_close note_id nullifier final_balance) h =
      rw
        (
          topic_to_u32-print note_id h.0,
          word_to_felt-word nullifier h.1,
          word_to_u128-word final_balance h.2,
        )
        refl
  decoder-event address
        (escape_withdrawal_initiated note_id nullifier final_balance deadline new_root) h =
      rw
        (
          topic_to_u32-print note_id h.0,
          word_to_felt-word nullifier h.1,
          word_to_u128-word final_balance h.2,
          word_to_u64-word deadline h.3,
          word_to_felt-word new_root h.4,
        )
        refl
  decoder-event address (escape_withdrawal_challenged note_id nullifier restored_root) h =
      rw
        (
          topic_to_u32-print note_id h.0,
          word_to_felt-word nullifier h.1,
          word_to_felt-word restored_root h.2,
        )
        refl
  decoder-event address (escape_withdrawal_finalized note_id nullifier final_balance) h =
      rw
        (
          topic_to_u32-print note_id h.0,
          word_to_felt-word nullifier h.1,
          word_to_u128-word final_balance h.2,
        )
        refl
  decoder-event address (expired_claimed note_id deposit_amount new_root) h =
      rw
        (
          topic_to_u32-print note_id h.0,
          word_to_u128-word deposit_amount h.1,
          word_to_felt-word new_root h.2,
        )
        refl

  split_words-event :
      (address : List ℕ) (block : Text) (e : VaultEvent)
      → IsWord address
      → split_words codec (log_of codec print_felt block address e).«data»
        ≡ success (words_of address e)
  split_words-event address block (note_deposited note_id commitment amount expiry_ts new_root) h =
      split_words-hex_text codec laws.hex _ _
        (u128_word-IsWord amount, (u64_word-IsWord expiry_ts, (u256_word-IsWord new_root, tt)))
  split_words-event address block (mutual_close note_id nullifier final_balance) h =
      split_words-hex_text codec laws.hex _ _
        (u256_word-IsWord nullifier, (u128_word-IsWord final_balance, (h, tt)))
  split_words-event address block
        (escape_withdrawal_initiated note_id nullifier final_balance deadline new_root) h =
      split_words-hex_text codec laws.hex _ _ (
        u256_word-IsWord nullifier,
        (
          u128_word-IsWord final_balance,
          (h, (u64_word-IsWord deadline, (u256_word-IsWord new_root, tt))),
        ),
      )
  split_words-event address block (escape_withdrawal_challenged note_id nullifier restored_root) h =
      split_words-hex_text codec laws.hex _ _
        (u256_word-IsWord nullifier, (u256_word-IsWord restored_root, tt))
  split_words-event address block (escape_withdrawal_finalized note_id nullifier final_balance) h =
      split_words-hex_text codec laws.hex _ _
        (u256_word-IsWord nullifier, (u128_word-IsWord final_balance, (h, tt)))
  split_words-event address block (expired_claimed note_id deposit_amount new_root) h =
      split_words-hex_text codec laws.hex _ _
        (u128_word-IsWord deposit_amount, (u256_word-IsWord new_root, tt))

  -- The log that the contract emits for an event, its arguments in the range of their types, decodes
  -- to that event with the root that it carries, whatever the block and the 32 bytes of the address:
  -- under a hex codec and a number parser that read back what is printed, if the hashes of the six
  -- event signatures differ.
  pub decode_log-log_of :
      (block : Text) (address : List ℕ) (e : VaultEvent)
      → IsWord address
      → IsInRange e
      → decode_log codec (log_of codec print_felt block address e)
        ≡ success (some (e, root_after e))
  unfolding decode_log decode_topics
  decode_log-log_of block address e h range = rw (split_words-event address block e h) (
      decode_topic-signature (kind_of e) (topics_of codec print_felt (indexed e))
        (words_of address e)
      ∙ decoder-event address e range)
