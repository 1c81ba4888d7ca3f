-- ===== src/Indexer/Poller/Loop.antt =====
-- The loop of a poll over logs that decode.

use zkapi_ef_collab.Base.{
  ℕ, String, ◌+◌, List, [], ◌∷◌, ◌++◌, Option, none, some, ltb, ◌==◌, nat_eq, saturating_add, ◌≡◌,
  ◌≤◌, refl, arith, ap, sym, false, true, inl, inr, Bool-cases, ◌∙◌,
}
use mathlib.Core.List.{append-nil}
use zkapi_ef_collab.Server.Wire.{Felt252}
use zkapi_ef_collab.Server.External.{Outcome, success, failure, Outcome-cases}
use zkapi_ef_collab.Indexer.Events.{VaultEvent}
use zkapi_ef_collab.Indexer.Mirror.{TreeOps, length, run}
use zkapi_ef_collab.Indexer.Service.{IndexerService}
use zkapi_ef_collab.Indexer.Poller.Decode.{LogCodec, RpcLog, decode_log}
use zkapi_ef_collab.Indexer.Poller.Poll.{
  Disk, Indexer, JsonRpcResponse, rpc_result, persist_checkpoint, apply_logs, advance, poll_range,
  last_block_of,
}

-- The logs decode to the events, a log of another contract event to none.
pub data Decodes (codec : LogCodec) : List RpcLog → List VaultEvent → Type 0 where
  done : Decodes codec [] []
  skipped :
      {log : RpcLog} {logs : List RpcLog} {events : List VaultEvent}
      → decode_log codec log ≡ success none
      → Decodes codec logs events
      → Decodes codec (log ∷ logs) events
  decoded :
      {log : RpcLog} {logs : List RpcLog} {e : VaultEvent} {root : Option Felt252}
      {events : List VaultEvent}
      → decode_log codec log ≡ success (some (e, root))
      → Decodes codec logs events
      → Decodes codec (log ∷ logs) (e ∷ events)

pub Decodes-append :
    {codec : LogCodec} {a b : List RpcLog} {p q : List VaultEvent}
    → Decodes codec a p
    → Decodes codec b q
    → Decodes codec (a ++ b) (p ++ q)
Decodes-append done e = e
Decodes-append (skipped h d) e = skipped h (Decodes-append d e)
Decodes-append (decoded h d) e = decoded h (Decodes-append d e)

module _ {T : Type 0} (ops : TreeOps T) where
  -- The service with the events applied.
  abbrev pub served : List VaultEvent → IndexerService T → IndexerService T
  served events s = record s { mirror = run ops events s.mirror }

  -- The end of a poll whose logs were applied: the mirror stays, the cursor moves on.
  advance_keeps :
      (disk : Disk) (latest to_block applied : ℕ) (s : IndexerService T) (x : Indexer T)
      → ((advance disk ops latest to_block (success applied, s) x).1.service.mirror ≡ s.mirror)
        × ((advance disk ops latest to_block (success applied, s) x).1.poller
            ≡ (record x.poller { next_from_block = saturating_add to_block 1 }))
  unfolding advance
  advance_keeps disk latest to_block applied s x =
      elim (Outcome-cases (persist_checkpoint disk ops x.poller.cursor_path to_block s x.file).0) [
        | inl (message, e) ↦ rw (advance, e) (refl, refl)
        | inr (written, e) ↦
            rw (advance, e)
              (elim (Bool-cases (to_block == latest)) [
                | inl same ↦ rw same (refl, refl)
                | inr differ ↦ rw differ (refl, refl)
              ])
      ]

  -- When the checkpoint is written, the last block makes the service ready.
  pub advance-ready :
      (disk : Disk) (latest to_block applied : ℕ) (s : IndexerService T) (x : Indexer T)
      → (persist_checkpoint disk ops x.poller.cursor_path to_block s x.file).0 ≡ success tt
      → to_block ≡ latest
      → (advance disk ops latest to_block (success applied, s) x).1.service.ready ≡ true
  unfolding advance
  advance-ready disk latest to_block applied s x written last =
      let same : (to_block == latest) ≡ true = ground arith in rw (advance, written, same) refl

  module _ (codec : LogCodec) where
    pub apply_logs-append :
        {logs : List RpcLog} (rest : List RpcLog) {events : List VaultEvent} (applied : ℕ)
        (s : IndexerService T)
        → Decodes codec logs events
        → apply_logs ops codec (logs ++ rest) applied s
          ≡ apply_logs ops codec rest (applied + length events) (served events s)
    unfolding apply_logs length
    apply_logs-append rest applied s done = ap (λ n. apply_logs ops codec rest n s) (omega arith)
    apply_logs-append rest applied s (skipped h d) =
        rw (h, apply_logs) (apply_logs-append rest applied s d)
    apply_logs-append rest applied s (decoded {e = e} {events = events} h d) =
        rw (h, apply_logs)
          (apply_logs-append rest (applied + 1) (served (e ∷ []) s) d
            ∙ ap (λ n. apply_logs ops codec rest n (served (e ∷ events) s)) (omega arith))

    pub apply_logs_all :
        {logs : List RpcLog} {events : List VaultEvent} (s : IndexerService T)
        → Decodes codec logs events
        → apply_logs ops codec logs 0 s ≡ (success (length events), served events s)
    unfolding apply_logs
    apply_logs_all {logs = logs} {events = events} s d =
        ap (λ l. apply_logs ops codec l 0 s) (sym (append-nil logs))
        ∙ apply_logs-append [] 0 s d
        ∙ ap (λ n. (success n, served events s)) (omega arith)

    pub poll_range-advance :
        (disk : Disk) (logs : List RpcLog) (latest : ℕ)
        (fetch_logs : ℕ → ℕ → Outcome (JsonRpcResponse (List RpcLog))) (x : Indexer T)
        → x.poller.next_from_block ≤ latest
        → rpc_result
            (fetch_logs x.poller.next_from_block (last_block_of latest x.poller.next_from_block))
          ≡ success logs
        → poll_range disk ops codec latest fetch_logs x
          ≡ advance disk ops latest
              (last_block_of latest x.poller.next_from_block)
              (apply_logs ops codec logs 0 x.service)
              x
    unfolding poll_range
    poll_range-advance disk logs latest fetch_logs x le answer =
        let current : ltb latest x.poller.next_from_block ≡ false = ground arith in
        rw (poll_range, current, answer) refl

    -- A poll in which a log fails to decode keeps what the logs before it did, and the cursor.
    pub poll_range_fails :
        (disk : Disk) {pre : List RpcLog} (bad : RpcLog) (rest : List RpcLog)
        {events : List VaultEvent} (latest : ℕ) (message : String)
        (fetch_logs : ℕ → ℕ → Outcome (JsonRpcResponse (List RpcLog))) (x : Indexer T)
        → x.poller.next_from_block ≤ latest
        → rpc_result
            (fetch_logs x.poller.next_from_block (last_block_of latest x.poller.next_from_block))
          ≡ success (pre ++ bad ∷ rest)
        → Decodes codec pre events
        → decode_log codec bad ≡ failure message
        → poll_range disk ops codec latest fetch_logs x
          ≡ (failure message, record x { service = served events x.service })
    unfolding poll_range advance apply_logs
    poll_range_fails disk {pre = pre} bad rest {events = events} latest message fetch_logs x le
          answer d h =
        poll_range-advance disk (pre ++ bad ∷ rest) latest fetch_logs x le answer
        ∙ ap (λ o. advance disk ops latest (last_block_of latest x.poller.next_from_block) o x)
            (apply_logs-append (bad ∷ rest) 0 x.service d ∙ stops)
      where
        stops :
            apply_logs ops codec (bad ∷ rest) (0 + length events) (served events x.service)
            ≡ (failure message, served events x.service)
        stops = rw (apply_logs, h) refl

    -- What a poll leaves when every log decodes: the poller and the mirror, whether or not the
    -- checkpoint is written.
    pub poll_range_applies :
        (disk : Disk) {logs : List RpcLog} {events : List VaultEvent} (latest : ℕ)
        (fetch_logs : ℕ → ℕ → Outcome (JsonRpcResponse (List RpcLog))) (x : Indexer T)
        → x.poller.next_from_block ≤ latest
        → rpc_result
            (fetch_logs x.poller.next_from_block (last_block_of latest x.poller.next_from_block))
          ≡ success logs
        → Decodes codec logs events
        → ((poll_range disk ops codec latest fetch_logs x).1.service.mirror
            ≡ run ops events x.service.mirror)
          × ((poll_range disk ops codec latest fetch_logs x).1.poller ≡ (record x.poller {
            next_from_block = saturating_add (last_block_of latest x.poller.next_from_block) 1;
          }))
    unfolding poll_range advance apply_logs
    poll_range_applies disk {logs = logs} {events = events} latest fetch_logs x le answer d =
        let to_block = last_block_of latest x.poller.next_from_block in
        let polled =
          poll_range-advance disk logs latest fetch_logs x le answer
          ∙ ap (λ o. advance disk ops latest to_block o x) (apply_logs_all x.service d) in
        rw polled (advance_keeps disk latest to_block (length events) (served events x.service) x)
