-- ===== src/Indexer/Poller/Sync.antt =====
-- Polling a node whose blocks all decode, until the last block is reached.

use zkapi_ef_collab.Base.{
  ℕ, zero, suc, ◌+◌, ◌-◌, ◌*◌, List, [], ◌++◌, true, ◌≡◌, ◌≤◌, ◌<◌, u64_max, refl, arith, ap, sym,
  ◌∙◌, subst, ◌⊎◌, inl, inr, ltb, Bool-cases, saturating_add, Option, String,
}
use mathlib.Core.List.{append_assoc}
use zkapi_ef_collab.Server.External.{Outcome, success}
use zkapi_ef_collab.Indexer.Events.{VaultEvent}
use zkapi_ef_collab.Indexer.Mirror.{TreeOps, run, length}
use zkapi_ef_collab.Indexer.Service.{mark_ready, IndexerService}
use zkapi_ef_collab.Indexer.Again.{run-append}
use zkapi_ef_collab.Indexer.Poller.Decode.{LogCodec, RpcLog}
use zkapi_ef_collab.Indexer.Poller.Poll.{
  Disk, advance, Indexer, JsonRpcLogPoller, JsonRpcResponse, rpc_result, persist_checkpoint,
  poll_range, last_block_of,
}
use zkapi_ef_collab.Indexer.Poller.Loop.{
  Decodes, Decodes-append, poll_range_applies, served, done, advance-ready, apply_logs_all,
  poll_range-advance,
}

-- What the blocks `from .. from + count` hold, in their order.
abbrev pub in_blocks : {A : Type 0} → (ℕ → List A) → ℕ → ℕ → List A
in_blocks block from zero = []
in_blocks block from (suc count) = block from ++ in_blocks block (from + 1) count

in_blocks-add :
    {A : Type 0} (block : ℕ → List A) (from a b : ℕ)
    → in_blocks block from (a + b) ≡ in_blocks block from a ++ in_blocks block (from + a) b
in_blocks-add block from zero b =
    ap (λ n. in_blocks block from n) {x = 0 + b} {y = b} (omega arith)
    ∙ ap (λ n. in_blocks block n b) {x = from} {y = from + 0} (omega arith)
in_blocks-add block from (suc a) b =
    ap (λ n. in_blocks block from n) {x = suc a + b} {y = suc (a + b)} (omega arith)
    ∙ ap (λ l. block from ++ l)
        (in_blocks-add block (from + 1) a b
          ∙ ap (λ n. in_blocks block (from + 1) a ++ in_blocks block n b) {x = from + 1 + a}
              {y = from + suc a} (omega arith))
    ∙ sym (
        append_assoc (block from) (in_blocks block (from + 1) a) (in_blocks block (from + suc a) b))

Decodes-in_blocks :
    {codec : LogCodec} (logs : ℕ → List RpcLog) (events : ℕ → List VaultEvent) (from count : ℕ)
    → ((n : ℕ) → Decodes codec (logs n) (events n))
    → Decodes codec (in_blocks logs from count) (in_blocks events from count)
Decodes-in_blocks logs events from zero h = done
Decodes-in_blocks logs events from (suc count) h =
    Decodes-append (h from) (Decodes-in_blocks logs events (from + 1) count h)

-- The block after the last one of a poll.
abbrev after_poll : ℕ → ℕ → ℕ
after_poll latest next = saturating_add (last_block_of latest next) 1

last_block_of-lem :
    (latest next : ℕ)
    → latest < u64_max
    → next ≤ latest
    → (last_block_of latest next ≤ latest)
      × (next ≤ last_block_of latest next)
      × (after_poll latest next ≡ last_block_of latest next + 1)
      × ((last_block_of latest next ≡ latest) ⊎ (last_block_of latest next ≡ next + 999))
unfolding last_block_of
last_block_of-lem latest next bound le = ground arith

module _ {T : Type 0} (ops : TreeOps T) (codec : LogCodec) (disk : Disk) (latest : ℕ)
    (fetch_logs : ℕ → ℕ → Outcome (JsonRpcResponse (List RpcLog))) where
  abbrev poll : Indexer T → Indexer T
  poll x = (poll_range disk ops codec latest fetch_logs x).1

  -- The loop of the task, while the node's last block stays the same.
  abbrev pub poll_times : ℕ → Indexer T → Indexer T
  poll_times zero x = x
  poll_times (suc k) x = poll_times k (poll x)

  poll_times-last : (k : ℕ) (x : Indexer T) → poll_times (suc k) x ≡ poll (poll_times k x)
  poll_times-last zero x = refl
  poll_times-last (suc k) x = poll_times-last k (poll x)

  module _ (bound : latest < u64_max) (logs : ℕ → List RpcLog) (events : ℕ → List VaultEvent)
      (answers : (from to : ℕ)
        → rpc_result (fetch_logs from to) ≡ success (in_blocks logs from (to + 1 - from)))
      (decodes : (n : ℕ) → Decodes codec (logs n) (events n)) where
    -- The mirror with the events of the blocks from the cursor to before `end`.
    abbrev Reached : ℕ → Indexer T → Indexer T → Type 0
    Reached end x y =
        (y.poller.next_from_block ≡ end)
        × (y.service.mirror
            ≡ run ops (in_blocks events x.poller.next_from_block (end - x.poller.next_from_block))
                x.service.mirror)

    poll-Reached :
        (x : Indexer T)
        → x.poller.next_from_block ≤ latest
        → Reached (last_block_of latest x.poller.next_from_block + 1) x (poll x)
    poll-Reached x le =
        let next = x.poller.next_from_block in
        let last = last_block_of latest next in
        let polled =
          poll_range_applies ops codec disk latest fetch_logs x le (answers next last)
            (Decodes-in_blocks logs events next (last + 1 - next) decodes) in
        (
          ap (λ (p : JsonRpcLogPoller). p.next_from_block) polled.1
              ∙ (last_block_of-lem latest next bound le).2,
          polled.0,
        )

    poll_behind :
        (x : Indexer T)
        → latest < x.poller.next_from_block
        → poll x ≡ record x { service = mark_ready x.service }
    unfolding poll_range
    poll_behind x lt =
        let behind : ltb latest x.poller.next_from_block ≡ true = ground arith in
        rw (poll, poll_range, behind) refl

    Reached-self :
        (x : Indexer T) → x.poller.next_from_block ≡ latest + 1 → Reached (latest + 1) x x
    Reached-self x e =
        let next = x.poller.next_from_block in
        (
          e,
          ap (λ n. run ops (in_blocks events next n) x.service.mirror) {x = 0}
              {y = latest + 1 - next} (omega arith),
        )

    Reached-trans :
        (mid end : ℕ) (x y z : Indexer T)
        → x.poller.next_from_block ≤ mid
        → mid ≤ end
        → Reached mid x y
        → Reached end y z
        → Reached end x z
    Reached-trans mid end x y z le le_end first second =
        let next = x.poller.next_from_block in
        let split =
          ap (in_blocks events next) {x = end - next} {y = (mid - next) + (end - mid)} (omega arith)
          ∙ in_blocks-add events next (mid - next) (end - mid) in
        (
          second.0,
          second.1
              ∙ ap (λ n. run ops (in_blocks events n (end - n)) y.service.mirror) first.0
              ∙ ap (run ops (in_blocks events mid (end - mid))) first.1
              ∙ ap
                  (λ n.
                    run ops (in_blocks events n (end - mid))
                      (run ops (in_blocks events next (mid - next)) x.service.mirror))
                  {x = mid} {y = next + (mid - next)} (omega arith)
              ∙ sym (
                  run-append ops (in_blocks events next (mid - next))
                    (in_blocks events (next + (mid - next)) (end - mid)) x.service.mirror)
              ∙ ap (λ l. run ops l x.service.mirror) (sym split),
        )

    polls-Reached :
        (k : ℕ) (x : Indexer T)
        → x.poller.next_from_block ≤ latest + 1
        → latest + 1 ≤ x.poller.next_from_block + 1000 * k
        → Reached (latest + 1) x (poll_times k x)
    polls-Reached zero x le near = Reached-self x (omega arith)
    polls-Reached (suc k) x le near = elim (Bool-cases (ltb latest x.poller.next_from_block)) [
      | inl behind ↦
          subst (λ y. Reached (latest + 1) x (poll_times k y)) (sym (poll_behind x (ground arith)))
            (polls-Reached k (record x { service = mark_ready x.service }) le (ground arith))
      | inr current ↦
          let next = x.poller.next_from_block in
          let last = last_block_of-lem latest next bound (ground arith) in
          let first = poll-Reached x (ground arith) in
          Reached-trans (last_block_of latest next + 1) (latest + 1) x (poll x)
            (poll_times k (poll x)) (ground arith) (ground arith) first
            (polls-Reached k (poll x) (ground arith) (ground arith))
    ]

    module _
        (written : (path : Option String) (last : ℕ) (s : IndexerService T) (file : Option (List ℕ))
          → (persist_checkpoint disk ops path last s file).0 ≡ success tt) where
      poll-ready :
          (x : Indexer T)
          → (poll x).poller.next_from_block ≡ latest + 1
          → (poll x).service.ready ≡ true
      poll-ready x e = elim (Bool-cases (ltb latest x.poller.next_from_block)) [
        | inl behind ↦ ap (λ (y : Indexer T). y.service.ready) (poll_behind x (ground arith))
        | inr current ↦
            let next = x.poller.next_from_block in
            let last = last_block_of latest next in
            let le : next ≤ latest = ground arith in
            let done =
              poll_range-advance ops codec disk (in_blocks logs next (last + 1 - next)) latest
                fetch_logs x le (answers next last)
              ∙ ap (λ o. advance disk ops latest last o x)
                  (apply_logs_all ops codec x.service
                    (Decodes-in_blocks logs events next (last + 1 - next) decodes)) in
            let reached = (poll-Reached x le).0 in
            ap (λ (o : Outcome ℕ × Indexer T). o.1.service.ready) done
            ∙ advance-ready ops disk latest last (length (in_blocks events next (last + 1 - next)))
                (served ops (in_blocks events next (last + 1 - next)) x.service) x
                (written x.poller.cursor_path last _ x.file) (omega arith)
      ]

      -- For a node whose last block stays and whose blocks all decode, and a disk that takes every
      -- checkpoint: after polls enough for the blocks from the cursor to the last block, the cursor
      -- stands behind that block, the mirror has the events of those blocks, each once and in
      -- their order, and the service is ready.
      pub polls-catch_up :
          (k : ℕ) (x : Indexer T)
          → x.poller.next_from_block ≤ latest + 1
          → latest + 1 ≤ x.poller.next_from_block + 1000 * (k + 1)
          → let y = poll_times (suc k) x in
            let next = x.poller.next_from_block in
            (y.poller.next_from_block ≡ latest + 1)
            × (y.service.mirror
                ≡ run ops (in_blocks events next (latest + 1 - next)) x.service.mirror)
            × (y.service.ready ≡ true)
      polls-catch_up k x le near =
          let reached = polls-Reached (suc k) x le (omega arith) in
          let last = poll_times-last k x in
          (
            reached.0,
            reached.1,
            ap (λ (y : Indexer T). y.service.ready) last
                ∙ poll-ready (poll_times k x)
                    (ap (λ (y : Indexer T). y.poller.next_from_block) (sym last) ∙ reached.0),
          )
