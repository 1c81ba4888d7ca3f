-- ===== src/Indexer/Poller/Retry.antt =====
-- A poll that stops at a log it cannot decode has applied the logs before it, and keeps its
-- cursor: the next poll reads the same blocks again.

use zkapi_ef_collab.Base.{ℕ, String, List, ◌∷◌, ◌++◌, ◌≡◌, ◌≤◌, refl, sym, subst, ◌∙◌}
use zkapi_ef_collab.Server.External.{Outcome, success, failure}
use zkapi_ef_collab.Indexer.Events.{VaultEvent}
use zkapi_ef_collab.Indexer.Mirror.{TreeOps, IsTree, run}
use zkapi_ef_collab.Indexer.Again.{Agrees, run_again}
use zkapi_ef_collab.Indexer.Poller.Decode.{LogCodec, RpcLog, decode_log}
use zkapi_ef_collab.Indexer.Poller.Poll.{
  Disk, Indexer, JsonRpcResponse, rpc_result, poll_range, last_block_of,
}
use zkapi_ef_collab.Indexer.Poller.Loop.{Decodes, served, poll_range_fails, poll_range_applies}

module _ {T : Type 0} (ops : TreeOps T) (laws : IsTree ops) (codec : LogCodec) (disk : Disk) where
  -- A poll fails at the log `bad`, after logs that decode to `p`. A later poll, of perhaps more
  -- blocks, gets the same logs `pre` and then ones that decode to `q`. Its cursor is that of a
  -- poll without the failure before it, and the mirror agrees with that poll's at every index.
  pub retry-Agrees :
      {pre : List RpcLog} (more : List RpcLog) {p : List VaultEvent} (q : List VaultEvent)
      (bad : RpcLog) (rest : List RpcLog) (message : String) (first second : ℕ)
      (fetch_first fetch_second : ℕ → ℕ → Outcome (JsonRpcResponse (List RpcLog))) (x : Indexer T)
      → Decodes codec pre p
      → Decodes codec (pre ++ more) (p ++ q)
      → decode_log codec bad ≡ failure message
      → x.poller.next_from_block ≤ first
      → x.poller.next_from_block ≤ second
      → rpc_result
          (fetch_first x.poller.next_from_block (last_block_of first x.poller.next_from_block))
        ≡ success (pre ++ bad ∷ rest)
      → rpc_result
          (fetch_second x.poller.next_from_block (last_block_of second x.poller.next_from_block))
        ≡ success (pre ++ more)
      → let failed = poll_range disk ops codec first fetch_first x in
        let retried = (poll_range disk ops codec second fetch_second failed.1).1 in
        let direct = (poll_range disk ops codec second fetch_second x).1 in
        (failed.0 ≡ failure message)
        × (retried.poller ≡ direct.poller)
        × Agrees ops retried.service.mirror direct.service.mirror
  retry-Agrees more {p = p} q bad rest message first second fetch_first fetch_second x d d_second h
        le le_second answer answer_second =
      let fails =
        poll_range_fails ops codec disk bad rest first message fetch_first x le answer d h in
      let after = record x { service = served ops p x.service } in
      let again =
        poll_range_applies ops codec disk second fetch_second after le_second answer_second
          d_second in
      let once =
        poll_range_applies ops codec disk second fetch_second x le_second answer_second d_second in
      rw fails (
        refl,
        again.1 ∙ sym once.1,
        subst (λ a. Agrees ops a (poll_range disk ops codec second fetch_second x).1.service.mirror)
            (sym again.0)
            (subst (Agrees ops (run ops (p ++ q) (run ops p x.service.mirror))) (sym once.0)
              (run_again ops laws p q x.service.mirror)),
      )
