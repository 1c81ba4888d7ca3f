-- ===== src/Indexer/Poller/Chunks.antt =====
-- The rounds of `slice::chunks` in zkapi-indexerd/src/poller.rs: the fuel given is enough.

use zkapi_ef_collab.Base.{ℕ, zero, suc, List, [], ◌∷◌, ◌++◌, ◌≡◌, ◌≤◌, refl, ap, arith}
use zkapi_ef_collab.Indexer.Mirror.{length}
use zkapi_ef_collab.Indexer.Poller.Text.{take_bytes, drop_bytes, chunks_loop}

abbrev joined : List (List ℕ) → List ℕ
joined [] = []
joined (chunk ∷ chunks) = chunk ++ joined chunks

append_nil : (bytes : List ℕ) → bytes ++ [] ≡ bytes
append_nil [] = refl
append_nil (b ∷ bytes) = ap (λ rest. b ∷ rest) (append_nil bytes)

take_drop : (n : ℕ) (bytes : List ℕ) → take_bytes n bytes ++ drop_bytes n bytes ≡ bytes
unfolding take_bytes drop_bytes
take_drop n [] = refl
take_drop zero (b ∷ bytes) = refl
take_drop (suc n) (b ∷ bytes) = ap (λ rest. b ∷ rest) (take_drop n bytes)

drop_bytes-shorter : (n : ℕ) (bytes : List ℕ) → length (drop_bytes n bytes) ≤ length bytes
unfolding drop_bytes length
drop_bytes-shorter n [] = omega arith
drop_bytes-shorter zero (b ∷ bytes) = omega arith
drop_bytes-shorter (suc n) (b ∷ bytes) = ground (arith, drop_bytes-shorter n bytes)

-- With a round for each byte, the chunks of a positive size put together are the bytes.
pub chunks_loop-joined :
    (n fuel : ℕ) (bytes : List ℕ)
    → length bytes ≤ fuel
    → joined (chunks_loop (suc n) fuel bytes) ≡ bytes
unfolding chunks_loop length take_bytes drop_bytes
chunks_loop-joined n zero [] h = refl
chunks_loop-joined n zero (b ∷ bytes) h = absurd (omega arith)
chunks_loop-joined n (suc fuel) [] h = refl
chunks_loop-joined n (suc fuel) (b ∷ bytes) h =
    let shorter = drop_bytes-shorter n bytes in
    let rest = chunks_loop-joined n fuel (drop_bytes n bytes) (omega arith) in
    ap (λ rest. b ∷ rest) (rw (rest) (take_drop n bytes))
