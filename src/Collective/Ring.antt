-- ===== src/Collective/Ring.antt =====
-- pluvio_collective/src/ucx_backend/ring.rs: the ring allreduce, a reduce-scatter and an allgather of
-- `n - 1` steps each. A buffer is its list of elements; its chunks are the messages.
pub mod Ranks
pub mod Matched
pub mod Chunks
pub mod Buffers
pub mod Phases
pub mod Allreduce
use pluvio.Base.{
  ℕ, zero, suc, ◌+◌, ◌-◌, ◌*◌, ◌/◌, ◌%◌, ◌^◌, Bool, Option, none, some, List, length, ltb, leb,
  ◌==◌, if◌then◌else◌, Result, ok, err, slice, write,
}
use pluvio.AmRouter.Header.{CollectiveError, bad_shape}
use pluvio.Collective.Ops.{Op, reduce_in_place}
use pluvio.Collective.Tags.{encode_tag}
use pluvio.Collective.Network.{Protocol}

abbrev pub next : ℕ → ℕ → ℕ
next n rank = (rank + 1) % n

abbrev pub prev : ℕ → ℕ → ℕ
prev n rank = (rank + n - 1) % n

-- The two loops are one count of rounds: the round's phase, and its step in the phase.
unfoldable pub phase : ℕ → ℕ → ℕ
phase n k = if ltb k (n - 1) then 0 else 1

unfoldable pub step : ℕ → ℕ → ℕ
step n k = if ltb k (n - 1) then k else k - (n - 1)

unfoldable pub tag : ℕ → ℕ → ℕ → ℕ
tag n k rank = encode_tag rank (step n k % 2 ^ 16) (phase n k) 0

unfoldable pub send_idx : ℕ → ℕ → ℕ → ℕ
send_idx n k rank =
    if phase n k == 0 then (rank + n - step n k) % n else (rank + n - step n k + 1) % n

unfoldable pub recv_idx : ℕ → ℕ → ℕ → ℕ
recv_idx n k rank =
    if phase n k == 0 then (rank + n - step n k - 1) % n else (rank + n - step n k) % n

module _ {T : Type 0} (op : Op T) (n chunk : ℕ) where
  -- The chunk that a rank sends in a round.
  unfoldable pub sends : ℕ → ℕ → List T → List T
  sends k rank buf = slice (send_idx n k rank * chunk) chunk buf

  -- In the first phase what arrives is reduced into a chunk, in the second it takes the chunk's place.
  unfoldable pub receives : ℕ → ℕ → List T → List T → List T
  receives k rank buf tmp =
      let off = recv_idx n k rank * chunk in
      if phase n k == 0
      then write off (reduce_in_place op (slice off chunk buf) tmp) buf
      else write off tmp buf

  -- In every round a rank sends to the next and receives from the one before, `run_send_recv`.
  unfoldable pub rounds_of : Protocol (List T) (List T) ℕ
  rounds_of = record {
    size = n;
    rounds = (n - 1) + (n - 1);
    dest = λ k rank. some (next n rank);
    source = λ k rank. some (prev n rank);
    key = tag n;
    same = λ a b. a == b;
    payload = sends;
    absorb = receives;
  }

-- The guards: nothing to do for one rank; a buffer that the ranks cannot share out evenly is refused.
unfoldable pub ring_allreduce :
    {T : Type 0} → Op T → ℕ → ℕ → Result (Option (Protocol (List T) (List T) ℕ)) CollectiveError
ring_allreduce op n len =
    if leb n 1
    then ok none
    else (if len % n == 0 then ok (some (rounds_of op n (len / n))) else err bad_shape)
