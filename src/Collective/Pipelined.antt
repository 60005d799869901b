-- ===== src/Collective/Pipelined.antt =====
-- pluvio_collective/src/ucx_backend/pipelined_ring.rs: the ring allreduce in micro-chunks, each of which has
-- a chain of its own in both phases. `Collective.Lanes` runs the chains.
mod Micro
mod Rows
mod Apart
mod Matched
pub mod Allreduce
mod Tests
use pluvio.Base.{
  ℕ, ◌+◌, ◌-◌, ◌*◌, ◌/◌, ◌%◌, ◌^◌, ◌||◌, Option, none, some, List, ltb, leb, ◌==◌, if◌then◌else◌,
  Result, ok, err, slice, write,
}
use pluvio.AmRouter.Header.{RecvKey, recv_key, same_key, CollectiveError, bad_shape, protocol}
use pluvio.Collective.Ops.{Op, reduce_in_place}
use pluvio.Collective.Network.{Protocol}
use pluvio.Collective.Ring.{next, prev}
use pluvio.Collective.Lanes.{Pipeline}

-- `proto` goes by number.
pub record PipelineConfig : Type 0 where
  pub micro_chunks : ℕ
  pub max_in_flight : ℕ
  pub proto : Option ℕ

-- `PipelineConfig::default`.
abbrev pub default_pipeline : PipelineConfig
default_pipeline = record { micro_chunks = 4; max_in_flight = 8; proto = none }

-- The header that a rank sends in a step of a phase, and that the next one waits for.
unfoldable pub chain_key : ℕ → ℕ → ℕ → ℕ → RecvKey
chain_key m phase step rank =
    recv_key
      (record { src = rank % 2 ^ 16; step = step % 2 ^ 16; phase = phase; micro_chunk = m % 2 ^ 8 })

module _ (chunk micro_chunks : ℕ) where
  abbrev pub micro_size : ℕ
  micro_size = chunk / micro_chunks

  -- Where a slot of the flat table begins in the buffer; all have `micro_size` elements.
  unfoldable pub slot : ℕ → ℕ
  slot i =
      let chunk_idx = i / micro_chunks in
      let m = i % micro_chunks in chunk_idx * chunk + m * micro_size

  -- Chunk `idx` of the chain of micro-chunk `m`.
  abbrev pub row : ℕ → ℕ → ℕ
  row m idx = slot (idx * micro_chunks + m)

module _ {T : Type 0} (n chunk micro_chunks : ℕ) where
  -- A step of `reduce_scatter_chain`: what it sends, and what it makes of what it receives into its
  -- scratch buffer.
  unfoldable pub scatter_sends : ℕ → ℕ → ℕ → List T → List T
  scatter_sends m step rank buf =
      let send_idx = (rank + n - step) % n in
      slice (row chunk micro_chunks m send_idx) (micro_size chunk micro_chunks) buf

  unfoldable pub scatter_takes : Op T → ℕ → ℕ → ℕ → List T → List T → List T
  scatter_takes op m step rank buf tmp =
      let recv_idx = (rank + n - step - 1) % n in
      let recv_slot = row chunk micro_chunks m recv_idx in
      write recv_slot (reduce_in_place op (slice recv_slot (micro_size chunk micro_chunks) buf) tmp)
        buf

  -- A step of `allgather_chain`, which receives in place.
  unfoldable pub gather_sends : ℕ → ℕ → ℕ → List T → List T
  gather_sends m step rank buf =
      let send_idx = (rank + n - step + 1) % n in
      slice (row chunk micro_chunks m send_idx) (micro_size chunk micro_chunks) buf

  unfoldable pub gather_takes : ℕ → ℕ → ℕ → List T → List T → List T
  gather_takes m step rank buf bytes =
      let recv_idx = (rank + n - step) % n in write (row chunk micro_chunks m recv_idx) bytes buf

  -- A chain's rounds: the steps of the one loop, then those of the other.
  unfoldable pub chain : Op T → ℕ → Protocol (List T) (List T) RecvKey
  chain op m = record {
    size = n;
    rounds = (n - 1) + (n - 1);
    dest = λ k rank. some (next n rank);
    source = λ k rank. some (prev n rank);
    key =
        λ k rank. if ltb k (n - 1) then chain_key m 0 k rank else chain_key m 1 (k - (n - 1)) rank;
    same = same_key;
    payload = λ k rank buf.
        if ltb k (n - 1) then scatter_sends m k rank buf else gather_sends m (k - (n - 1)) rank buf;
    absorb = λ k rank buf bytes.
        if ltb k (n - 1)
        then scatter_takes op m k rank buf bytes
        else gather_takes m (k - (n - 1)) rank buf bytes;
  }

unfoldable pub chains :
    {T : Type 0} → Op T → (n chunk : ℕ) → PipelineConfig → Pipeline (List T) (List T) RecvKey
chains op n chunk config = record {
  ranks = n;
  lanes = config.micro_chunks;
  limit = config.max_in_flight;
  half = n - 1;
  lane = chain n chunk config.micro_chunks op;
}

-- The guards: nothing to do for one rank; a configuration without chains, or with more than a header can
-- tell apart, is refused, and so is a buffer that cannot be shared out evenly.
unfoldable pub pipelined_ring :
    {T : Type 0}
    → Op T
    → (n len : ℕ) → PipelineConfig
    → Result (Option (Pipeline (List T) (List T) RecvKey)) CollectiveError
pipelined_ring op n len config =
    if leb n 1
    then ok none
    else (if config.micro_chunks == 0 || config.max_in_flight == 0
        then err protocol
        else (if ltb 255 config.micro_chunks
            then err protocol
            else (if len % n == 0
                then (if (len / n) % config.micro_chunks == 0
                    then ok (some (chains op n (len / n) config))
                    else err bad_shape)
                else err bad_shape)))
