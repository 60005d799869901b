-- ===== src/Collective/Pipelined/Tests.antt =====
-- Runs of the pipelined ring among two ranks, and the theorems at them.
use pluvio.Base.{ℕ, zero, suc, ◌<◌, ◌≡◌, refl, List, [], ◌∷◌, ◌++◌, length, none, err, arith}
use pluvio.AmRouter.Header.{same_key, bad_shape, protocol}
use pluvio.Collective.Ops.{overlay, chunks_exact, remainder, join, reduce_in_place, sum_u32}
use pluvio.Collective.Network.{post, finish, turn}
use pluvio.Collective.Ring.Allreduce.{everywhere}
use pluvio.Collective.Lanes.{
  Move, loops, moves, Returns, arrived, chain_turn, pump, move, operate, fill,
}
use pluvio.Collective.Pipelined.{
  PipelineConfig, chain_key, slot, scatter_sends, scatter_takes, gather_sends, gather_takes, chain,
  chains, pipelined_ring,
}
use pluvio.Collective.Pipelined.Allreduce.{pipelined_ring-everywhere}
use pluvio.Collective.Adaptive.{AdaptivePolicy}

-- The buffers of two ranks, of two chunks with two micro-chunks each.
abbrev pair : ℕ → List ℕ
pair zero = 1 ∷ 2 ∷ 3 ∷ 4 ∷ []
pair (suc r) = 10 ∷ 20 ∷ 30 ∷ 40 ∷ []

length-pair : (r : ℕ) → r < 2 → length (pair r) ≡ 4
length-pair zero h = refl
length-pair (suc r) h = refl

-- Two chains, one at a time.
abbrev narrow : PipelineConfig
narrow = record { micro_chunks = 2; max_in_flight = 1; proto = none }

abbrev round_robin : List Move
round_robin =
    loops 0
    ∷ loops 1
    ∷ moves 1 0
    ∷ moves 0 0
    ∷ moves 0 1
    ∷ moves 1 0
    ∷ moves 1 1
    ∷ moves 0 0
    ∷ moves 0 1
    ∷ moves 1 1
    ∷ []

abbrev often : List Move
often =
    round_robin ++ (round_robin ++ (round_robin ++ (round_robin ++ (round_robin ++ round_robin))))

pipelined_run :
    let t =
      operate
        (chains sum_u32 2 2 narrow)
        (often ++ often)
        (fill (chains sum_u32 2 2 narrow) pair) in
    (t.stage 1 ≡ 2) × (t.held 1 ≡ 11 ∷ 22 ∷ 33 ∷ 44 ∷ [])
unfolding operate move pump chain_turn arrived fill chains chain turn post finish slot scatter_sends
    scatter_takes gather_sends gather_takes chain_key same_key reduce_in_place join chunks_exact
    remainder overlay sum_u32
pipelined_run = (refl, refl)

-- The guards.
too_many_chains :
    pipelined_ring sum_u32 2 1024 (record narrow { micro_chunks = 256 }) ≡ err protocol
unfolding pipelined_ring
too_many_chains = refl

uneven_chunks : pipelined_ring sum_u32 2 6 narrow ≡ err bad_shape
unfolding pipelined_ring
uneven_chunks = refl

pipelined_ring-everywhere_example :
    Returns
      (chains sum_u32 2 2 narrow)
      pair
      (moves 0 1 ∷ loops 0 ∷ moves 0 0 ∷ loops 1 ∷ [])
      (λ r. everywhere sum_u32 2 4 pair)
unfolding pipelined_ring
pipelined_ring-everywhere_example =
    pipelined_ring-everywhere sum_u32 2 4 narrow (chains sum_u32 2 2 narrow) pair
      (moves 0 1 ∷ loops 0 ∷ moves 0 0 ∷ loops 1 ∷ []) (ground arith) length-pair refl

abbrev eager : AdaptivePolicy
eager = record { small_threshold = 4; large_threshold = 8; pipeline_config = narrow }
