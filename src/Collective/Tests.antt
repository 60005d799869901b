-- ===== src/Collective/Tests.antt =====
-- Runs of the collectives among a few ranks, and their theorems at them.
use pluvio.Base.{
  inr, ℕ, zero, suc, ◌<◌, ◌≡◌, refl, List, [], ◌∷◌, ◌++◌, length, done, fault, panic, arith,
}
use pluvio.AmRouter.Header.{same_key}
use pluvio.Collective.Ops.{
  overlay, chunks_exact, remainder, join, reduce_in_place, reduce_in_place_lem, sum_u32,
  sum_u32_assoc, sum_u32_comm,
}
use pluvio.Collective.Tags.{encode_tag}
use pluvio.Collective.Bits.{bit, set_bit, clear_bit, highest_up_to, logical_highest_bit, bit_length}
use pluvio.Collective.Keys.{round_key}
use pluvio.Collective.Network.{post, finish, turn, run, start, sync, Ends}
use pluvio.Collective.Completion.{run-completes}
use pluvio.Collective.Spans.{span}
use pluvio.Collective.Ring.{
  phase, step, tag, send_idx, recv_idx, sends, receives, rounds_of, ring_allreduce,
}
use pluvio.Collective.Ring.Matched.{rounds_of-IsMatched, tag_inj}
use pluvio.Collective.Ring.Chunks.{gather}
use pluvio.Collective.Ring.Buffers.{own, reduced}
use pluvio.Collective.Ring.Allreduce.{everywhere, ring_allreduce-everywhere}
use pluvio.Collective.Matching.{tags_differ}
use pluvio.Collective.Doubling.{trailing_zeros, is_power_of_two, cube, recursive_doubling}
use pluvio.Collective.Allreduce.{total, recursive_doubling-total}
use pluvio.Collective.Broadcast.{logical, physical, have_data, dest, source, tree, broadcast}
use pluvio.Collective.Broadcast.Tree.{broadcast-everyone}
use pluvio.Collective.Bruck.{exchange, rotate, bruck_allgather, begin}
use pluvio.Collective.Bruck.Allgather.{bruck_allgather-gathers}

-- The buffers of three ranks.
abbrev buffers : ℕ → List ℕ
buffers zero = 1 ∷ 2 ∷ 3 ∷ []
buffers (suc zero) = 10 ∷ 20 ∷ 30 ∷ []
buffers (suc (suc r)) = 100 ∷ 200 ∷ 300 ∷ []

length-buffers : (r : ℕ) → r < 3 → length (buffers r) ≡ 3
length-buffers zero h = refl
length-buffers (suc zero) h = refl
length-buffers (suc (suc r)) h = refl

-- A schedule: rank 0 first as far as it comes, then the others.
abbrev uneven : List ℕ
uneven = 0 ∷ 0 ∷ 0 ∷ 2 ∷ 2 ∷ 2 ∷ 1 ∷ 1 ∷ 2 ∷ 0 ∷ []

ring_run :
    (run
        (rounds_of sum_u32 3 1)
        (uneven ++ uneven ++ uneven ++ uneven)
        (start (rounds_of sum_u32 3 1) buffers)).held
      1
    ≡ 111 ∷ 222 ∷ 333 ∷ []
unfolding run start turn post finish rounds_of tag encode_tag phase step send_idx recv_idx sends
    receives reduce_in_place join chunks_exact remainder overlay sum_u32
ring_run = refl

ring_completes :
    Ends (rounds_of sum_u32 3 1) buffers uneven (sync (rounds_of sum_u32 3 1) buffers 4)
unfolding rounds_of
ring_completes =
    run-completes (rounds_of sum_u32 3 1)
      (rounds_of-IsMatched sum_u32 3 1 (omega arith) (omega arith)) buffers uneven

ring_allreduce-everywhere_example :
    Ends (rounds_of sum_u32 3 1) buffers uneven (λ r. 111 ∷ 222 ∷ 333 ∷ [])
unfolding rounds_of ring_allreduce everywhere gather own reduced overlay sum_u32
ring_allreduce-everywhere_example =
    ring_allreduce-everywhere sum_u32 3 3 (rounds_of sum_u32 3 1) buffers uneven (omega arith)
      length-buffers refl

length-buffers_of_four : (r : ℕ) → r < 4 → length (buffers r) ≡ 3
length-buffers_of_four zero h = refl
length-buffers_of_four (suc zero) h = refl
length-buffers_of_four (suc (suc r)) h = refl

recursive_doubling-total_example : Ends (cube sum_u32 4) buffers uneven (λ r. 211 ∷ 422 ∷ 633 ∷ [])
unfolding recursive_doubling is_power_of_two logical_highest_bit highest_up_to total span overlay
    sum_u32
recursive_doubling-total_example =
    recursive_doubling-total sum_u32 4 3 (cube sum_u32 4) buffers uneven sum_u32_assoc sum_u32_comm
      (omega arith) length-buffers_of_four refl

-- Rank 1 is the root.
broadcast-everyone_example : Ends (tree 3 1) buffers uneven (λ r. 10 ∷ 20 ∷ 30 ∷ [])
unfolding broadcast tree
broadcast-everyone_example =
    broadcast-everyone 3 1 3 (tree 3 1) buffers uneven (omega arith) length-buffers refl

tree-run :
    (run (tree 3 1) (uneven ++ uneven ++ uneven) (start (tree 3 1) buffers)).held 0
    ≡ 10 ∷ 20 ∷ 30 ∷ []
unfolding run start turn post finish tree round_key have_data dest source logical physical set_bit
    clear_bit bit bit_length logical_highest_bit highest_up_to same_key
tree-run = refl

-- Contributions of one element, and of none.
abbrev singles : ℕ → List ℕ
singles r = suc r ∷ []

abbrev blank : ℕ → List ℕ
blank r = 0 ∷ 0 ∷ 0 ∷ []

abbrev Gathered : Type 0
Gathered =
    (out : ℕ → List ℕ) × Ends (exchange 3 1) (λ r. begin (singles r) (blank r)) uneven out
    × ((r : ℕ) → r < 3 → rotate 3 r (singles r) (out r) ≡ done (1 ∷ 2 ∷ 3 ∷ []))

bruck_allgather-gathers_example : Gathered
unfolding bruck_allgather exchange gather
bruck_allgather-gathers_example =
    bruck_allgather-gathers 3 1 (exchange 3 1) singles blank uneven (omega arith) (omega arith)
      (λ r h. refl) (λ r h. refl)

-- Where contributions are empty, the rotation panics on any rank and working set.
empty_panics : rotate {T = ℕ} 2 0 [] [] ≡ fault panic
unfolding rotate
empty_panics = refl

tag_inj_shown : ◌≡◌ {A = ℕ} 1 1 × ◌≡◌ {A = ℕ} 2 2
tag_inj_shown =
    tag_inj 4 1 1 2 2 (omega arith) (omega arith) (omega arith) (omega arith) (omega arith) refl

tags_differ_example : ◌≡◌ {A = ℕ} 1 1 × ◌≡◌ {A = ℕ} 2 2
unfolding recursive_doubling cube is_power_of_two trailing_zeros logical_highest_bit highest_up_to
tags_differ_example =
    tags_differ sum_u32 4 3 (cube sum_u32 4) 1 1 2 2 (omega arith) (inr refl) (omega arith)
      (omega arith) (omega arith) (omega arith) refl

-- Nine elements: a block and a rest of one.
abbrev nine : List ℕ
nine = 1 ∷ 2 ∷ 3 ∷ 4 ∷ 5 ∷ 6 ∷ 7 ∷ 8 ∷ 9 ∷ []

reduce_in_place_lem_example :
    reduce_in_place sum_u32 nine nine ≡ 2 ∷ 4 ∷ 6 ∷ 8 ∷ 10 ∷ 12 ∷ 14 ∷ 16 ∷ 18 ∷ []
unfolding overlay sum_u32
reduce_in_place_lem_example = reduce_in_place_lem sum_u32 nine nine refl
