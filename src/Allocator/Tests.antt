-- ===== src/Allocator/Tests.antt =====
-- The allocator at concrete inputs.
use pluvio.Base.{
  ℕ, ◌+◌, ◌≡◌, refl, none, some, List, [], ◌∷◌, ◌++◌, ltb, if◌then◌else◌, map, take, ready, done,
  fault, panic, arith,
}
use pluvio.Allocator.{FixedBufferInner, Allocator, new_without_uring, poll_acquire, drop_buffer}
use pluvio.Allocator.Conservation.{copies, Event, polled, dropped, occur_all, buffers_conserved}
use pluvio.Allocator.Waiting.{drop_all, Wakes, drop_all-Wakes, polled_twice-lost}

abbrev buffer : ℕ → FixedBufferInner
buffer i = record { index = i; len = 4096; rdma_lkey = 0; rdma_rkey = 0 }

abbrev events : List Event
events = polled 0 10 ∷ polled 1 11 ∷ polled 2 12 ∷ dropped 1 ∷ polled 2 12 ∷ []

buffers_conserved_example :
    (new : Allocator) × (new_without_uring 2 4096 ≡ done new)
    × (let (a, held) = occur_all events (new, []) in
        copies 1 a.buffers + copies 1 held ≡ (if ltb 1 2 then 1 else 0))
buffers_conserved_example = buffers_conserved 1 2 4096 events (omega arith)

empty_buffers_panic : new_without_uring 2 0 ≡ fault panic
unfolding new_without_uring
empty_buffers_panic = refl

abbrev waiting : Allocator
waiting = record {
  buffers = [];
  acquire_queue = 4 ∷ 7 ∷ 5 ∷ [];
  wakers = λ i. some (i + 10);
  woken = [];
}

drop_all-Wakes_example :
    (drop_all (buffer 0 ∷ buffer 1 ∷ []) waiting).woken
    ≡ [] ++ map (λ (x : ℕ × ℕ). x.1) (take 2 ((4, 14) ∷ (7, 17) ∷ (5, 15) ∷ []))
unfolding Wakes
drop_all-Wakes_example =
    drop_all-Wakes ((4, 14) ∷ (7, 17) ∷ (5, 15) ∷ []) (buffer 0 ∷ buffer 1 ∷ []) waiting refl
      (refl, (refl, (refl, tt))) refl

polled_twice-lost_example :
    let a : Allocator = record {
      buffers = [];
      acquire_queue = [];
      wakers = λ i. none;
      woken = [];
    } in
    let later = (poll_acquire 1 20 (poll_acquire 0 11 (poll_acquire 0 10 a).0).0).0 in
    let (served, p) = poll_acquire 0 11 (drop_buffer (buffer 3) later) in
    let last = drop_buffer (buffer 3) served in
    (p ≡ ready (buffer 3))
    × (last.woken ≡ 11 ∷ [])
    × (last.buffers ≡ buffer 3 ∷ [])
    × (last.acquire_queue ≡ 1 ∷ [])
polled_twice-lost_example = polled_twice-lost 0 1 10 11 20 (buffer 3) (λ i. none) refl
