-- ===== src/Allocator.antt =====
-- pluvio_uring/src/allocator.rs: the pool of fixed buffers, the future that waits for one, and the
-- return of a buffer. The Vec of free buffers is a list with its end first; a LazyAcquireState goes by
-- number. Memory, the registration with io_uring, and log lines are left out.
mod Conservation
mod Waiting
mod Tests
use pluvio.Base.{
  ℕ, zero, suc, ◌≡◌, Bool, true, false, Option, none, some, List, [], ◌∷◌, ◌++◌, ◌==◌, ltb, ◌&&◌,
  if◌then◌else◌, Result, ok, err, Run, done, fault, panic, Poll, ready, pending,
}

pub record FixedBufferInner : Type 0 where
  pub index : ℕ
  pub len : ℕ
  pub rdma_lkey : ℕ
  pub rdma_rkey : ℕ

-- `wakers` is the field `waker` of each LazyAcquireState; `woken` lists the wakers called.
pub record Allocator : Type 0 where
  pub buffers : List FixedBufferInner
  pub acquire_queue : List ℕ
  pub wakers : ℕ → Option ℕ
  pub woken : List ℕ

abbrev set_waker : ℕ → Option ℕ → (ℕ → Option ℕ) → ℕ → Option ℕ
set_waker i o f j = if j == i then o else f j

unfoldable pub new_buffers : ℕ → ℕ → List FixedBufferInner
new_buffers zero size = []
new_buffers (suc n) size =
    record { index = n; len = size; rdma_lkey = 0; rdma_rkey = 0 } ∷ new_buffers n size

-- `new_aligned_buffer` asserts of each buffer that it is not empty.
unfoldable pub new_without_uring : ℕ → ℕ → Run Allocator
new_without_uring queue_size buffer_size =
    if ltb 0 queue_size && buffer_size == 0
    then fault panic
    else done (record {
      buffers = new_buffers queue_size buffer_size;
      acquire_queue = [];
      wakers = λ i. none;
      woken = [];
    })

-- The keys that `register_fn` gives for a buffer. After an error the buffers before keep theirs; they
-- are visited from the front of the Vec.
unfoldable pub register_keys :
    {E : Type 0}
    → (FixedBufferInner → Result (ℕ × ℕ) E)
    → List FixedBufferInner
    → List FixedBufferInner × Result (Unit {0}) E
register_keys {E} register_fn [] = ([], ok tt)
register_keys {E} register_fn (b ∷ front) =
    let (front', r) = register_keys register_fn front in
    elim r as (λ x. List FixedBufferInner × Result (Unit {0}) E) [
      | err e ↦ (b ∷ front', err e)
      | ok u ↦ elim (register_fn b) as (λ x. List FixedBufferInner × Result (Unit {0}) E) [
        | err e ↦ (b ∷ front', err e)
        | ok (lkey, rkey) ↦ (record b { rdma_lkey = lkey; rdma_rkey = rkey } ∷ front', ok tt)
      ]
    ]

-- `acquire_inner`, which `try_acquire` is.
unfoldable pub acquire_inner : Allocator → Allocator × Option FixedBufferInner
acquire_inner a = elim a.buffers as (λ x. Allocator × Option FixedBufferInner) [
  | [] ↦ (a, none)
  | b ∷ rest ↦ (record a { buffers = rest }, some b)
]

-- The state `i` of the future takes the waker and joins the queue, wherever it is there already.
unfoldable pub enqueue : ℕ → ℕ → Allocator → Allocator
enqueue i w a = record a {
  wakers = set_waker i (some w) a.wakers;
  acquire_queue = a.acquire_queue ++ i ∷ [];
}

-- `LazyAcquire::poll` with waker `w`, of the future whose state is `i`.
unfoldable pub poll_acquire : ℕ → ℕ → Allocator → Allocator × Poll FixedBufferInner
poll_acquire i w a =
    let (a', got) = acquire_inner a in
    elim got as (λ x. Allocator × Poll FixedBufferInner) [
      | some b ↦ (a', ready b)
      | none ↦ (enqueue i w a', pending)
    ]

abbrev called : Option ℕ → List ℕ → List ℕ
called none ws = ws
called (some w) ws = ws ++ w ∷ []

-- The first state of the queue leaves it, and its waker is taken and called, if it has one.
unfoldable pub wake_first : Allocator → Allocator
wake_first a = elim a.acquire_queue as (λ x. Allocator) [
  | [] ↦ a
  | i ∷ later ↦ record a {
    acquire_queue = later;
    wakers = set_waker i none a.wakers;
    woken = called (a.wakers i) a.woken;
  }
]

-- `FixedBuffer::drop` of a handle that still has its buffer.
unfoldable pub drop_buffer : FixedBufferInner → Allocator → Allocator
drop_buffer b a = wake_first (record a { buffers = b ∷ a.buffers })
