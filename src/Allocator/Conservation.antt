-- ===== src/Allocator/Conservation.antt =====
-- pluvio_uring/src/allocator.rs: no buffer is lost, and none is handed out twice.
use pluvio.Base.{
  ℕ, zero, suc, ◌+◌, ◌<◌, ◌≡◌, done, false, refl, sym, ap, ◌∙◌, inl, inr, Option, none, some, List,
  [], ◌∷◌, ltb, ◌==◌, if◌then◌else◌, Option-cases, Poll, ready, pending, arith,
}
use pluvio.Allocator.{
  FixedBufferInner, Allocator, new_buffers, new_without_uring, acquire_inner, enqueue, poll_acquire,
  wake_first, drop_buffer,
}

-- How often a buffer of an index is in a list.
abbrev pub copies : ℕ → List FixedBufferInner → ℕ
copies i [] = 0
copies i (b ∷ bs) = if b.index == i then suc (copies i bs) else copies i bs

-- The buffer at a position, and the others.
abbrev pub pick : ℕ → List FixedBufferInner → Option (FixedBufferInner × List FixedBufferInner)
pick n [] = none
pick zero (b ∷ bs) = some (b, bs)
pick (suc n) (b ∷ bs) =
    elim (pick n bs) as (λ x. Option (FixedBufferInner × List FixedBufferInner)) [
      | none ↦ none
      | some (c, rest) ↦ some (c, b ∷ rest)
    ]

-- A future whose state is given is polled with a waker, or the holder of the buffer at a position
-- drops it.
pub data Event : Type 0 where
  polled : (i w : ℕ) → Event
  dropped : ℕ → Event

-- What a poll's answer adds to the buffers that are held.
abbrev pub handed : Poll FixedBufferInner → List FixedBufferInner → List FixedBufferInner
handed pending held = held
handed (ready b) held = b ∷ held

unfoldable pub occur : Event → Allocator × List FixedBufferInner → Allocator × List FixedBufferInner
occur (polled i w) (a, held) = let (a', p) = poll_acquire i w a in (a', handed p held)
occur (dropped n) (a, held) = elim (pick n held) as (λ x. Allocator × List FixedBufferInner) [
  | none ↦ (a, held)
  | some (b, rest) ↦ (drop_buffer b a, rest)
]

unfoldable pub occur_all :
    List Event → Allocator × List FixedBufferInner → Allocator × List FixedBufferInner
occur_all [] s = s
occur_all (e ∷ later) s = occur_all later (occur e s)

-- How often a buffer of an index is anywhere.
abbrev pub everywhere : ℕ → Allocator × List FixedBufferInner → ℕ
everywhere i (a, held) = copies i a.buffers + copies i held

copies_or : ℕ → ℕ → Option (FixedBufferInner × List FixedBufferInner) → ℕ
copies_or i n none = n
copies_or i n (some (b, rest)) = copies i (b ∷ rest)

copies_or-pick :
    (i n : ℕ) (bs : List FixedBufferInner) → copies_or i (copies i bs) (pick n bs) ≡ copies i bs
unfolding copies_or
copies_or-pick i n [] = refl
copies_or-pick i zero (c ∷ bs) = refl
copies_or-pick i (suc n) (c ∷ bs) = elim (Option-cases (pick n bs)) [
  | inl e ↦ rw (e) refl
  | inr ((b, rest), e) ↦
      let h : copies i (b ∷ rest) ≡ copies i bs =
        sym (ap (copies_or i (copies i bs)) e) ∙ copies_or-pick i n bs in
      rw (e) (ground (arith, h))
]

wake_first-buffers : (a : Allocator) → (wake_first a).buffers ≡ a.buffers
unfolding wake_first
wake_first-buffers a = go a.acquire_queue
  where
    go : (q : List ℕ) → (wake_first (record a { acquire_queue = q })).buffers ≡ a.buffers
    go [] = refl
    go (i ∷ later) = refl

polled-everywhere :
    (i j w : ℕ) (a : Allocator) (held : List FixedBufferInner)
    → everywhere i (occur (polled j w) (a, held)) ≡ everywhere i (a, held)
unfolding occur poll_acquire acquire_inner enqueue
polled-everywhere i j w a held = go a.buffers
  where
    go :
        (bs : List FixedBufferInner)
        → everywhere i (occur (polled j w) (record a { buffers = bs }, held))
          ≡ copies i bs + copies i held
    go [] = refl
    go (b ∷ bs) = ground arith

dropped-everywhere :
    (i n : ℕ) (a : Allocator) (held : List FixedBufferInner)
    → everywhere i (occur (dropped n) (a, held)) ≡ everywhere i (a, held)
unfolding occur drop_buffer copies_or
dropped-everywhere i n a held = elim (Option-cases (pick n held)) [
  | inl e ↦ rw (e, occur) refl
  | inr ((b, rest), e) ↦
      let h : copies i (b ∷ rest) ≡ copies i held =
        sym (ap (copies_or i (copies i held)) e) ∙ copies_or-pick i n held in
      rw (e, occur, wake_first-buffers (record a { buffers = b ∷ a.buffers })) (ground (arith, h))
]

occur_all-everywhere :
    (i : ℕ) (events : List Event) (s : Allocator × List FixedBufferInner)
    → everywhere i (occur_all events s) ≡ everywhere i s
unfolding occur_all
occur_all-everywhere i [] s = refl
occur_all-everywhere i (polled j w ∷ later) (a, held) =
    occur_all-everywhere i later (occur (polled j w) (a, held)) ∙ polled-everywhere i j w a held
occur_all-everywhere i (dropped n ∷ later) (a, held) =
    occur_all-everywhere i later (occur (dropped n) (a, held)) ∙ dropped-everywhere i n a held

copies-new_buffers : (i n size : ℕ) → copies i (new_buffers n size) ≡ (if ltb i n then 1 else 0)
unfolding new_buffers
copies-new_buffers i zero size = ground arith
copies-new_buffers i (suc n) size = ground (arith, copies-new_buffers i n size)

-- A new allocator comes unless it is to have buffers of no bytes, and whatever polls and drops occur at it,
-- there is one buffer of each index below its size, free or held, and no other.
pub buffers_conserved :
    (i queue_size buffer_size : ℕ) (events : List Event)
    → 0 < buffer_size
    → (new : Allocator) × (new_without_uring queue_size buffer_size ≡ done new)
      × (let (a, held) = occur_all events (new, []) in
          copies i a.buffers + copies i held ≡ (if ltb i queue_size then 1 else 0))
unfolding new_without_uring
buffers_conserved i n size events h =
    let positive : (size == 0) ≡ false = ground (arith, h) in
    let new : Allocator = record {
      buffers = new_buffers n size;
      acquire_queue = [];
      wakers = λ i. none;
      woken = [];
    } in
    (
      new,
      ground (arith, positive),
      occur_all-everywhere i events (new, []) ∙ add_zero ∙ copies-new_buffers i n size,
    )
  where
    add_zero : copies i (new_buffers n size) + 0 ≡ copies i (new_buffers n size)
    add_zero = omega arith
