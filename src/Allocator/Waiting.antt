-- ===== src/Allocator/Waiting.antt =====
-- pluvio_uring/src/allocator.rs: who is woken when buffers come back.
use pluvio.Base.{
  ℕ, ◌≡◌, refl, sym, ap, ◌∙◌, Bool, true, false, Option, none, some, List, [], ◌∷◌, ◌++◌,
  append-nil, append_assoc, map, take, length, ◌==◌, ==_refl, if◌then◌else◌, ready, arith,
}
use pluvio.Allocator.{
  FixedBufferInner, Allocator, set_waker, acquire_inner, enqueue, poll_acquire, wake_first,
  drop_buffer,
}

-- Buffers that come back one after the other.
unfoldable pub drop_all : List FixedBufferInner → Allocator → Allocator
drop_all [] a = a
drop_all (b ∷ bs) a = drop_all bs (drop_buffer b a)

abbrev pub is_among : ℕ → List (ℕ × ℕ) → Bool
is_among i [] = false
is_among i ((j, w) ∷ ws) = if j == i then true else is_among i ws

abbrev pub distinct : List (ℕ × ℕ) → Bool
distinct [] = true
distinct ((i, w) ∷ ws) = if is_among i ws then false else distinct ws

-- Each state of the list has the waker beside it.
unfoldable pub Wakes : List (ℕ × ℕ) → (ℕ → Option ℕ) → Type 0
Wakes [] f = Unit
Wakes ((i, w) ∷ ws) f = (f i ≡ some w) × Wakes ws f

Wakes-set_waker :
    (i : ℕ) (o : Option ℕ) (ws : List (ℕ × ℕ)) (f : ℕ → Option ℕ)
    → is_among i ws ≡ false
    → Wakes ws f
    → Wakes ws (set_waker i o f)
unfolding Wakes
Wakes-set_waker i o [] f n h = tt
Wakes-set_waker i o ((j, w) ∷ ws) f n (e, h) =
    (ground (arith, n, e), Wakes-set_waker i o ws f (ground (arith, n)) h)

drop_buffer-queue :
    (b : FixedBufferInner) (i w : ℕ) (later : List ℕ) (free : List FixedBufferInner)
    (f : ℕ → Option ℕ) (woken : List ℕ)
    → f i ≡ some w
    → drop_buffer b
        (record { buffers = free; acquire_queue = i ∷ later; wakers = f; woken = woken })
      ≡ record {
        buffers = b ∷ free;
        acquire_queue = later;
        wakers = set_waker i none f;
        woken = woken ++ w ∷ [];
      }
unfolding drop_buffer wake_first
drop_buffer-queue b i w later free f woken h = rw (h) refl

drop_all-nobody :
    (bs free : List FixedBufferInner) (f : ℕ → Option ℕ) (woken : List ℕ)
    → (drop_all bs (record { buffers = free; acquire_queue = []; wakers = f; woken = woken })).woken
      ≡ woken
unfolding drop_all drop_buffer wake_first
drop_all-nobody [] free f woken = refl
drop_all-nobody (b ∷ bs) free f woken = drop_all-nobody bs (b ∷ free) f woken

drop_all-waiting :
    (ws : List (ℕ × ℕ)) (bs free : List FixedBufferInner) (f : ℕ → Option ℕ) (woken : List ℕ)
    → Wakes ws f
    → distinct ws ≡ true
    → (drop_all bs (record {
      buffers = free;
      acquire_queue = map (λ x. x.0) ws;
      wakers = f;
      woken = woken;
    })).woken
      ≡ woken ++ map (λ x. x.1) (take (length bs) ws)
unfolding drop_all Wakes
drop_all-waiting ws [] free f woken h d = sym (append-nil woken)
drop_all-waiting [] (b ∷ bs) free f woken h d =
    drop_all-nobody (b ∷ bs) free f woken ∙ sym (append-nil woken)
drop_all-waiting ((i, w) ∷ ws) (b ∷ bs) free f woken (e, h) d =
    let alone : is_among i ws ≡ false = ground (arith, d) in
    let others : distinct ws ≡ true = ground (arith, d) in
    ap (λ x. (drop_all bs x).woken) (drop_buffer-queue b i w (map (λ x. x.0) ws) free f woken e)
    ∙ drop_all-waiting ws bs (b ∷ free) (set_waker i none f) (woken ++ w ∷ [])
        (Wakes-set_waker i none ws f alone h) others
    ∙ append_assoc woken (w ∷ []) (map (λ x. x.1) (take (length bs) ws))

-- When buffers come back while states wait that differ, each with its waker, as many of them are woken, in
-- the order in which they wait.
pub drop_all-Wakes :
    (ws : List (ℕ × ℕ)) (bs : List FixedBufferInner) (a : Allocator)
    → a.acquire_queue ≡ map (λ x. x.0) ws
    → Wakes ws a.wakers
    → distinct ws ≡ true
    → (drop_all bs a).woken ≡ a.woken ++ map (λ x. x.1) (take (length bs) ws)
drop_all-Wakes ws bs a q h d =
    ap (λ x. (drop_all bs (record a { acquire_queue = x })).woken) q
    ∙ drop_all-waiting ws bs a.buffers a.wakers a.woken h d

-- A future that is polled twice while it waits is in the queue twice: when it has its buffer and gives it
-- back, the second entry is served, nobody is woken, and the one behind it waits on although the buffer is free.
pub polled_twice-lost :
    (i j w w' v : ℕ) (b : FixedBufferInner) (f : ℕ → Option ℕ)
    → (i == j) ≡ false
    → let a : Allocator = record { buffers = []; acquire_queue = []; wakers = f; woken = [] } in
      let waiting = (poll_acquire j v (poll_acquire i w' (poll_acquire i w a).0).0).0 in
      let (served, p) = poll_acquire i w' (drop_buffer b waiting) in
      let last = drop_buffer b served in
      (p ≡ ready b)
      × (last.woken ≡ w' ∷ [])
      × (last.buffers ≡ b ∷ [])
      × (last.acquire_queue ≡ j ∷ [])
unfolding poll_acquire acquire_inner enqueue drop_buffer wake_first
polled_twice-lost i j w w' v b f n = rw (n, ==_refl i) (refl, refl, refl, refl)
