-- ===== src/Collective/Ring/Buffers.antt =====
-- The buffers of the ring allreduce, and what one round does to each chunk of them.
use native.Mathlib.Decide.{dec_lt}
use pluvio.Base.{
  ℕ, zero, suc, ◌+◌, ◌-◌, ◌*◌, ◌%◌, ◌≤◌, ◌<◌, ◌≡◌, refl, sym, ap, ◌∙◌, inl, inr, List, length,
  write, ◌==◌, ==_iff, if◌then◌else◌, Bool-cases, arith,
}
use pluvio.Collective.Ops.{Op, overlay, length-overlay, reduce_in_place, reduce_in_place_lem}
use pluvio.Collective.Network.{sync}
use pluvio.Collective.Ring.{prev, recv_idx, sends, receives, rounds_of}
use pluvio.Collective.Ring.Ranks.{prev_in, early, late, dist-early, dist-late, send-recv}
use pluvio.Collective.Ring.Chunks.{chunk_at, length-chunk_at, length-write_chunk, chunk_at-write}

module _ {T : Type 0} (op : Op T) (n chunk : ℕ) (init : ℕ → List T) where
  -- A chunk of a rank's own buffer.
  unfoldable pub own : ℕ → ℕ → List T
  own r c = chunk_at chunk c (init r)

  -- A chunk reduced along the ring, from the rank of its index over the `d` ranks behind it.
  unfoldable pub reduced : ℕ → ℕ → List T
  reduced c zero = own c c
  reduced c (suc d) = overlay op.apply (own ((c + suc d) % n) c) (reduced c d)

  module _ (two : 2 ≤ n) (sized : (r : ℕ) → r < n → length (init r) ≡ n * chunk) where
    abbrev pub buffer : ℕ → ℕ → List T
    buffer k r = sync (rounds_of op n chunk) init k r

    abbrev pub view : ℕ → ℕ → ℕ → List T
    view k r c = chunk_at chunk c (buffer k r)

    index_in : (k r : ℕ) → r < n → k < (n - 1) + (n - 1) → recv_idx n k r < n
    index_in k r h a = elim (dec_lt k (n - 1)) [
      | yes l ↦ (dist-early n k r h l).0
      | no l ↦ (dist-late n k r h (omega arith) a).0
    ]

    abbrev arriving : ℕ → ℕ → List T
    arriving k r = view k (prev n r) (recv_idx n k r)

    receives-early :
        (k r : ℕ) (buf tmp : List T)
        → k < n - 1
        → receives op n chunk k r buf tmp
          ≡ write
              (recv_idx n k r * chunk)
              (reduce_in_place op (chunk_at chunk (recv_idx n k r) buf) tmp)
              buf
    unfolding receives
    receives-early k r buf tmp l = rw ((early n k l).0) refl

    receives-late :
        (k r : ℕ) (buf tmp : List T)
        → n - 1 ≤ k
        → receives op n chunk k r buf tmp ≡ write (recv_idx n k r * chunk) tmp buf
    unfolding receives
    receives-late k r buf tmp l = rw ((late n k l).0) refl

    buffer-suc :
        (k r : ℕ)
        → r < n
        → k < (n - 1) + (n - 1)
        → buffer (suc k) r ≡ receives op n chunk k r (buffer k r) (arriving k r)
    unfolding sync rounds_of sends
    buffer-suc k r h a =
        ap (λ i. receives op n chunk k r (buffer k r) (chunk_at chunk i (buffer k (prev n r))))
          (send-recv n k r h a)

    -- What a round writes has the length of a chunk.
    length-written :
        (k r : ℕ)
        → r < n
        → k < (n - 1) + (n - 1)
        → length (buffer k r) ≡ n * chunk
        → length (buffer k (prev n r)) ≡ n * chunk
        → (length (view k r (recv_idx n k r)) ≡ length (arriving k r))
          × (length (arriving k r) ≡ chunk)
    length-written k r h a mine theirs =
        let i = index_in k r h a in
        let there = length-chunk_at chunk n (recv_idx n k r) (buffer k (prev n r)) theirs i in
        (length-chunk_at chunk n (recv_idx n k r) (buffer k r) mine i ∙ sym there, there)

    length-combined :
        (xs ys : List T)
        → length xs ≡ length ys
        → length ys ≡ chunk
        → length (reduce_in_place op xs ys) ≡ chunk
    length-combined xs ys e f =
        ap length (reduce_in_place_lem op xs ys e) ∙ length-overlay op.apply xs ys ∙ e ∙ f

    pub length-buffer : (k r : ℕ) → r < n → k ≤ (n - 1) + (n - 1) → length (buffer k r) ≡ n * chunk
    unfolding sync
    length-buffer zero r h a = sized r h
    length-buffer (suc k) r h a =
        let b : k < (n - 1) + (n - 1) = omega (arith, a) in
        let mine = length-buffer k r h (omega arith) in
        let theirs = length-buffer k (prev n r) (prev_in n r h) (omega arith) in
        let i = index_in k r h b in
        let (e, f) = length-written k r h b mine theirs in
        let m = arriving k r in
        ap length (buffer-suc k r h b) ∙ elim (dec_lt k (n - 1)) [
          | yes l ↦
              ap length (receives-early k r (buffer k r) m l)
              ∙ length-write_chunk chunk n (recv_idx n k r)
                  (reduce_in_place op (view k r (recv_idx n k r)) m) (buffer k r) mine
                  (length-combined (view k r (recv_idx n k r)) m e f) i
          | no l ↦
              ap length (receives-late k r (buffer k r) m (omega arith))
              ∙ length-write_chunk chunk n (recv_idx n k r) m (buffer k r) mine f i
        ]

    -- One round, chunk by chunk.
    pub view-early :
        (k r c : ℕ)
        → r < n
        → k < n - 1
        → view (suc k) r c ≡ (
            if c == recv_idx n k r
            then overlay op.apply (view k r c) (view k (prev n r) c)
            else view k r c)
    view-early k r c h l =
        let b : k < (n - 1) + (n - 1) = omega arith in
        let mine = length-buffer k r h (omega arith) in
        let theirs = length-buffer k (prev n r) (prev_in n r h) (omega arith) in
        let (e, f) = length-written k r h b mine theirs in
        let i = recv_idx n k r in
        let m = arriving k r in
        ap (chunk_at chunk c) (buffer-suc k r h b ∙ receives-early k r (buffer k r) m l)
        ∙ chunk_at-write chunk n c i (reduce_in_place op (view k r i) m) (buffer k r) mine
            (length-combined (view k r i) m e f) (index_in k r h b)
        ∙ elim (Bool-cases (c == i)) [
          | inl y ↦ rw (y, (==_iff c i).0 y) (reduce_in_place_lem op (view k r i) m e)
          | inr y ↦ rw (y) refl
        ]

    pub view-late :
        (k r c : ℕ)
        → r < n
        → n - 1 ≤ k
        → k < (n - 1) + (n - 1)
        → view (suc k) r c ≡ (if c == recv_idx n k r then view k (prev n r) c else view k r c)
    view-late k r c h l b =
        let mine = length-buffer k r h (omega arith) in
        let theirs = length-buffer k (prev n r) (prev_in n r h) (omega arith) in
        let (e, f) = length-written k r h b mine theirs in
        let i = recv_idx n k r in
        let m = arriving k r in
        ap (chunk_at chunk c) (buffer-suc k r h b ∙ receives-late k r (buffer k r) m l)
        ∙ chunk_at-write chunk n c i m (buffer k r) mine f (index_in k r h b)
        ∙ elim (Bool-cases (c == i)) [ inl y ↦ rw (y, (==_iff c i).0 y) refl | inr y ↦ rw (y) refl ]
