-- ===== src/Collective/Ring/Phases.antt =====
-- What every chunk of every rank holds after each round of the ring allreduce.
use pluvio.Base.{
  ℕ, zero, suc, ◌+◌, ◌-◌, ◌*◌, ◌%◌, ◌≤◌, ◌<◌, ◌≡◌, sym, ap, ap₂, ◌∙◌, inl, inr, List, length, ltb,
  leb, ◌==◌, ==_iff, if◌then◌else◌, Bool-cases, if_true, if_false, arith,
}
use pluvio.Collective.Ops.{Op, overlay}
use pluvio.Collective.Network.{sync}
use pluvio.Collective.Ring.{prev, recv_idx, rounds_of}
use pluvio.Collective.Ranks.{dist, along}
use pluvio.Collective.Ring.Ranks.{dist-prev, dist_inj, found, prev_in, dist-early, dist-late}
use pluvio.Collective.Ring.Chunks.{chunk_at, gather, of_chunks}
use pluvio.Collective.Ring.Buffers.{own, reduced, length-buffer, view-early, view-late}

module _ {T : Type 0} (op : Op T) (n chunk : ℕ) (init : ℕ → List T) (two : 2 ≤ n)
    (sized : (r : ℕ) → r < n → length (init r) ≡ n * chunk) where
  abbrev buffer : ℕ → ℕ → List T
  buffer k r = sync (rounds_of op n chunk) init k r

  abbrev view : ℕ → ℕ → ℕ → List T
  view k r c = chunk_at chunk c (buffer k r)

  -- A step of the first phase, by the distance.
  step-early :
      (k r c : ℕ)
      → r < n
      → c < n
      → k < n - 1
      → view (suc k) r c ≡ (
          if dist n r c == suc k
          then overlay op.apply (view k r c) (view k (prev n r) c)
          else view k r c)
  step-early k r c h g l =
      let (i, e) = dist-early n k r h l in
      view-early op n chunk init two sized k r c h l
      ∙ ap (λ b. if b then overlay op.apply (view k r c) (view k (prev n r) c) else view k r c)
          (found n r c (recv_idx n k r) (suc k) h g i e)

  step-late :
      (k r c : ℕ)
      → r < n
      → c < n
      → k < n - 1
      → view (suc ((n - 1) + k)) r c
        ≡ (if dist n r c == k then view ((n - 1) + k) (prev n r) c else view ((n - 1) + k) r c)
  step-late k r c h g l =
      let j = (n - 1) + k in
      let (i, e) = dist-late n j r h (omega arith) (omega (arith, l)) in
      view-late op n chunk init two sized j r c h (omega arith) (omega (arith, l))
      ∙ ap (λ b. if b then view j (prev n r) c else view j r c)
          (found n r c (recv_idx n j r) k h g i (e ∙ omega arith))

  -- After `k` steps of the first phase a chunk has been reduced op n chunk init as far as `k` ranks along the ring.
  scattered :
      (k r c : ℕ)
      → r < n
      → c < n
      → k ≤ n - 1
      → view k r c ≡ (
          if leb (dist n r c) k
          then reduced op n chunk init c (dist n r c)
          else own op n chunk init r c)
  unfolding sync reduced own
  scattered zero r c h g a = elim (Bool-cases (leb (dist n r c) 0)) [
    | inl y ↦
        let e : dist n r c ≡ 0 = ground (arith, y) in
        ap (λ i. chunk_at chunk c (init i)) (dist_inj n r r c h h g (ground (arith, e)))
        ∙ sym (
            if_true (leb (dist n r c) 0) (reduced op n chunk init c (dist n r c))
              (own op n chunk init r c) y
            ∙ ap (reduced op n chunk init c) e)
    | inr y ↦ sym (
        if_false (leb (dist n r c) 0) (reduced op n chunk init c (dist n r c))
          (own op n chunk init r c) y)
  ]
  scattered (suc k) r c h g a =
      step-early k r c h g (omega (arith, a)) ∙ elim (Bool-cases (dist n r c == suc k)) [
        | inl y ↦
            let e = (==_iff (dist n r c) (suc k)).0 y in
            let near : dist n (prev n r) c ≡ k = dist-prev n r c h g ∙ ground (arith, e) in
            let mine =
              scattered k r c h g (omega (arith, a))
              ∙ if_false (leb (dist n r c) k) (reduced op n chunk init c (dist n r c))
                  (own op n chunk init r c) (ground (arith, e)) in
            let theirs =
              scattered k (prev n r) c (prev_in n r h) g (omega (arith, a))
              ∙ if_true (leb (dist n (prev n r) c) k)
                  (reduced op n chunk init c (dist n (prev n r) c))
                  (own op n chunk init (prev n r) c) (ground (arith, near))
              ∙ ap (reduced op n chunk init c) near in
            if_true (dist n r c == suc k) (overlay op.apply (view k r c) (view k (prev n r) c))
              (view k r c) y
            ∙ ap₂ (overlay op.apply) mine theirs
            ∙ ap (λ i. overlay op.apply (own op n chunk init i c) (reduced op n chunk init c k))
                (sym (ap (λ d. (c + d) % n) (sym e) ∙ along n r c h g))
            ∙ sym (
                if_true (leb (dist n r c) (suc k)) (reduced op n chunk init c (dist n r c))
                  (own op n chunk init r c) (ground (arith, e))
                ∙ ap (reduced op n chunk init c) e)
        | inr y ↦
            if_false (dist n r c == suc k) (overlay op.apply (view k r c) (view k (prev n r) c))
              (view k r c) y
            ∙ scattered k r c h g (omega (arith, a))
            ∙ ap
                (λ b. if b then reduced op n chunk init c (dist n r c) else own op n chunk init r c)
                (ground (arith, y))
      ]

  -- After `k` steps of the second phase a chunk is final at the rank where it became so, and at the
  -- `k` ranks behind it.
  gathered :
      (k r c : ℕ)
      → r < n
      → c < n
      → k ≤ n - 1
      → view ((n - 1) + k) r c
        ≡ reduced op n chunk init c (if ltb (dist n r c) k then n - 1 else dist n r c)
  gathered zero r c h g a =
      ap (λ j. view j r c) (omega arith)
      ∙ scattered (n - 1) r c h g (omega arith)
      ∙ if_true (leb (dist n r c) (n - 1)) (reduced op n chunk init c (dist n r c))
          (own op n chunk init r c) (ground (arith, h, g))
      ∙ ap (reduced op n chunk init c) (ground arith)
  gathered (suc k) r c h g a =
      let j = (n - 1) + k in
      ap (λ i. view i r c) (omega arith)
      ∙ step-late k r c h g (omega (arith, a))
      ∙ elim (Bool-cases (dist n r c == k)) [
        | inl y ↦
            let e = (==_iff (dist n r c) k).0 y in
            if_true (dist n r c == k) (view j (prev n r) c) (view j r c) y
            ∙ gathered k (prev n r) c (prev_in n r h) g (omega (arith, a))
            ∙ ap (reduced op n chunk init c) (ground (arith, e, dist-prev n r c h g))
        | inr y ↦
            if_false (dist n r c == k) (view j (prev n r) c) (view j r c) y
            ∙ gathered k r c h g (omega (arith, a))
            ∙ ap (reduced op n chunk init c) (ground (arith, y))
      ]

  -- At the end all chunks of all ranks are final.
  pub buffer-final :
      (r : ℕ)
      → r < n
      → sync (rounds_of op n chunk) init ((n - 1) + (n - 1)) r
        ≡ gather chunk n (λ c. reduced op n chunk init c (n - 1))
  buffer-final r h =
      of_chunks chunk n (buffer ((n - 1) + (n - 1)) r) (λ c. reduced op n chunk init c (n - 1))
        (length-buffer op n chunk init two sized ((n - 1) + (n - 1)) r h (omega arith))
        (λ c g.
          gathered (n - 1) r c h g (omega arith) ∙ ap (reduced op n chunk init c) (ground arith))
