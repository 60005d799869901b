-- ===== src/Collective/Pipelined/Allreduce.antt =====
-- What the pipelined ring leaves on every rank: the same as the plain ring.
use native.Mathlib.Nat.{div-add-mod, mod-lt}
use pluvio.Base.{
  ℕ, zero, suc, ◌+◌, ◌-◌, ◌*◌, ◌/◌, ◌%◌, ◌^◌, ◌≤◌, ◌<◌, ◌≡◌, sym, ap, ap₂, subst, ◌∙◌, inl, inr,
  ◌||◌, some, List, ◌++◌, length, slice, take, drop, drop-drop, slice-take, ltb, leb, ◌==◌, ==_iff,
  ok, Bool-cases, arith,
}
use pluvio.AmRouter.Header.{RecvKey}
use pluvio.Collective.Ops.{Op, overlay, length-overlay}
use pluvio.Collective.Spans.{drop-overlay, take-overlay}
use pluvio.Collective.Ring.Chunks.{mul_mono, chunk_at, gather, of_chunks, length-chunk_at}
use pluvio.Collective.Ring.Buffers.{own, reduced}
use pluvio.Collective.Ring.Phases.{buffer-final}
use pluvio.Collective.Ring.Allreduce.{everywhere}
use pluvio.Collective.Lanes.{Pipeline, Move, Returns, operate, fill}
use pluvio.Collective.Lanes.Completion.{chains_complete}
use pluvio.Collective.Pipelined.{PipelineConfig, micro_size, chains, pipelined_ring}
use pluvio.Collective.Pipelined.Micro.{same_chunks, spread, chunk_at-gather}
use pluvio.Collective.Pipelined.Rows.{view, piece, length-view, chunk_at-view}
use pluvio.Collective.Pipelined.Apart.{chains-Shares}
use pluvio.Collective.Pipelined.Matched.{chains-IsMatched, alone-rounds_of}

module _ {T : Type 0} (n s w : ℕ) where
  -- A micro-chunk of a chunk is one of the buffer.
  inside :
      (c m : ℕ) (buf : List T)
      → m < w
      → slice (m * s) s (chunk_at (w * s) c buf) ≡ piece n s w m buf c
  inside c m buf h =
      slice-take (m * s) s (w * s) (drop (c * (w * s)) buf) (omega (arith, mul_mono (suc m) w s h))
      ∙ ap (take s) (drop-drop (m * s) (c * (w * s)) buf)
      ∙ ap (λ k. take s (drop k buf)) (spread c w m s)

  module _ (op : Op T) (init : ℕ → List T) (two : 2 ≤ n)
      (sized : (r : ℕ) → r < n → length (init r) ≡ n * (w * s)) where
    abbrev rows : ℕ → ℕ → List T
    rows m r = view n s w m (init r)

    length-reduced : (c d : ℕ) → c < n → length (reduced op n (w * s) init c d) ≡ w * s
    unfolding reduced own
    length-reduced c zero h = length-chunk_at (w * s) n c (init c) (sized c h) h
    length-reduced c (suc d) h =
        let r = (c + suc d) % n in
        length-overlay op.apply (chunk_at (w * s) c (init r)) (reduced op n (w * s) init c d)
        ∙ length-chunk_at (w * s) n c (init r) (sized r (mod-lt (c + suc d) (omega (arith, two)))) h

    -- Every micro-chunk is reduced as its chunk is.
    own-rows :
        (m r c : ℕ)
        → m < w
        → r < n
        → c < n
        → own op n s (rows m) r c ≡ slice (m * s) s (own op n (w * s) init r c)
    unfolding own
    own-rows m r c h a b =
        chunk_at-view n s w m (init r) h (sized r a ∙ grind arith) c b ∙ sym (inside c m (init r) h)

    reduced-rows :
        (m c d : ℕ)
        → m < w
        → c < n
        → reduced op n s (rows m) c d ≡ slice (m * s) s (reduced op n (w * s) init c d)
    unfolding reduced
    reduced-rows m c zero h b = own-rows m c c h b b
    reduced-rows m c (suc d) h b =
        let r = (c + suc d) % n in
        let mine = own op n (w * s) init r c in
        let rest = reduced op n (w * s) init c d in
        ap₂ (overlay op.apply) (own-rows m r c h (mod-lt (c + suc d) (omega (arith, two))) b)
          (reduced-rows m c d h b)
        ∙ sym (
            ap (take s) (drop-overlay op.apply (m * s) mine rest)
            ∙ take-overlay op.apply s (drop (m * s) mine) (drop (m * s) rest))

    -- A buffer whose micro-chunks are what the chains leave is what the plain ring leaves.
    assembled :
        (buf : List T)
        → length buf ≡ n * w * s
        → ((m : ℕ) → m < w → view n s w m buf ≡ gather s n (λ c. reduced op n s (rows m) c (n - 1)))
        → buf ≡ gather (w * s) n (λ c. reduced op n (w * s) init c (n - 1))
    assembled buf e h =
        let f : length buf ≡ n * (w * s) = e ∙ grind arith in
        of_chunks (w * s) n buf (λ c. reduced op n (w * s) init c (n - 1)) f
          (λ c l.
            same_chunks s w (chunk_at (w * s) c buf) (reduced op n (w * s) init c (n - 1))
              (length-chunk_at (w * s) n c buf f l) (length-reduced c (n - 1) l)
              (λ m k.
                inside c m buf k
                ∙ sym (chunk_at-view n s w m buf k e c l)
                ∙ ap (chunk_at s c) (h m k)
                ∙ chunk_at-gather s (λ c. reduced op n s (rows m) c (n - 1)) n c
                    (λ c l.
                      ap length (reduced-rows m c (n - 1) k l)
                      ∙ length-chunk_at s w m (reduced op n (w * s) init c (n - 1))
                          (length-reduced c (n - 1) l) k)
                    l
                ∙ reduced-rows m c (n - 1) k l))

-- The guards let pass what the ranks and the chains can share out.
pub pipelined-accepted :
    {T : Type 0} (op : Op T) (n len : ℕ) (config : PipelineConfig)
    (p : Pipeline (List T) (List T) RecvKey)
    → pipelined_ring op n len config ≡ ok (some p)
    → (2 ≤ n)
      × (0 < config.max_in_flight)
      × (config.micro_chunks < 2 ^ 8)
      × (n * (len / n) ≡ len)
      × (config.micro_chunks * micro_size (len / n) config.micro_chunks ≡ len / n)
      × (p ≡ chains op n (len / n) config)
unfolding pipelined_ring
pipelined-accepted op n len config p e = elim (Bool-cases (leb n 1)) [
  | inl y ↦ absurd (ground (arith, y, e))
  | inr y ↦ elim (Bool-cases (config.micro_chunks == 0 || config.max_in_flight == 0)) [
    | inl z ↦ absurd (ground (arith, y, z, e))
    | inr z ↦ elim (Bool-cases (ltb 255 config.micro_chunks)) [
      | inl u ↦ absurd (ground (arith, y, z, u, e))
      | inr u ↦ elim (Bool-cases (len % n == 0)) [
        | inr v ↦ absurd (ground (arith, y, z, u, v, e))
        | inl v ↦ elim (Bool-cases ((len / n) % config.micro_chunks == 0)) [
          | inr x ↦ absurd (ground (arith, y, z, u, v, x, e))
          | inl x ↦ (
            ground (arith, y),
            ground (arith, z),
            ground (arith, u),
            omega (arith, div-add-mod len n, (==_iff (len % n) 0).0 v),
            omega (
              arith,
              div-add-mod (len / n) config.micro_chunks,
              (==_iff ((len / n) % config.micro_chunks) 0).0 x,
            ),
            ground (arith, y, z, u, v, x, e),
          )
        ]
      ]
    ]
  ]
]

-- Where `n` ranks, at most 65536, call the pipelined ring with buffers of one length and one configuration
-- that the guards let pass, no order of the moves of the chains and of the loops that launch them, at most
-- `max_in_flight` at a time, leads them into a deadlock: each can be carried on until all ranks
-- return, and then all of them hold the same buffer, the one that the plain ring leaves, whatever the operator
-- is.
pub pipelined_ring-everywhere :
    {T : Type 0} (op : Op T) (n len : ℕ) (config : PipelineConfig)
    (p : Pipeline (List T) (List T) RecvKey) (init : ℕ → List T) (es : List Move)
    → n ≤ 2 ^ 16
    → ((r : ℕ) → r < n → length (init r) ≡ len)
    → pipelined_ring op n len config ≡ ok (some p)
    → Returns p init es (λ r. everywhere op n len init)
unfolding everywhere chains
pipelined_ring-everywhere op n len config p init es word sized e =
    let (two, limited, few, even, micro, q) = pipelined-accepted op n len config p e in
    let chunk = len / n in
    let w = config.micro_chunks in
    let s = micro_size chunk w in
    let whole : (r : ℕ) → r < n → length (init r) ≡ n * (w * s) =
      λ r a. sized r a ∙ sym even ∙ ap (λ k. n * k) (sym micro) in
    let whole' : (r : ℕ) → r < n → length (init r) ≡ n * w * s = λ r a. whole r a ∙ grind arith in
    let (more, f) =
      chains_complete (chains-Shares op n chunk config two few micro)
        (chains-IsMatched op n chunk config two few micro word) init limited whole' es in
    subst (λ p. Returns p init es (λ r. everywhere op n len init)) (sym q)
      (
        more,
        λ r a.
            (let (x, y, z) = f r a in
              (
                x,
                assembled n s w op init two whole
                      ((operate (chains op n chunk config) (es ++ more)
                          (fill (chains op n chunk config) init)).held
                        r)
                      y
                      (λ m h.
                        z m h
                        ∙ alone-rounds_of op n chunk config two few micro m
                            (λ r. view n s w m (init r)) ((n - 1) + (n - 1)) r
                        ∙ buffer-final op n s (λ r. view n s w m (init r)) two
                            (λ r a. length-view n s w m (init r) h (whole' r a)) r a)
                    ∙ ap (λ k. gather k n (λ c. reduced op n k init c (n - 1))) micro,
              )),
      )
