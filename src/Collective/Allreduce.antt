-- ===== src/Collective/Allreduce.antt =====
-- What an allreduce is to compute, the buffers of all ranks reduced in the order of the ranks, and that the
-- algorithms of pluvio_collective/src/ucx_backend compute it with an operator that is associative and
-- commutative.
use native.Mathlib.Nat.{mod-eq_of_lt, mod-lt, add-mod_right}
use pluvio.Base.{
  ℕ, zero, suc, ◌+◌, ◌-◌, ◌*◌, ◌/◌, ◌%◌, ◌^◌, ◌≤◌, ◌<◌, ◌≡◌, sym, ap, ap₂, subst, ◌∙◌, inl, inr,
  some, List, length, leb, ok, Bool-cases, arith,
}
use pluvio.AmRouter.Header.{RecvKey}
use pluvio.Collective.Bits.{logical_highest_bit, pow_pos, pow_double}
use pluvio.Collective.Ops.{Op, overlay}
use pluvio.Collective.Spans.{
  span, slice-span, length-span, span-ext, span-span, overlay_comm, span-around,
}
use pluvio.Collective.Network.{Protocol, sync, Ends, Ends-with}
use pluvio.Collective.Completion.{run-completes}
use pluvio.Collective.Ring.Chunks.{gather, of_chunks, chunk_at, length-chunk_at}
use pluvio.Collective.Ring.Buffers.{own, reduced}
use pluvio.Collective.Ring.Allreduce.{everywhere, accepted, ring_allreduce-everywhere}
use pluvio.Collective.Ring.{ring_allreduce}
use pluvio.Collective.Lanes.{Pipeline, Move, Returns}
use pluvio.Collective.Pipelined.{PipelineConfig, pipelined_ring}
use pluvio.Collective.Pipelined.Allreduce.{pipelined-accepted, pipelined_ring-everywhere}
use pluvio.Collective.Doubling.{is_power_of_two, cube, recursive_doubling}
use pluvio.Collective.Doubling.Cube.{paired, power, rounds_lem, cube-IsMatched, all_paired}

left_half : (b p : ℕ) → 2 * b * p ≡ b * (p + p)
left_half b p = grind arith

right_half : (b p : ℕ) → (2 * b + 1) * p ≡ b * (p + p) + p
right_half b p = grind arith

module _ {T : Type 0} (op : Op T) where
  -- All ranks' buffers, reduced one after another.
  unfoldable pub total : (n : ℕ) → (ℕ → List T) → List T
  total n init = span op.apply init 0 (n - 1)

  module _ (assoc : (a b c : T) → op.apply (op.apply a b) c ≡ op.apply a (op.apply b c))
      (comm : (a b : T) → op.apply a b ≡ op.apply b a) (n : ℕ) (two : 2 ≤ n)
      (init : ℕ → List T) where
    module _ (chunk : ℕ) (sized : (r : ℕ) → r < n → length (init r) ≡ n * chunk) where
      -- The part of a chunk that the rank of a place along the ring has.
      abbrev place : ℕ → ℕ → List T
      place c i = own op n chunk init (i % n) c

      length-place : (c i : ℕ) → c < n → length (place c i) ≡ chunk
      unfolding own
      length-place c i h =
          let b = mod-lt i (omega (arith, two)) in
          length-chunk_at chunk n c (init (i % n)) (sized (i % n) b) h

      -- Along the ring.
      reduced-span : (c d : ℕ) → c < n → reduced op n chunk init c d ≡ span op.apply (place c) c d
      unfolding reduced span
      reduced-span c zero h = ap (λ r. own op n chunk init r c) (sym (mod-eq_of_lt h))
      reduced-span c (suc d) h =
          ap (overlay op.apply (place c (c + suc d))) (reduced-span c d h)
          ∙ overlay_comm op.apply assoc comm (place c (c + suc d)) (span op.apply (place c) c d) (
              length-place c (c + suc d) h
              ∙ sym (length-span op.apply (place c) chunk c d (λ i l. length-place c i h)))

      reduced-total :
          (c : ℕ) → c < n → reduced op n chunk init c (n - 1) ≡ chunk_at chunk c (total n init)
      unfolding total own
      reduced-total c h =
          reduced-span c (n - 1) h
          ∙ span-around op.apply assoc comm (place c) chunk n c (omega (arith, two))
              (λ i. length-place c i h) (λ i. ap (λ r. own op n chunk init r c) (add-mod_right i n))
          ∙ span-ext op.apply (place c) (λ i. chunk_at chunk c (init i)) 0 (n - 1)
              (λ i l. ap (λ r. chunk_at chunk c (init r)) (mod-eq_of_lt (omega (arith, l, two))))
          ∙ sym (slice-span op.apply (c * chunk) chunk init 0 (n - 1))

      pub gather-total : gather chunk n (λ c. reduced op n chunk init c (n - 1)) ≡ total n init
      unfolding total
      gather-total = sym (
          of_chunks chunk n (total n init) (λ c. reduced op n chunk init c (n - 1))
            (length-span op.apply init (n * chunk) 0 (n - 1)
              (λ i l. sized i (omega (arith, l, two))))
            (λ c h. sym (reduced-total c h)))

    module _ (len : ℕ) (sized : (r : ℕ) → r < n → length (init r) ≡ len) where
      -- The blocks of the cube are ranges.
      paired-span :
          (k b : ℕ)
          → b * 2 ^ k + 2 ^ k ≤ n
          → paired op init k b ≡ span op.apply init (b * 2 ^ k) (2 ^ k - 1)
      unfolding paired span
      paired-span zero b h = ap init {x = b} {y = b * 1} (omega arith)
      paired-span (suc k) b h =
          let p = 2 ^ k in
          let d = p - 1 in
          let e = pow_double k in
          let l = left_half b p in
          let r = right_half b p in
          let lo : 2 * b * p ≡ b * 2 ^ suc k = l ∙ ap (λ q. b * q) (sym e) in
          let hi : (2 * b + 1) * p ≡ b * 2 ^ suc k + suc d =
            r ∙ omega (arith, ap (λ q. b * q) e, pow_pos k) in
          ap₂ (overlay op.apply)
            (paired-span k (2 * b) (omega (arith, h, lo, e)) ∙ ap (λ i. span op.apply init i d) lo)
            (paired-span k (2 * b + 1) (omega (arith, h, hi, e, pow_pos k))
              ∙ ap (λ i. span op.apply init i d) hi)
          ∙ span-span op.apply assoc init len (b * 2 ^ suc k) d d
              (λ i c. sized i (omega (arith, c, h, e, pow_pos k)))
          ∙ ap (span op.apply init (b * 2 ^ suc k)) {x = d + suc d} {y = 2 ^ suc k - 1}
              (omega (arith, e, pow_pos k))

      pub paired-total : (m : ℕ) → n ≡ 2 ^ m → paired op init m 0 ≡ total n init
      unfolding total
      paired-total m e =
          paired-span m 0 (omega (arith, e))
          ∙ ap₂ (span op.apply init) {x = 0 * 2 ^ m} {y = 0} (omega arith) (omega (arith, e))

-- The ring computes it.
pub ring_allreduce-total :
    {T : Type 0} (op : Op T) (n len : ℕ) (p : Protocol (List T) (List T) ℕ) (init : ℕ → List T)
    (rs : List ℕ)
    → ((a b c : T) → op.apply (op.apply a b) c ≡ op.apply a (op.apply b c))
    → ((a b : T) → op.apply a b ≡ op.apply b a)
    → n ≤ 2 ^ 16
    → ((r : ℕ) → r < n → length (init r) ≡ len)
    → ring_allreduce op n len ≡ ok (some p)
    → Ends p init rs (λ r. total op n init)
unfolding everywhere
ring_allreduce-total op n len p init rs assoc comm word sized q =
    let (two, even, o) = accepted op n len p q in
    Ends-with p init rs (λ r. everywhere op n len init) (λ r. total op n init)
      (ring_allreduce-everywhere op n len p init rs word sized q)
      (λ r l. gather-total op assoc comm n two init (len / n) (λ i b. sized i b ∙ sym even))

-- So does the ring in micro-chunks.
pub pipelined_ring-total :
    {T : Type 0} (op : Op T) (n len : ℕ) (config : PipelineConfig)
    (p : Pipeline (List T) (List T) RecvKey) (init : ℕ → List T) (es : List Move)
    → ((a b c : T) → op.apply (op.apply a b) c ≡ op.apply a (op.apply b c))
    → ((a b : T) → op.apply a b ≡ op.apply b a)
    → n ≤ 2 ^ 16
    → ((r : ℕ) → r < n → length (init r) ≡ len)
    → pipelined_ring op n len config ≡ ok (some p)
    → Returns p init es (λ r. total op n init)
unfolding everywhere
pipelined_ring-total op n len config p init es assoc comm word sized q =
    let (two, _, _, even, _, _) = pipelined-accepted op n len config p q in
    let (more, h) = pipelined_ring-everywhere op n len config p init es word sized q in
    let e = gather-total op assoc comm n two init (len / n) (λ i b. sized i b ∙ sym even) in
    (more, λ r a. (let (x, y) = h r a in (x, y ∙ e)))

-- Where ranks, at most 65536, call `recursive_doubling` with buffers of one length, and an operator that is
-- associative and commutative, no schedule leads them into a deadlock: each can be carried on until all
-- ranks have done their rounds, and then all of them hold all ranks' buffers reduced one after another.
-- That is so for both algorithms, exchanges in a hypercube and, where the number of ranks is no power of
-- two, the ring.
pub recursive_doubling-total :
    {T : Type 0} (op : Op T) (n len : ℕ) (p : Protocol (List T) (List T) ℕ) (init : ℕ → List T)
    (rs : List ℕ)
    → ((a b c : T) → op.apply (op.apply a b) c ≡ op.apply a (op.apply b c))
    → ((a b : T) → op.apply a b ≡ op.apply b a)
    → n ≤ 2 ^ 16
    → ((r : ℕ) → r < n → length (init r) ≡ len)
    → recursive_doubling op n len ≡ ok (some p)
    → Ends p init rs (λ r. total op n init)
unfolding recursive_doubling cube
recursive_doubling-total op n len p init rs assoc comm word sized e = elim (Bool-cases (leb n 1)) [
  | inl y ↦ absurd (ground (arith, y, e))
  | inr y ↦
      let two : 2 ≤ n = ground (arith, y) in
      elim (Bool-cases (is_power_of_two n)) [
        | inl z ↦
            let q : p ≡ cube op n = ground (arith, y, z, e) in
            let c = cube op n in
            let m = logical_highest_bit n in
            subst (λ p. Ends p init rs (λ r. total op n init)) (sym q)
              (Ends-with c init rs (sync c init c.rounds) (λ r. total op n init)
                (run-completes c (cube-IsMatched op n z word) init rs)
                (λ r l.
                  ap (λ k. sync c init k r) (rounds_lem n z)
                  ∙ all_paired op comm init m n len (power n z) sized r l
                  ∙ paired-total op assoc comm n two init len sized m (power n z)))
        | inr z ↦
            ring_allreduce-total op n len p init rs assoc comm word sized (ground (arith, y, z, e))
      ]
]
