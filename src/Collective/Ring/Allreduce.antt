-- ===== src/Collective/Ring/Allreduce.antt =====
-- What the ring allreduce leaves on every rank.
use pluvio.Base.{
  ℕ, ◌-◌, ◌*◌, ◌/◌, ◌%◌, ◌^◌, ◌≤◌, ◌<◌, ◌≡◌, sym, subst, ◌∙◌, inl, inr, some, List, length, leb,
  ◌==◌, ==_iff, ok, Bool-cases, arith,
}
use native.Mathlib.Nat.{div-add-mod}
use pluvio.Collective.Ops.{Op}
use pluvio.Collective.Network.{Protocol, sync, Ends, Ends-with}
use pluvio.Collective.Completion.{run-completes}
use pluvio.Collective.Ring.{ring_allreduce, rounds_of}
use pluvio.Collective.Ring.Matched.{rounds_of-IsMatched}
use pluvio.Collective.Ring.Chunks.{gather}
use pluvio.Collective.Ring.Buffers.{reduced}
use pluvio.Collective.Ring.Phases.{buffer-final}

-- What a buffer is to hold: of every chunk, the reduction along the ring from the rank of its index.
unfoldable pub everywhere : {T : Type 0} → Op T → (n len : ℕ) → (ℕ → List T) → List T
everywhere op n len init = gather (len / n) n (λ c. reduced op n (len / n) init c (n - 1))

-- The guards let pass what the ranks can share out.
pub accepted :
    {T : Type 0} (op : Op T) (n len : ℕ) (p : Protocol (List T) (List T) ℕ)
    → ring_allreduce op n len ≡ ok (some p)
    → (2 ≤ n) × (n * (len / n) ≡ len) × (p ≡ rounds_of op n (len / n))
unfolding ring_allreduce
accepted op n len p e = elim (Bool-cases (leb n 1)) [
  | inl y ↦ absurd (ground (arith, y, e))
  | inr y ↦ elim (Bool-cases (len % n == 0)) [
    | inr z ↦ absurd (ground (arith, y, z, e))
    | inl z ↦ (
      ground (arith, y),
      omega (arith, div-add-mod len n, (==_iff (len % n) 0).0 z),
      ground (arith, y, z, e),
    )
  ]
]

-- Where `n` ranks, at most 65536, call the allreduce with buffers of one length that `n` divides, no
-- schedule leads them into a deadlock: each can be carried on until all ranks have done their rounds, and
-- then all of them hold the same buffer, whose every chunk is reduced from all ranks' along the ring.
pub ring_allreduce-everywhere :
    {T : Type 0} (op : Op T) (n len : ℕ) (p : Protocol (List T) (List T) ℕ) (init : ℕ → List T)
    (rs : List ℕ)
    → n ≤ 2 ^ 16
    → ((r : ℕ) → r < n → length (init r) ≡ len)
    → ring_allreduce op n len ≡ ok (some p)
    → Ends p init rs (λ r. everywhere op n len init)
unfolding rounds_of everywhere
ring_allreduce-everywhere op n len p init rs h sized e =
    let (two, even, q) = accepted op n len p e in
    let chunk = len / n in
    let ring = rounds_of op n chunk in
    subst (λ p. Ends p init rs (λ r. everywhere op n len init)) (sym q)
      (Ends-with ring init rs (sync ring init ring.rounds) (λ r. everywhere op n len init)
        (run-completes ring (rounds_of-IsMatched op n chunk two h) init rs)
        (buffer-final op n chunk init two (λ i b. sized i b ∙ sym even)))
