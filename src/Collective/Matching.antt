-- ===== src/Collective/Matching.antt =====
-- The tags of the messages of ring.rs and recursive_doubling.rs in pluvio_collective/src/ucx_backend.
use pluvio.Base.{
  ℕ, ◌^◌, ◌≤◌, ◌<◌, ◌≡◌, ◌⊎◌, true, inl, inr, sym, subst, some, List, leb, ok, Bool-cases, arith,
}
use pluvio.Collective.Bits.{logical_highest_bit-le}
use pluvio.Collective.Ops.{Op}
use pluvio.Collective.Network.{Protocol}
use pluvio.Collective.Ring.{rounds_of, ring_allreduce}
use pluvio.Collective.Ring.Allreduce.{accepted}
use pluvio.Collective.Ring.Matched.{tag_inj}
use pluvio.Collective.Doubling.{is_power_of_two, cube, recursive_doubling}
use pluvio.Collective.Doubling.Cube.{tag_rd_inj, rounds_lem}

-- One rank sends one message under a tag, in one round.
abbrev pub TagsDiffer : {T : Type 0} → Protocol (List T) (List T) ℕ → Type 0
TagsDiffer p =
    (j k r s : ℕ)
    → j < p.rounds
    → k < p.rounds
    → r < p.size
    → s < p.size
    → p.key j r ≡ p.key k s
    → (j ≡ k) × (r ≡ s)

ring-TagsDiffer :
    {T : Type 0} (op : Op T) (n len : ℕ) (p : Protocol (List T) (List T) ℕ)
    → n ≤ 2 ^ 16
    → ring_allreduce op n len ≡ ok (some p)
    → TagsDiffer p
unfolding rounds_of
ring-TagsDiffer op n len p h e =
    let (two, even, o) = accepted op n len p e in
    subst TagsDiffer (sym o) (λ j k r s. tag_inj n j k r s h)

cube-TagsDiffer :
    {T : Type 0} (op : Op T) (n : ℕ)
    → is_power_of_two n ≡ true
    → n ≤ 2 ^ 16
    → TagsDiffer (cube op n)
unfolding cube
cube-TagsDiffer op n e h = λ j k r s a b c d f.
    let m = logical_highest_bit-le n in
    let q = rounds_lem n e in
    tag_rd_inj j k r s (omega (arith, a, q, m)) (omega (arith, b, q, m)) (omega (arith, c, h))
      (omega (arith, d, h)) f

-- Two messages of a ring allreduce or of a recursive doubling, on either of its two ways, among up to 65536
-- ranks have one tag only where they are one rank's in one round.
pub tags_differ :
    {T : Type 0} (op : Op T) (n len : ℕ) (p : Protocol (List T) (List T) ℕ) (j k r s : ℕ)
    → n ≤ 2 ^ 16
    → (ring_allreduce op n len ≡ ok (some p)) ⊎ (recursive_doubling op n len ≡ ok (some p))
    → j < p.rounds
    → k < p.rounds
    → r < p.size
    → s < p.size
    → p.key j r ≡ p.key k s
    → (j ≡ k) × (r ≡ s)
unfolding recursive_doubling
tags_differ op n len p j k r s h (inl e) = ring-TagsDiffer op n len p h e j k r s
tags_differ op n len p j k r s h (inr e) = elim (Bool-cases (leb n 1)) [
  | inl y ↦ absurd (ground (arith, y, e))
  | inr y ↦ elim (Bool-cases (is_power_of_two n)) [
    | inl z ↦
        let q : p ≡ cube op n = ground (arith, y, z, e) in
        subst TagsDiffer (sym q) (cube-TagsDiffer op n z h) j k r s
    | inr z ↦ ring-TagsDiffer op n len p h (ground (arith, y, z, e)) j k r s
  ]
]
