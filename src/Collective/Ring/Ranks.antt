-- ===== src/Collective/Ring/Ranks.antt =====
-- Ranks in a ring: the arithmetic modulo the number of ranks, without division.
use native.Mathlib.Decide.{dec_lt}
use pluvio.Base.{
  ℕ, suc, ◌+◌, ◌-◌, ◌%◌, ◌≤◌, ◌<◌, ◌≡◌, refl, sym, ◌∙◌, ◌==◌, if◌then◌else◌, Bool-cases, inl, inr,
  arith,
}
use pluvio.Collective.Ranks.{once, twice, dist}
use pluvio.Collective.Ring.{next, prev, phase, step, send_idx, recv_idx}

pub prev_in : (n r : ℕ) → r < n → prev n r < n
prev_in n r h = ground (arith, once n (r + n - 1) (omega arith))

pub next-prev : (n r : ℕ) → 2 ≤ n → r < n → next n (prev n r) ≡ r
next-prev n r g h =
    ground (
      arith,
      once n (r + n - 1) (omega arith),
      once n (prev n r + 1) (omega (arith, prev_in n r h)),
    )

-- The rank before is one nearer, and a rank is farthest from the one behind it.
pub dist-prev :
    (n r c : ℕ)
    → r < n
    → c < n
    → dist n (prev n r) c ≡ (if dist n r c == 0 then n - 1 else dist n r c - 1)
dist-prev n r c h g = ground (arith, once n (r + n - 1) (omega arith))

pub dist_inj : (n r c d : ℕ) → r < n → c < n → d < n → dist n r c ≡ dist n r d → c ≡ d
dist_inj n r c d h g f e = ground arith

-- A rank is found by how far another stands behind it.
pub found : (n r c i d : ℕ) → r < n → c < n → i < n → dist n r i ≡ d → (c == i) ≡ (dist n r c == d)
found n r c i d h g f e = elim (Bool-cases (c == i)) [
  | inl y ↦ ground (arith, y, e)
  | inr y ↦ elim (Bool-cases (dist n r c == d)) [
    | inl z ↦ absurd (ground (arith, y, dist_inj n r c i h g f (ground (arith, z, e))))
    | inr z ↦ y ∙ sym z
  ]
]

-- The rounds: the steps of the first phase, then those of the second.
pub early : (n k : ℕ) → k < n - 1 → (phase n k ≡ 0) × (step n k ≡ k)
unfolding phase step
early n k h = (ground arith, ground arith)

pub late : (n k : ℕ) → n - 1 ≤ k → (phase n k ≡ 1) × (step n k ≡ k - (n - 1))
unfolding phase step
late n k h = (ground arith, ground arith)

module _ (n k r : ℕ) (h : r < n) where
  pub recv_early : k < n - 1 → recv_idx n k r ≡ (r + n - k - 1) % n
  unfolding recv_idx
  recv_early a = (let (p, q) = early n k a in rw (p, q) refl)

  pub recv_late : n - 1 ≤ k → recv_idx n k r ≡ (r + n - (k - (n - 1))) % n
  unfolding recv_idx
  recv_late a = (let (p, q) = late n k a in rw (p, q) refl)

  send_early : k < n - 1 → send_idx n k r ≡ (r + n - k) % n
  unfolding send_idx
  send_early a = (let (p, q) = early n k a in rw (p, q) refl)

  send_late : n - 1 ≤ k → send_idx n k r ≡ (r + n - (k - (n - 1)) + 1) % n
  unfolding send_idx
  send_late a = (let (p, q) = late n k a in rw (p, q) refl)

  -- How far the chunk that arrives has come.
  pub dist-early : k < n - 1 → (recv_idx n k r < n) × (dist n r (recv_idx n k r) ≡ suc k)
  dist-early a =
      let e = recv_early a in
      let o = once n (r + n - k - 1) (omega arith) in (ground (arith, e, o), ground (arith, e, o))

  pub dist-late :
      n - 1 ≤ k
      → k < (n - 1) + (n - 1)
      → (recv_idx n k r < n) × (dist n r (recv_idx n k r) ≡ k - (n - 1))
  dist-late a b =
      let e = recv_late a in
      let o = once n (r + n - (k - (n - 1))) (omega arith) in
      (ground (arith, e, o), ground (arith, e, o))

-- What the rank before sends is what is received.
pub send-recv :
    (n k r : ℕ) → r < n → k < (n - 1) + (n - 1) → send_idx n k (prev n r) ≡ recv_idx n k r
send-recv n k r h a = elim (dec_lt k (n - 1)) [
  | yes l ↦
      let b = prev_in n r h in
      let e = send_early n k (prev n r) b l in
      let f = recv_early n k r h l in
      ground (
        arith,
        e,
        f,
        once n (r + n - 1) (omega arith),
        once n (r + n - k - 1) (omega arith),
        once n (prev n r + n - k) (omega (arith, b)),
      )
  | no l ↦
      let b = prev_in n r h in
      let e = send_late n k (prev n r) b (omega arith) in
      let f = recv_late n k r h (omega arith) in
      let i = k - (n - 1) in
      ground (
        arith,
        e,
        f,
        once n (r + n - 1) (omega arith),
        once n (r + n - i) (omega arith),
        twice n (prev n r + n - i + 1) (omega (arith, b)),
      )
]
