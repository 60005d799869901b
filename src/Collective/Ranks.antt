-- ===== src/Collective/Ranks.antt =====
-- The arithmetic of ranks modulo their number, without division.
use native.Mathlib.Nat.{mod-eq_of_lt, mod-eq-sub-mod}
use native.Mathlib.Decide.{dec_lt}
use pluvio.Base.{ℕ, ◌+◌, ◌-◌, ◌%◌, ◌<◌, ◌≡◌, ltb, leb, if◌then◌else◌, arith}

-- One turn around the ring.
pub once : (n a : ℕ) → a < n + n → a % n ≡ (if ltb a n then a else a - n)
once n a h = elim (dec_lt a n) [
  | yes p ↦ ground (arith, mod-eq_of_lt p)
  | no p ↦ ground (
    arith,
    mod-eq-sub-mod {n = a} {m = n} (omega arith),
    mod-eq_of_lt {n = a - n} {m = n} (omega arith),
  )
]

-- Two turns.
pub twice :
    (n a : ℕ)
    → a < n + n + n
    → a % n ≡ (if ltb a n then a else (if ltb a (n + n) then a - n else a - n - n))
twice n a h = elim (dec_lt a (n + n)) [
  | yes p ↦ ground (arith, once n a p)
  | no p ↦
      ground (arith, mod-eq-sub-mod {n = a} {m = n} (omega arith), once n (a - n) (omega arith))
]

-- How far a rank stands behind another in the ring.
abbrev pub dist : ℕ → ℕ → ℕ → ℕ
dist n r c = if leb c r then r - c else r + n - c

pub along : (n r c : ℕ) → r < n → c < n → (c + dist n r c) % n ≡ r
along n r c h g = ground (arith, once n (c + dist n r c) (ground arith))

pub dist-along : (n r c k : ℕ) → c < n → k < n → r ≡ (c + k) % n → dist n r c ≡ k
dist-along n r c k h g e = ground (arith, e, once n (c + k) (omega (arith, h, g)))
