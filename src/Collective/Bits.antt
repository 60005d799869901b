-- ===== src/Collective/Bits.antt =====
-- The bits of a rank, as the trees and hypercubes of the collectives use them: `x >> k & 1`, `x | 1 << k`,
-- `x & !(1 << k)`, `x ^ 1 << k`, and the highest bit of a 64-bit word.
use native.Mathlib.Nat.{
  two-pow-succ, one-le-pow, pow-le-pow_right, div-eq_of_lt, div-eq_of_lt-le, add-div_right,
  div-eq-sub-div, div-div-eq-div-mul, pow-suc, lt-div-mul-add,
}
use pluvio.Base.{
  ℕ, zero, suc, ◌+◌, ◌-◌, ◌*◌, ◌/◌, ◌%◌, ◌^◌, max, ◌≤◌, ◌<◌, ◌≡◌, refl, sym, ap, subst, ◌∙◌, inl,
  inr, ◌⊎◌, Bool, true, false, ltb, leb, ◌==◌, ==_iff, if◌then◌else◌, Bool-cases, if_true, if_false,
  arith,
}

unfoldable pub bit : ℕ → ℕ → Bool
bit x k = x / 2 ^ k % 2 == 1

unfoldable pub set_bit : ℕ → ℕ → ℕ
set_bit x k = if bit x k then x else x + 2 ^ k

unfoldable pub clear_bit : ℕ → ℕ → ℕ
clear_bit x k = if bit x k then x - 2 ^ k else x

unfoldable pub flip_bit : ℕ → ℕ → ℕ
flip_bit x k = if bit x k then x - 2 ^ k else x + 2 ^ k

-- The highest bit among those up to `w`; 0 where there is none.
unfoldable pub highest_up_to : ℕ → ℕ → ℕ
highest_up_to zero x = 0
highest_up_to (suc w) x = let rest = highest_up_to w x in if leb (2 ^ suc w) x then suc w else rest

-- `(usize::BITS - 1) - x.leading_zeros()`, for `x > 0`.
unfoldable pub logical_highest_bit : ℕ → ℕ
logical_highest_bit x = highest_up_to 63 x

-- `usize::BITS - x.leading_zeros()`.
unfoldable pub bit_length : ℕ → ℕ
bit_length x = if x == 0 then 0 else suc (logical_highest_bit x)

pub pow_pos : (k : ℕ) → 1 ≤ 2 ^ k
pow_pos k = one-le-pow k 2 (omega arith)

pub pow_double : (k : ℕ) → 2 ^ suc k ≡ 2 ^ k + 2 ^ k
pow_double k = two-pow-succ k

-- The power of two below a number is known by its bounds.
pub pow_below : (h k x : ℕ) → 2 ^ h ≤ x → x < 2 ^ suc h → 2 ^ k ≤ x → x < 2 ^ suc k → h ≡ k
pow_below h k x a b c d = elim (Bool-cases (ltb h k)) [
  | inl y ↦ absurd (
      omega (
        arith,
        b,
        c,
        pow-le-pow_right {n = 2} (omega arith) {i = suc h} {j = k} (ground (arith, y)),
      ))
  | inr y ↦ elim (Bool-cases (ltb k h)) [
    | inl z ↦ absurd (
        omega (
          arith,
          a,
          d,
          pow-le-pow_right {n = 2} (omega arith) {i = suc k} {j = h} (ground (arith, z)),
        ))
    | inr z ↦ ground (arith, y, z)
  ]
]

pub highest_up_to-bounds :
    (w x : ℕ)
    → 1 ≤ x
    → x < 2 ^ suc w
    → (2 ^ highest_up_to w x ≤ x) × (x < 2 ^ suc (highest_up_to w x))
unfolding highest_up_to
highest_up_to-bounds zero x a b = (a, b)
highest_up_to-bounds (suc w) x a b = elim (Bool-cases (leb (2 ^ suc w) x)) [
  | inl y ↦ rw (y) (ground (arith, y), b)
  | inr y ↦ rw (y) (highest_up_to-bounds w x a (ground (arith, y)))
]

pub logical_highest_bit-bounds :
    (x : ℕ)
    → 1 ≤ x
    → x < 2 ^ 64
    → (2 ^ logical_highest_bit x ≤ x) × (x < 2 ^ suc (logical_highest_bit x))
unfolding logical_highest_bit
logical_highest_bit-bounds x a b = highest_up_to-bounds 63 x a b

-- Below its power of two a bit is clear, at and above, up to the next, it is set.
pub bit-low : (x k : ℕ) → x < 2 ^ k → bit x k ≡ false
unfolding bit
bit-low x k h = rw (div-eq_of_lt h) refl

pub bit-top : (x k : ℕ) → 2 ^ k ≤ x → x < 2 ^ suc k → bit x k ≡ true
unfolding bit
bit-top x k a b =
    rw (div-eq_of_lt-le {k = 1} (2 ^ k) {m = x} (omega arith) (omega (arith, b, pow_double k))) refl

pub set_bit_lem : (x k : ℕ) → bit x k ≡ false → set_bit x k ≡ x + 2 ^ k
unfolding set_bit
set_bit_lem x k e = if_false (bit x k) x (x + 2 ^ k) e

pub clear_bit_lem : (x k : ℕ) → bit x k ≡ true → clear_bit x k ≡ x - 2 ^ k
unfolding clear_bit
clear_bit_lem x k e = if_true (bit x k) (x - 2 ^ k) x e

block-suc : (x k : ℕ) → x / 2 ^ suc k ≡ x / 2 ^ k / 2
block-suc x k = ap (λ d. x / d) (pow-suc 2 k) ∙ sym (div-div-eq-div-mul x (2 ^ k) 2)

-- A set bit is worth its power of two.
bit-le : (x k : ℕ) → bit x k ≡ true → 2 ^ k ≤ x
bit-le x k h = elim (Bool-cases (ltb x (2 ^ k))) [
  | inl y ↦ absurd (ground (arith, h, bit-low x k (ground (arith, y))))
  | inr y ↦ ground (arith, y)
]

flip_bit-div : (x k : ℕ) → flip_bit x k / 2 ^ k ≡ (if bit x k then x / 2 ^ k - 1 else x / 2 ^ k + 1)
unfolding flip_bit
flip_bit-div x k = elim (Bool-cases (bit x k)) [
  | inl y ↦ rw (y) (omega (arith, div-eq-sub-div {m = 2 ^ k} {n = x} (pow_pos k) (bit-le x k y)))
  | inr y ↦ rw (y) (add-div_right x {k = 2 ^ k} (pow_pos k))
]

-- The blocks of size `2 ^ k` of a rank and of its partner are the two halves of one block.
pub halves :
    (x k : ℕ)
    → let b = x / 2 ^ suc k in
      ((x / 2 ^ k ≡ 2 * b) × (flip_bit x k / 2 ^ k ≡ 2 * b + 1))
      ⊎ ((x / 2 ^ k ≡ 2 * b + 1) × (flip_bit x k / 2 ^ k ≡ 2 * b))
unfolding bit
halves x k = elim (Bool-cases (bit x k)) [
  | inl y ↦
      inr (ground (arith, y, block-suc x k), ground (arith, y, block-suc x k, flip_bit-div x k))
  | inr y ↦
      inl (ground (arith, y, block-suc x k), ground (arith, y, block-suc x k, flip_bit-div x k))
]

flip_bit-block : (x k : ℕ) → flip_bit x k / 2 ^ suc k ≡ x / 2 ^ suc k
flip_bit-block x k = omega (arith, block-suc x k, block-suc (flip_bit x k) k, halves x k)

flip_bit-blocks : (x k j : ℕ) → k < j → flip_bit x k / 2 ^ j ≡ x / 2 ^ j
flip_bit-blocks x k zero h = elim h [ ]
flip_bit-blocks x k (suc j) h = elim (Bool-cases (k == j)) [
  | inl y ↦
      ap (λ i. flip_bit x k / 2 ^ suc i) (sym ((==_iff k j).0 y))
      ∙ flip_bit-block x k
      ∙ ap (λ i. x / 2 ^ suc i) ((==_iff k j).0 y)
  | inr y ↦ omega (
    arith,
    block-suc x j,
    block-suc (flip_bit x k) j,
    flip_bit-blocks x k j (ground (arith, y, h)),
  )
]

-- The partner of a rank stands in the same cube.
pub flip_bit-lt : (x k j : ℕ) → k < j → x < 2 ^ j → flip_bit x k < 2 ^ j
flip_bit-lt x k j a b =
    let e : flip_bit x k / 2 ^ j ≡ 0 = flip_bit-blocks x k j a ∙ div-eq_of_lt b in
    omega (
      arith,
      subst (λ q. flip_bit x k < q * 2 ^ j + 2 ^ j) e
          (lt-div-mul-add {a = flip_bit x k} {b = 2 ^ j} (pow_pos j)),
    )

bit-flip_bit : (x k : ℕ) → bit (flip_bit x k) k ≡ (if bit x k then false else true)
unfolding bit
bit-flip_bit x k = ground (arith, flip_bit-div x k)

flip_bit_set : (x k : ℕ) → bit x k ≡ true → flip_bit x k ≡ x - 2 ^ k
unfolding flip_bit
flip_bit_set x k e = if_true (bit x k) (x - 2 ^ k) (x + 2 ^ k) e

flip_bit_clear : (x k : ℕ) → bit x k ≡ false → flip_bit x k ≡ x + 2 ^ k
unfolding flip_bit
flip_bit_clear x k e = if_false (bit x k) (x - 2 ^ k) (x + 2 ^ k) e

pub flip_bit-flip_bit : (x k : ℕ) → flip_bit (flip_bit x k) k ≡ x
flip_bit-flip_bit x k = elim (Bool-cases (bit x k)) [
  | inl y ↦
      flip_bit_clear (flip_bit x k) k (bit-flip_bit x k ∙ if_true (bit x k) false true y)
      ∙ omega (arith, flip_bit_set x k y, bit-le x k y)
  | inr y ↦
      flip_bit_set (flip_bit x k) k (bit-flip_bit x k ∙ if_false (bit x k) false true y)
      ∙ omega (arith, flip_bit_clear x k y)
]

-- Which bit is the highest, by the power of two above.
pub highest_at :
    (k x : ℕ) → 2 ^ k ≤ x → x < 2 ^ 64 → (k == logical_highest_bit x) ≡ ltb x (2 ^ suc k)
highest_at k x a b =
    let (c, d) = logical_highest_bit-bounds x (omega (arith, pow_pos k)) b in
    elim (Bool-cases (ltb x (2 ^ suc k))) [
      | inl y ↦
          (==_iff k (logical_highest_bit x)).1
            (pow_below k (logical_highest_bit x) x a (ground (arith, y)) c d)
          ∙ sym y
      | inr y ↦ elim (Bool-cases (k == logical_highest_bit x)) [
        | inl z ↦ absurd (
            ground (
              arith,
              y,
              subst (λ i. x < 2 ^ suc i) (sym ((==_iff k (logical_highest_bit x)).0 z)) d,
            ))
        | inr z ↦ z ∙ sym y
      ]
    ]

-- A number is below the power of two of its length.
pub bit_length-lt : (x k : ℕ) → x < 2 ^ 64 → max (bit_length x) 1 ≤ k → x < 2 ^ k
unfolding bit_length
bit_length-lt x k b h = elim (Bool-cases (x == 0)) [
  | inl y ↦ ground (arith, y, pow_pos k)
  | inr y ↦
      let (c, d) = logical_highest_bit-bounds x (ground (arith, y)) b in
      omega (
        arith,
        d,
        pow-le-pow_right {n = 2} (omega arith) {i = suc (logical_highest_bit x)} {j = k}
            (ground (arith, h, y)),
      )
]

highest_up_to-le : (w x : ℕ) → highest_up_to w x ≤ w
unfolding highest_up_to
highest_up_to-le zero x = omega arith
highest_up_to-le (suc w) x = ground (arith, highest_up_to-le w x)

pub bit_length-le : (x : ℕ) → bit_length x ≤ 64
unfolding bit_length logical_highest_bit
bit_length-le x = ground (arith, highest_up_to-le 63 x)

pub logical_highest_bit-le : (x : ℕ) → logical_highest_bit x ≤ 63
unfolding logical_highest_bit
logical_highest_bit-le x = highest_up_to-le 63 x
