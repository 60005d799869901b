-- ===== src/Spsc/Shape.antt =====
-- The representation invariant of `Inner`, and what its queries say of the values that it holds.
use Prim.Native.Nat.{◌%◌}
use native.Mathlib.Nat.{add-zero, mod-lt, mod-eq_of_lt, mod-eq-sub-mod}
use native.Mathlib.Decide.{dec_lt}
use pluvio.Base.{
  ℕ, ◌+◌, ◌-◌, ◌≤◌, ◌<◌, ◌≡◌, refl, sym, Bool, List, [], length, ◌==◌, if◌then◌else◌, arith, done,
  ltb, none, length-replicate,
}
use pluvio.Spsc.{
  Inner, usize_max, inner_magic_start, inner_magic_end, is_empty, is_full, cap, len, check_magic,
  fresh,
}
use pluvio.Spsc.Window.{Window, inc_mod_lem}

-- `Inner` holds the values `xs`, oldest first, in the slots from `tail` to `head`; the canaries are
-- intact, one slot at least is free, and the buffer's length is a `usize` that `buf_len` mirrors.
pub record Holds {ℓ} {T : Type ℓ} (r : Inner T) (xs : List T) : Type ℓ where
  pub start_intact : r.magic_start ≡ inner_magic_start
  pub end_intact : r.magic_end ≡ inner_magic_end
  pub mirrored : r.buf_len ≡ length r.buf
  pub sentinel : 2 ≤ length r.buf
  pub word : length r.buf ≤ usize_max
  pub tail_in : r.tail < length r.buf
  pub head_at : r.head ≡ (r.tail + length xs) % length r.buf
  pub room : length xs < length r.buf
  pub window : Window r.buf r.tail xs

-- Where `n` steps from `t` end, counted by `len`.
round_cases :
    (m t n : ℕ) → t < m → n < m → (t + n) % m ≡ (if ltb (t + n) m then t + n else t + n - m)
round_cases m t n ht hn = elim (dec_lt (t + n) m) [
  | yes p ↦ ground (arith, mod-eq_of_lt p)
  | no p ↦ ground (
    arith,
    mod-eq-sub-mod {n = t + n} {m = m} (omega arith),
    mod-eq_of_lt {n = t + n - m} {m = m} (omega arith),
  )
]

module _ {ℓ} {T : Type ℓ} where
  pub head_in : (r : Inner T) (xs : List T) → Holds r xs → r.head < length r.buf
  head_in r xs v = rw v.head_at (mod-lt (r.tail + length xs) (omega arith))

  -- `is_empty` exactly when nothing is held.
  pub is_empty_lem : (r : Inner T) (xs : List T) → Holds r xs → is_empty r ≡ (length xs == 0)
  unfolding is_empty
  is_empty_lem r xs v =
      ground (arith, v.head_at, round_cases (length r.buf) r.tail (length xs) v.tail_in v.room)

  -- `is_full` exactly when all slots but the sentinel are in use.
  pub is_full_lem : (r : Inner T) (xs : List T) → Holds r xs → is_full r ≡ (length xs == cap r)
  unfolding is_full cap
  is_full_lem r xs v = ground (
    arith,
    v.head_at,
    round_cases (length r.buf) r.tail (length xs) v.tail_in v.room,
    inc_mod_lem (length r.buf) r.head (head_in r xs v),
    round_cases (length r.buf) r.head 1 (head_in r xs v) v.sentinel,
  )

  -- `len` counts what is held.
  pub len_lem : (r : Inner T) (xs : List T) → Holds r xs → len r ≡ length xs
  unfolding len
  len_lem r xs v = ground (
    arith,
    v.head_at,
    round_cases (length r.buf) r.tail (length xs) v.tail_in v.room,
    mod-eq_of_lt v.tail_in,
    mod-eq_of_lt (head_in r xs v),
  )

  pub check_magic_lem : (r : Inner T) (xs : List T) → Holds r xs → check_magic r ≡ done r
  unfolding check_magic
  check_magic_lem r xs v = ground arith

  pub fresh-Holds : (n : ℕ) (b : Bool) → 0 < n → n < usize_max → Holds (fresh {T = T} n b) []
  unfolding fresh
  fresh-Holds n b h k = record {
    start_intact = refl;
    end_intact = refl;
    mirrored = sym (length-replicate (n + 1) none);
    sentinel = rw length-replicate (omega arith);
    word = rw length-replicate (omega arith);
    tail_in = rw length-replicate (omega arith);
    head_at = rw (length-replicate, add-zero, mod-eq_of_lt {n = 0} {m = n + 1} (omega arith));
    room = rw length-replicate (omega arith);
    window = tt;
  }
