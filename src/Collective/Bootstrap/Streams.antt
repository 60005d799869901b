-- ===== src/Collective/Bootstrap/Streams.antt =====
-- What is written to a connection is what is read from it.
use pluvio.Base.{
  ℕ, zero, suc, ◌+◌, ◌^◌, ◌<◌, ◌≡◌, refl, ap, ap₂, ◌∙◌, true, List, [], ◌∷◌, ◌++◌, length, drop,
  leb, append_assoc, length-append, take-whole, drop-whole, arith,
}
use pluvio.Collective.Bootstrap.{
  returned, Bytes, to_le_bytes, from_le_bytes, read_exact, write_u32_len_prefixed, and_then,
  read_u32, read_u32_len_prefixed, write_all, read_addresses, listed,
}

from_le_bytes-to_le_bytes : (n : ℕ) → n < 2 ^ 32 → from_le_bytes (to_le_bytes n) ≡ n
unfolding from_le_bytes to_le_bytes
from_le_bytes-to_le_bytes n h = omega (arith, h)

read_whole : (xs ys : Bytes) → read_exact (length xs) (xs ++ ys) ≡ returned (xs, ys)
unfolding read_exact
read_whole xs ys =
    let e : leb (length xs) (length (xs ++ ys)) ≡ true = ground (arith, length-append xs ys) in
    rw (e) (
      ap₂ (λ a b. returned (a, b)) (take-whole xs ys)
        (ap (λ k. drop k (xs ++ ys)) {x = length xs} {y = length xs + 0} (omega arith)
          ∙ drop-whole 0 xs ys))

length-to_le_bytes : (n : ℕ) → 4 ≡ length (to_le_bytes n)
unfolding to_le_bytes
length-to_le_bytes n = refl

pub read_u32-written :
    (n : ℕ) (ys : Bytes) → n < 2 ^ 32 → read_u32 (to_le_bytes n ++ ys) ≡ returned (n, ys)
unfolding read_u32
read_u32-written n ys h =
    ap (λ o. and_then o (λ (p : Bytes × Bytes). returned (from_le_bytes p.0, p.1)))
      (ap (λ k. read_exact k (to_le_bytes n ++ ys)) (length-to_le_bytes n)
        ∙ read_whole (to_le_bytes n) ys)
    ∙ ap (λ k. returned (k, ys)) (from_le_bytes-to_le_bytes n h)

-- A message of less than 4 GiB comes back, and what follows it is left.
pub read_u32_len_prefixed-write :
    (buf ys : Bytes)
    → length buf < 2 ^ 32
    → read_u32_len_prefixed (write_u32_len_prefixed buf ++ ys) ≡ returned (buf, ys)
unfolding read_u32_len_prefixed write_u32_len_prefixed
read_u32_len_prefixed-write buf ys h =
    ap (λ s. and_then (read_u32 s) (λ (p : ℕ × Bytes). read_exact p.0 p.1))
      (append_assoc (to_le_bytes (length buf)) buf ys)
    ∙ ap (λ o. and_then o (λ (p : ℕ × Bytes). read_exact p.0 p.1))
        (read_u32-written (length buf) (buf ++ ys) h)
    ∙ read_whole buf ys

-- All of a list are short.
unfoldable pub AllShort : List Bytes → Type 0
AllShort [] = Unit
AllShort (a ∷ rest) = (length a < 2 ^ 32) × AllShort rest

pub read_addresses-write :
    (xs : List Bytes) → AllShort xs → read_addresses (length xs) (write_all xs) ≡ returned xs
unfolding read_addresses write_all AllShort
read_addresses-write [] h = refl
read_addresses-write (a ∷ xs) (h, k) =
    ap
      (λ o. and_then o (λ (p : Bytes × Bytes).
        and_then (read_addresses (length xs) p.1) (λ (rest : List Bytes). returned (p.0 ∷ rest))))
      (read_u32_len_prefixed-write a (write_all xs) h)
    ∙ ap (λ o. and_then o (λ (rest : List Bytes). returned (a ∷ rest))) (read_addresses-write xs k)

pub length-listed : (n : ℕ) (f : ℕ → Bytes) → length (listed n f) ≡ n
unfolding listed
length-listed zero f = refl
length-listed (suc n) f = omega (arith, length-append (listed n f) (f n ∷ []), length-listed n f)

pub listed-ext : (n : ℕ) (f g : ℕ → Bytes) → ((r : ℕ) → r < n → f r ≡ g r) → listed n f ≡ listed n g
unfolding listed
listed-ext zero f g h = refl
listed-ext (suc n) f g h =
    ap₂ (λ xs x. xs ++ x ∷ []) (listed-ext n f g (λ r l. h r (omega (arith, l))))
      (h n (omega arith))

AllShort-append :
    (xs : List Bytes) (x : Bytes) → AllShort xs → length x < 2 ^ 32 → AllShort (xs ++ x ∷ [])
unfolding AllShort
AllShort-append [] x h k = (k, tt)
AllShort-append (y ∷ xs) x (a, h) k = (a, AllShort-append xs x h k)

pub listed-AllShort :
    (n : ℕ) (f : ℕ → Bytes) → ((r : ℕ) → r < n → length (f r) < 2 ^ 32) → AllShort (listed n f)
unfolding listed AllShort
listed-AllShort zero f h = tt
listed-AllShort (suc n) f h =
    AllShort-append (listed n f) (f n) (listed-AllShort n f (λ r l. h r (omega (arith, l))))
      (h n (omega arith))
