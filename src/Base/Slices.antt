-- ===== src/Base/Slices.antt =====
-- Parts of a list: how `take` and `drop` act on what they and `++` make, and writes of a whole part.
use Prim.Native.Nat.{ℕ, zero, suc, ◌+◌, ◌-◌, ◌≤◌}
use mathlib.Core.Path.{◌≡◌, refl, sym, ap, ◌∙◌}
use mathlib.Core.List.{List, [], ◌∷◌, ◌++◌, append-nil}
use native.Mathlib.Omega.{arith}
use pluvio.Base.Lists.{length, take, drop, length-append, length-take, length-drop}

suc-add : (m n : ℕ) → suc m + n ≡ suc (m + n)
suc-add m n = omega arith

module _ {ℓ} {A : Type ℓ} where
  take-nil : (n : ℕ) → take {A = A} n [] ≡ []
  take-nil zero = refl
  take-nil (suc n) = refl

  drop-nil : (n : ℕ) → drop {A = A} n [] ≡ []
  drop-nil zero = refl
  drop-nil (suc n) = refl

  -- The part of a list from `off`, of `n` elements.
  abbrev pub slice : ℕ → ℕ → List A → List A
  slice off n xs = take n (drop off xs)

  -- `copy_from_slice` into the part from `off`.
  abbrev pub write : ℕ → List A → List A → List A
  write off ys xs = take off xs ++ (ys ++ drop (off + length ys) xs)

  pub take-short : (n : ℕ) (xs ys : List A) → n ≤ length xs → take n (xs ++ ys) ≡ take n xs
  take-short zero xs ys h = refl
  take-short (suc n) [] ys h = elim h [ ]
  take-short (suc n) (x ∷ xs) ys h = ap (◌∷◌ x) (take-short n xs ys (omega (arith, h)))

  pub take-whole : (xs ys : List A) → take (length xs) (xs ++ ys) ≡ xs
  take-whole [] ys = refl
  take-whole (x ∷ xs) ys = ap (◌∷◌ x) (take-whole xs ys)

  pub drop-short : (n : ℕ) (xs ys : List A) → n ≤ length xs → drop n (xs ++ ys) ≡ drop n xs ++ ys
  drop-short zero xs ys h = refl
  drop-short (suc n) [] ys h = elim h [ ]
  drop-short (suc n) (x ∷ xs) ys h = drop-short n xs ys (omega (arith, h))

  pub drop-whole : (n : ℕ) (xs ys : List A) → drop (length xs + n) (xs ++ ys) ≡ drop n ys
  drop-whole n [] ys = ap (λ k. drop k ys) (omega arith)
  drop-whole n (x ∷ xs) ys =
      ap (λ k. drop k (x ∷ (xs ++ ys))) (suc-add (length xs) n) ∙ drop-whole n xs ys

  pub drop-drop : (m n : ℕ) (xs : List A) → drop m (drop n xs) ≡ drop (n + m) xs
  drop-drop m zero xs = ap (λ k. drop k xs) (omega arith)
  drop-drop m (suc n) [] = drop-nil m ∙ sym (drop-nil (suc n + m))
  drop-drop m (suc n) (x ∷ xs) = drop-drop m n xs ∙ ap (λ k. drop k (x ∷ xs)) (sym (suc-add n m))

  pub drop-take : (m n : ℕ) (xs : List A) → drop m (take (m + n) xs) ≡ take n (drop m xs)
  drop-take zero n xs = ap (λ k. take k xs) (omega arith)
  drop-take (suc m) n [] = ap (drop (suc m)) (take-nil (suc m + n)) ∙ sym (take-nil n)
  drop-take (suc m) n (x ∷ xs) =
      ap (λ k. drop (suc m) (take k (x ∷ xs))) (suc-add m n) ∙ drop-take m n xs

  pub take-take : (m n : ℕ) (xs : List A) → m ≤ n → take m (take n xs) ≡ take m xs
  take-take zero n xs h = refl
  take-take (suc m) zero xs h = elim h [ ]
  take-take (suc m) (suc n) [] h = refl
  take-take (suc m) (suc n) (x ∷ xs) h = ap (◌∷◌ x) (take-take m n xs (omega (arith, h)))

  pub take-add : (m n : ℕ) (xs : List A) → take (m + n) xs ≡ take m xs ++ take n (drop m xs)
  take-add zero n xs = ap (λ k. take k xs) (omega arith)
  take-add (suc m) n [] = take-nil (suc m + n) ∙ sym (take-nil n)
  take-add (suc m) n (x ∷ xs) =
      ap (λ k. take k (x ∷ xs)) (suc-add m n) ∙ ap (◌∷◌ x) (take-add m n xs)

  pub take-all : (n : ℕ) (xs : List A) → length xs ≤ n → take n xs ≡ xs
  take-all zero [] h = refl
  take-all (suc n) [] h = refl
  take-all zero (x ∷ xs) h = elim h [ ]
  take-all (suc n) (x ∷ xs) h = ap (◌∷◌ x) (take-all n xs (omega (arith, h)))

  pub length-slice : (off n : ℕ) (xs : List A) → off + n ≤ length xs → length (slice off n xs) ≡ n
  length-slice off n xs h = omega (arith, length-take n (drop off xs), length-drop off xs)

  pub length-write :
      (off : ℕ) (ys xs : List A)
      → off + length ys ≤ length xs
      → length (write off ys xs) ≡ length xs
  length-write off ys xs h =
      length-append (take off xs) (ys ++ drop (off + length ys) xs)
      ∙ omega (
        arith,
        length-append ys (drop (off + length ys) xs),
        length-take off xs,
        length-drop (off + length ys) xs,
      )

  length-front : (off : ℕ) (xs : List A) → off ≤ length xs → length (take off xs) ≡ off
  length-front off xs h = omega (arith, length-take off xs)

  -- What stands behind a front of known length.
  behind : (off d : ℕ) (xs ys : List A) → length xs ≡ off → drop (off + d) (xs ++ ys) ≡ drop d ys
  behind off d xs ys e = ap (λ k. drop (k + d) (xs ++ ys)) (sym e) ∙ drop-whole d xs ys

  -- What was written is read back.
  pub slice-write_self :
      (off : ℕ) (ys xs : List A) → off ≤ length xs → slice off (length ys) (write off ys xs) ≡ ys
  slice-write_self off ys xs h =
      ap (take (length ys)) (
        ap (λ k. drop k (write off ys xs)) (omega arith)
        ∙ behind off 0 (take off xs) (ys ++ drop (off + length ys) xs) (length-front off xs h))
      ∙ take-whole ys (drop (off + length ys) xs)

  pub slice-take : (b n m : ℕ) (xs : List A) → b + n ≤ m → slice b n (take m xs) ≡ slice b n xs
  slice-take b n m xs h =
      ap (λ k. take n (drop b (take k xs))) (omega (arith, h))
      ∙ ap (take n) (drop-take b (m - b) xs)
      ∙ take-take n (m - b) (drop b xs) (omega (arith, h))

  -- A part before what was written, and a part behind it, are as they were.
  pub slice-write_before :
      (b n off : ℕ) (ys xs : List A)
      → b + n ≤ off
      → off ≤ length xs
      → slice b n (write off ys xs) ≡ slice b n xs
  slice-write_before b n off ys xs h k =
      let front = take off xs in
      let rest = ys ++ drop (off + length ys) xs in
      let e = length-front off xs k in
      ap (take n) (drop-short b front rest (omega (arith, e)))
      ∙ take-short n (drop b front) rest (omega (arith, e, length-drop b front))
      ∙ slice-take b n off xs h

  pub slice-write_behind :
      (d n off : ℕ) (ys xs : List A)
      → off ≤ length xs
      → slice (off + length ys + d) n (write off ys xs) ≡ slice (off + length ys + d) n xs
  slice-write_behind d n off ys xs k =
      let e = length-front off xs k in
      ap (take n) (
        ap (λ m. drop m (write off ys xs)) (omega arith)
        ∙ behind off (length ys + d) (take off xs) (ys ++ drop (off + length ys) xs) e
        ∙ drop-whole d ys (drop (off + length ys) xs)
        ∙ drop-drop d (off + length ys) xs)

  drop-all : (xs : List A) → drop (length xs) xs ≡ []
  drop-all [] = refl
  drop-all (x ∷ xs) = drop-all xs

  -- A whole list is written over.
  pub write-whole : (ys xs : List A) → length ys ≡ length xs → write 0 ys xs ≡ ys
  write-whole ys xs h =
      ap (λ k. ys ++ drop k xs) {x = 0 + length ys} {y = length xs} (omega (arith, h))
      ∙ ap (λ t. ys ++ t) (drop-all xs)
      ∙ append-nil ys

  -- A part of what was written.
  pub slice-write_inside :
      (b n off : ℕ) (ys xs : List A)
      → off ≤ length xs
      → b + n ≤ length ys
      → slice (off + b) n (write off ys xs) ≡ slice b n ys
  slice-write_inside b n off ys xs h k =
      let rest = drop (off + length ys) xs in
      ap (take n) (
        behind off b (take off xs) (ys ++ rest) (length-front off xs h)
        ∙ drop-short b ys rest (omega (arith, k)))
      ∙ take-short n (drop b ys) rest (omega (arith, k, length-drop b ys))
