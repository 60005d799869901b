-- ===== src/Collective/Ops.antt =====
-- pluvio_collective/src/op.rs: the reduction of one buffer into another, and the operators on `u32`.
use native.Mathlib.Nat.{mod-add-mod, add-mod-mod}
use pluvio.Base.{
  ℕ, zero, suc, ◌+◌, ◌%◌, ◌^◌, ◌≡◌, refl, sym, ap, ap₂, ◌∙◌, List, [], ◌∷◌, ◌++◌, length, take,
  drop, leb, if◌then◌else◌, length-take, length-drop, take-append-drop, append_assoc, Bool-cases,
  inl, inr, arith,
}

-- The trait `Op`.
pub record Op {ℓ} (T : Type ℓ) : Type ℓ where
  pub apply : T → T → T
  pub identity : T

module _ {ℓ} {T : Type ℓ} where
  -- A loop over `dst.iter_mut().zip(src)`: it ends with the shorter list, and the rest of `dst` stays.
  unfoldable pub overlay : (T → T → T) → List T → List T → List T
  overlay f [] ys = []
  overlay f (x ∷ xs) [] = x ∷ xs
  overlay f (x ∷ xs) (y ∷ ys) = f x y ∷ overlay f xs ys

  -- `chunks_exact(w)`, and what it leaves.
  unfoldable pub chunks_exact : ℕ → ℕ → List T → List (List T)
  chunks_exact w zero xs = []
  chunks_exact w (suc fuel) xs =
      let rest = chunks_exact w fuel (drop w xs) in
      if leb w (length xs) then take w xs ∷ rest else []

  unfoldable pub remainder : ℕ → ℕ → List T → List T
  remainder w zero xs = xs
  remainder w (suc fuel) xs =
      let rest = remainder w fuel (drop w xs) in if leb w (length xs) then rest else xs

  unfoldable pub join : List (List T) → List T
  join [] = []
  join (xs ∷ xss) = xs ++ join xss

abbrev pub lanes : ℕ
lanes = 8

-- The blocks are reduced pair by pair, then what is left; each block has at least one element, so the
-- length of the list is fuel enough.
unfoldable pub reduce_in_place {ℓ} : {T : Type ℓ} → Op T → List T → List T → List T
reduce_in_place op dst src =
    join (
      overlay (overlay op.apply) (chunks_exact lanes (length dst) dst)
        (chunks_exact lanes (length src) src))
    ++ overlay op.apply (remainder lanes (length dst) dst) (remainder lanes (length src) src)

-- `wrapping_add`.
unfoldable pub sum_u32 : Op ℕ
sum_u32 = record { apply = λ a b. (a + b) % 2 ^ 32; identity = 0 }

module _ {ℓ} {T : Type ℓ} (f : T → T → T) where
  pub length-overlay : (xs ys : List T) → length (overlay f xs ys) ≡ length xs
  unfolding overlay
  length-overlay [] ys = refl
  length-overlay (x ∷ xs) [] = refl
  length-overlay (x ∷ xs) (y ∷ ys) = ap suc (length-overlay xs ys)

  overlay-append :
      (xs ys us vs : List T)
      → length xs ≡ length us
      → overlay f (xs ++ ys) (us ++ vs) ≡ overlay f xs us ++ overlay f ys vs
  unfolding overlay
  overlay-append [] ys [] vs h = refl
  overlay-append [] ys (u ∷ us) vs h = absurd (omega (arith, h))
  overlay-append (x ∷ xs) ys [] vs h = absurd (omega (arith, h))
  overlay-append (x ∷ xs) ys (u ∷ us) vs h =
      ap (◌∷◌ (f x u)) (overlay-append xs ys us vs (omega (arith, h)))

  -- Lists of one length, reduced in blocks of any width.
  in_blocks :
      (w fuel : ℕ) (xs ys : List T)
      → length xs ≡ length ys
      → join (overlay (overlay f) (chunks_exact w fuel xs) (chunks_exact w fuel ys))
          ++ overlay f (remainder w fuel xs) (remainder w fuel ys)
        ≡ overlay f xs ys
  unfolding chunks_exact remainder join overlay
  in_blocks w zero xs ys h = refl
  in_blocks w (suc fuel) xs ys h = elim (Bool-cases (leb w (length xs))) [
    | inr e ↦ rw (e, ap (leb w) (sym h) ∙ e) refl
    | inl e ↦
        rw (e, ap (leb w) (sym h) ∙ e)
          (append_assoc (overlay f (take w xs) (take w ys))
              (join (
                overlay (overlay f) (chunks_exact w fuel (drop w xs))
                  (chunks_exact w fuel (drop w ys))))
              (overlay f (remainder w fuel (drop w xs)) (remainder w fuel (drop w ys)))
            ∙ ap (λ t. overlay f (take w xs) (take w ys) ++ t)
                (in_blocks w fuel (drop w xs) (drop w ys)
                  (omega (arith, h, length-drop w xs, length-drop w ys)))
            ∙ sym (
                overlay-append (take w xs) (drop w xs) (take w ys) (drop w ys)
                  (omega (arith, h, length-take w xs, length-take w ys)))
            ∙ ap₂ (overlay f) (take-append-drop w xs) (take-append-drop w ys))
  ]

-- Buffers of one length are reduced element by element, whatever of them falls into the blocks of eight.
pub reduce_in_place_lem {ℓ} :
    {T : Type ℓ} (op : Op T) (dst src : List T)
    → length dst ≡ length src
    → reduce_in_place op dst src ≡ overlay op.apply dst src
unfolding reduce_in_place
reduce_in_place_lem op dst src h = rw (sym h) (in_blocks op.apply lanes (length dst) dst src h)

-- The sum on `u32` is associative and commutative.
pub sum_u32_assoc :
    (a b c : ℕ) → sum_u32.apply (sum_u32.apply a b) c ≡ sum_u32.apply a (sum_u32.apply b c)
unfolding sum_u32
sum_u32_assoc a b c =
    mod-add-mod (a + b) (2 ^ 32) c
    ∙ ap (λ n. n % 2 ^ 32) (omega arith)
    ∙ sym (add-mod-mod a (b + c) (2 ^ 32))

pub sum_u32_comm : (a b : ℕ) → sum_u32.apply a b ≡ sum_u32.apply b a
unfolding sum_u32
sum_u32_comm a b = omega arith
