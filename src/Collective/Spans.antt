-- ===== src/Collective/Spans.antt =====
-- Reductions of a range of buffers, from the first to the last: what an allreduce is to compute.
use pluvio.Base.{
  ℕ, zero, suc, ◌+◌, ◌-◌, ◌≤◌, ◌≡◌, refl, sym, ap, ap₂, ◌∙◌, List, [], ◌∷◌, length, take, drop,
  slice, arith,
}
use pluvio.Collective.Ops.{overlay, length-overlay}

module _ {T : Type 0} (f : T → T → T) where
  -- The buffers `lo` to `lo + d` of a family.
  unfoldable pub span : (ℕ → List T) → ℕ → ℕ → List T
  span x lo zero = x lo
  span x lo (suc d) = overlay f (span x lo d) (x (lo + suc d))

  pub take-overlay :
      (k : ℕ) (xs ys : List T) → take k (overlay f xs ys) ≡ overlay f (take k xs) (take k ys)
  unfolding overlay
  take-overlay zero xs ys = refl
  take-overlay (suc k) [] ys = refl
  take-overlay (suc k) (x ∷ xs) [] = refl
  take-overlay (suc k) (x ∷ xs) (y ∷ ys) = ap (◌∷◌ (f x y)) (take-overlay k xs ys)

  overlay-nil : (xs : List T) → overlay f xs [] ≡ xs
  unfolding overlay
  overlay-nil [] = refl
  overlay-nil (x ∷ xs) = refl

  pub drop-overlay :
      (k : ℕ) (xs ys : List T) → drop k (overlay f xs ys) ≡ overlay f (drop k xs) (drop k ys)
  unfolding overlay
  drop-overlay zero xs ys = refl
  drop-overlay (suc k) [] ys = refl
  drop-overlay (suc k) (x ∷ xs) [] = sym (overlay-nil (drop k xs))
  drop-overlay (suc k) (x ∷ xs) (y ∷ ys) = drop-overlay k xs ys

  -- A part of a reduction is the reduction of the parts.
  pub slice-span :
      (off k : ℕ) (x : ℕ → List T) (lo d : ℕ)
      → slice off k (span x lo d) ≡ span (λ i. slice off k (x i)) lo d
  unfolding span
  slice-span off k x lo zero = refl
  slice-span off k x lo (suc d) =
      ap (take k) (drop-overlay off (span x lo d) (x (lo + suc d)))
      ∙ take-overlay k (drop off (span x lo d)) (drop off (x (lo + suc d)))
      ∙ ap (λ t. overlay f t (slice off k (x (lo + suc d)))) (slice-span off k x lo d)

  pub length-span :
      (x : ℕ → List T) (s lo d : ℕ)
      → ((i : ℕ) → i ≤ lo + d → length (x i) ≡ s)
      → length (span x lo d) ≡ s
  unfolding span
  length-span x s lo zero h = h lo (omega arith)
  length-span x s lo (suc d) h =
      length-overlay f (span x lo d) (x (lo + suc d))
      ∙ length-span x s lo d (λ i l. h i (omega (arith, l)))

  pub span-ext :
      (x y : ℕ → List T) (lo d : ℕ) → ((i : ℕ) → i ≤ lo + d → x i ≡ y i) → span x lo d ≡ span y lo d
  unfolding span
  span-ext x y lo zero h = h lo (omega arith)
  span-ext x y lo (suc d) h =
      ap₂ (overlay f) (span-ext x y lo d (λ i l. h i (omega (arith, l))))
        (h (lo + suc d) (omega arith))

  module _ (assoc : (a b c : T) → f (f a b) c ≡ f a (f b c)) where
    pub overlay_assoc :
        (xs ys zs : List T)
        → length xs ≡ length ys
        → overlay f (overlay f xs ys) zs ≡ overlay f xs (overlay f ys zs)
    unfolding overlay
    overlay_assoc [] ys zs h = refl
    overlay_assoc (x ∷ xs) [] zs h = absurd (omega (arith, h))
    overlay_assoc (x ∷ xs) (y ∷ ys) [] h = refl
    overlay_assoc (x ∷ xs) (y ∷ ys) (z ∷ zs) h =
        ap₂ ◌∷◌ (assoc x y z) (overlay_assoc xs ys zs (omega (arith, h)))

    -- Neighbouring ranges.
    pub span-span :
        (x : ℕ → List T) (s lo d e : ℕ)
        → ((i : ℕ) → i ≤ lo + suc d + e → length (x i) ≡ s)
        → overlay f (span x lo d) (span x (lo + suc d) e) ≡ span x lo (d + suc e)
    unfolding span
    span-span x s lo d zero h = ap (span x lo) {x = suc d} {y = d + 1} (omega arith)
    span-span x s lo d (suc e) h =
        sym (
          overlay_assoc (span x lo d) (span x (lo + suc d) e) (x (lo + suc d + suc e)) (
            length-span x s lo d (λ i l. h i (omega (arith, l)))
            ∙ sym (length-span x s (lo + suc d) e (λ i l. h i (omega (arith, l))))))
        ∙ ap₂ (overlay f) (span-span x s lo d e (λ i l. h i (omega (arith, l))))
            (ap x (omega arith))
        ∙ ap (span x lo) {x = suc (d + suc e)} {y = d + suc (suc e)} (omega arith)

    module _ (comm : (a b : T) → f a b ≡ f b a) where
      pub overlay_comm :
          (xs ys : List T) → length xs ≡ length ys → overlay f xs ys ≡ overlay f ys xs
      unfolding overlay
      overlay_comm [] [] h = refl
      overlay_comm [] (y ∷ ys) h = absurd (omega (arith, h))
      overlay_comm (x ∷ xs) [] h = absurd (omega (arith, h))
      overlay_comm (x ∷ xs) (y ∷ ys) h = ap₂ ◌∷◌ (comm x y) (overlay_comm xs ys (omega (arith, h)))

      -- One step around.
      span-step :
          (x : ℕ → List T) (s m c : ℕ)
          → ((i : ℕ) → length (x i) ≡ s)
          → ((i : ℕ) → x (i + suc m) ≡ x i)
          → span x (suc c) m ≡ span x c m
      unfolding span
      span-step x s zero c sized period = ap x (omega arith) ∙ period c
      span-step x s (suc m) c sized period =
          ap₂ (overlay f) (ap (λ lo. span x lo m) (omega arith)) (ap x (omega arith) ∙ period c)
          ∙ overlay_comm (span x (c + 1) m) (x c)
              (length-span x s (c + 1) m (λ i l. sized i) ∙ sym (sized c))
          ∙ span-span x s c 0 m (λ i l. sized i)
          ∙ ap (span x c) {x = 0 + suc m} {y = suc m} (omega arith)

      -- Once around: where a range of a periodic family begins does not matter.
      pub span-around :
          (x : ℕ → List T) (s n c : ℕ)
          → 1 ≤ n
          → ((i : ℕ) → length (x i) ≡ s)
          → ((i : ℕ) → x (i + n) ≡ x i)
          → span x c (n - 1) ≡ span x 0 (n - 1)
      span-around x s n zero h sized period = refl
      span-around x s n (suc c) h sized period =
          span-step x s (n - 1) c sized (λ i. ap x (omega (arith, h)) ∙ period i)
          ∙ span-around x s n c h sized period
