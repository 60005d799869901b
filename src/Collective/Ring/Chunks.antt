-- ===== src/Collective/Ring/Chunks.antt =====
-- The chunks of a buffer: one is read, or replaced, without the others.
use native.Mathlib.Nat.{mul-le-mul_right}
use pluvio.Base.{
  ℕ, zero, suc, ◌+◌, ◌-◌, ◌*◌, ◌≤◌, ◌<◌, ◌≡◌, refl, sym, ap, ap₂, ◌∙◌, inl, inr, List, [], ◌++◌,
  length, take, slice, write, ltb, ◌==◌, ==_iff, if◌then◌else◌, Bool-cases, arith, length-slice,
  length-write, slice-write_self, slice-write_before, slice-write_behind, take-add, take-all,
}

pub mul_mono : (a b s : ℕ) → a ≤ b → a * s ≤ b * s
mul_mono a b s h = mul-le-mul_right s h

pub chunk_fits : (n c s : ℕ) → c < n → c * s + s ≤ n * s
chunk_fits n c s h = omega (arith, mul_mono (suc c) n s h)

module _ {T : Type 0} (s : ℕ) where
  -- The chunk of an index.
  abbrev pub chunk_at : ℕ → List T → List T
  chunk_at c buf = slice (c * s) s buf

  pub length-chunk_at :
      (n c : ℕ) (buf : List T) → length buf ≡ n * s → c < n → length (chunk_at c buf) ≡ s
  length-chunk_at n c buf e h = length-slice (c * s) s buf (omega (arith, e, chunk_fits n c s h))

  pub length-write_chunk :
      (n i : ℕ) (m buf : List T)
      → length buf ≡ n * s
      → length m ≡ s
      → i < n
      → length (write (i * s) m buf) ≡ n * s
  length-write_chunk n i m buf e f h =
      length-write (i * s) m buf (omega (arith, e, f, chunk_fits n i s h)) ∙ e

  pub chunk_at-write :
      (n c i : ℕ) (m buf : List T)
      → length buf ≡ n * s
      → length m ≡ s
      → i < n
      → chunk_at c (write (i * s) m buf) ≡ (if c == i then m else chunk_at c buf)
  chunk_at-write n c i m buf e f h = elim (Bool-cases (c == i)) [
    | inl y ↦
        rw (y, (==_iff c i).0 y)
          (ap (λ k. slice (i * s) k (write (i * s) m buf)) (sym f)
            ∙ slice-write_self (i * s) m buf (omega (arith, e, chunk_fits n i s h)))
    | inr y ↦ elim (Bool-cases (ltb c i)) [
      | inl l ↦ rw (y) (
          slice-write_before (c * s) s (i * s) m buf
            (omega (arith, mul_mono (suc c) i s (ground (arith, l))))
            (omega (arith, e, chunk_fits n i s h)))
      | inr l ↦ rw (y) (
          let far : i * s + length m + (c * s - (i * s + s)) ≡ c * s =
            omega (arith, f, mul_mono (suc i) c s (ground (arith, l, y))) in
          ap (λ k. slice k s (write (i * s) m buf)) (sym far)
          ∙ slice-write_behind (c * s - (i * s + s)) s (i * s) m buf
              (omega (arith, e, chunk_fits n i s h))
          ∙ ap (λ k. slice k s buf) far)
    ]
  ]

  -- Chunks, one after another.
  unfoldable pub gather : ℕ → (ℕ → List T) → List T
  gather zero f = []
  gather (suc n) f = gather n f ++ f n

  gather-take : (n : ℕ) (buf : List T) → gather n (λ c. chunk_at c buf) ≡ take (n * s) buf
  unfolding gather
  gather-take zero buf = ap (λ k. take k buf) {x = 0} {y = 0 * s} (omega arith)
  gather-take (suc n) buf =
      ap (λ t. t ++ chunk_at n buf) (gather-take n buf)
      ∙ sym (take-add (n * s) s buf)
      ∙ ap (λ k. take k buf) (omega arith)

  pub gather-ext :
      (n : ℕ) (f g : ℕ → List T) → ((c : ℕ) → c < n → f c ≡ g c) → gather n f ≡ gather n g
  unfolding gather
  gather-ext zero f g h = refl
  gather-ext (suc n) f g h =
      ap₂ ◌++◌ (gather-ext n f g (λ c l. h c (omega (arith, l)))) (h n (omega arith))

  -- A buffer is its chunks.
  pub of_chunks :
      (n : ℕ) (buf : List T) (f : ℕ → List T)
      → length buf ≡ n * s
      → ((c : ℕ) → c < n → chunk_at c buf ≡ f c)
      → buf ≡ gather n f
  of_chunks n buf f e h =
      sym (take-all (n * s) buf (omega (arith, e)))
      ∙ sym (gather-take n buf)
      ∙ gather-ext n (λ c. chunk_at c buf) f h
