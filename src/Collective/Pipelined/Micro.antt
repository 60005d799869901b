-- ===== src/Collective/Pipelined/Micro.antt =====
-- A buffer of chunks cut into micro-chunks: the slots of the flat table, and the chunks that one chain has.
use native.Mathlib.Nat.{add-mul-div_right, add-mul-mod_self_right, mod-eq_of_lt, div-eq_of_lt}
use pluvio.Base.{
  ℕ, zero, suc, ◌+◌, ◌*◌, ◌/◌, ◌%◌, ◌≤◌, ◌<◌, ◌≡◌, refl, sym, ap, ◌∙◌, inl, inr, List, ◌++◌, length,
  length-append, length-drop, take-all, take-short, drop-short, drop-whole, take, drop, ltb, ◌==◌,
  ==_iff, Bool-cases, arith,
}
use pluvio.Collective.Ring.Chunks.{mul_mono, chunk_at, gather, of_chunks}
use pluvio.Collective.Pipelined.{micro_size, slot, row}

-- A slot is known by its chunk and its micro-chunk.
pub index_inj : (w c d j m : ℕ) → j < w → m < w → c * w + j ≡ d * w + m → (c ≡ d) × (j ≡ m)
index_inj w c d j m a b e = elim (Bool-cases (c == d)) [
  | inl y ↦ let q = (==_iff c d).0 y in (q, omega (arith, e, ap (λ c. c * w) q))
  | inr y ↦ elim (Bool-cases (ltb c d)) [
    | inl l ↦ absurd (omega (arith, e, a, mul_mono (suc c) d w (ground (arith, l))))
    | inr l ↦ absurd (omega (arith, e, b, mul_mono (suc d) c w (ground (arith, l, y))))
  ]
]

pub index_in : (w n c j : ℕ) → j < w → c < n → c * w + j < n * w
index_in w n c j a h = omega (arith, a, mul_mono (suc c) n w h)

module _ {T : Type 0} (s : ℕ) where
  -- Buffers with the same chunks are the same.
  pub same_chunks :
      (n : ℕ) (a b : List T)
      → length a ≡ n * s
      → length b ≡ n * s
      → ((c : ℕ) → c < n → chunk_at s c a ≡ chunk_at s c b)
      → a ≡ b
  same_chunks n a b e f h =
      of_chunks s n a (λ c. chunk_at s c b) e h
      ∙ sym (of_chunks s n b (λ c. chunk_at s c b) f (λ c l. refl))

  module _ (f : ℕ → List T) where
    pub length-gather :
        (n : ℕ) → ((c : ℕ) → c < n → length (f c) ≡ s) → length (gather s n f) ≡ n * s
    unfolding gather
    length-gather zero h = omega arith
    length-gather (suc n) h = omega (
      arith,
      length-append (gather s n f) (f n),
      length-gather n (λ c l. h c (omega (arith, l))),
      h n (omega arith),
    )

    -- A chunk of gathered chunks.
    pub chunk_at-gather :
        (n c : ℕ) → ((c : ℕ) → c < n → length (f c) ≡ s) → c < n → chunk_at s c (gather s n f) ≡ f c
    unfolding gather
    chunk_at-gather zero c h l = elim l [ ]
    chunk_at-gather (suc n) c h l = elim (Bool-cases (c == n)) [
      | inl y ↦
          let g = length-gather n (λ c l. h c (omega (arith, l))) in
          ap (λ c. chunk_at s c (gather s n f ++ f n)) ((==_iff c n).0 y)
          ∙ ap (λ k. take s (drop k (gather s n f ++ f n))) {x = n * s}
              {y = length (gather s n f) + 0} (omega (arith, g))
          ∙ ap (take s) (drop-whole 0 (gather s n f) (f n))
          ∙ take-all s (f n) (omega (arith, h n (omega arith)))
          ∙ ap f (sym ((==_iff c n).0 y))
      | inr y ↦
          let b : c < n = ground (arith, y, l) in
          let g = length-gather n (λ c l. h c (omega (arith, l))) in
          let fits : c * s ≤ length (gather s n f) = omega (arith, g, mul_mono (suc c) n s b) in
          ap (take s) (drop-short (c * s) (gather s n f) (f n) fits)
          ∙ take-short s (drop (c * s) (gather s n f)) (f n)
              (omega (arith, length-drop (c * s) (gather s n f), g, mul_mono (suc c) n s b))
          ∙ chunk_at-gather n c (λ c l. h c (omega (arith, l))) b
    ]

pub spread : (c w m s : ℕ) → c * (w * s) + m * s ≡ (c * w + m) * s
spread c w m s = grind arith

-- Where a slot of a chain begins, if the micro-chunks share the chunk out.
pub row_lem :
    (chunk w m c : ℕ)
    → w * micro_size chunk w ≡ chunk
    → m < w
    → row chunk w m c ≡ (c * w + m) * micro_size chunk w
unfolding slot
row_lem chunk w m c even h =
    let q : (c * w + m) / w ≡ c =
      ap (λ k. k / w) {x = c * w + m} {y = m + c * w} (omega arith)
      ∙ add-mul-div_right m c (omega (arith, h))
      ∙ ap (λ k. k + c) (div-eq_of_lt h)
      ∙ omega arith in
    let r : (c * w + m) % w ≡ m =
      ap (λ k. k % w) {x = c * w + m} {y = m + c * w} (omega arith)
      ∙ add-mul-mod_self_right m c w
      ∙ mod-eq_of_lt h in
    rw (q, r)
      (ap (λ k. c * k + m * micro_size chunk w) (sym even) ∙ spread c w m (micro_size chunk w))
