-- ===== src/Collective/Pipelined/Rows.antt =====
-- What a chain has of a buffer, put together: its chunks, one of each chunk of the buffer. What a chain
-- does to the buffer is what the plain ring does to this.
use pluvio.Base.{
  ℕ, ◌+◌, ◌*◌, ◌<◌, ◌≡◌, ◌≢◌, sym, ap, ap₂, ◌∙◌, inl, inr, true, false, List, length, write, ◌==◌,
  ==_iff, if_false, if◌then◌else◌, Bool-cases, arith,
}
use pluvio.Collective.Ring.Chunks.{
  chunk_at, gather, gather-ext, length-chunk_at, length-write_chunk, chunk_at-write,
}
use pluvio.Collective.Pipelined.Micro.{
  index_inj, index_in, same_chunks, length-gather, chunk_at-gather,
}

differ : (a b : ℕ) → a ≢ b → (a == b) ≡ false
differ a b h = ground (arith, h)

module _ {T : Type 0} (n s w : ℕ) where
  -- The micro-chunks of a chain.
  abbrev pub piece : ℕ → List T → ℕ → List T
  piece m buf c = chunk_at s (c * w + m) buf

  unfoldable pub view : ℕ → List T → List T
  view m buf = gather s n (piece m buf)

  module _ (m : ℕ) (buf : List T) (h : m < w) (e : length buf ≡ n * w * s) where
    pub length-piece : (c : ℕ) → c < n → length (piece m buf c) ≡ s
    length-piece c l = length-chunk_at s (n * w) (c * w + m) buf e (index_in w n c m h l)

    pub length-view : length (view m buf) ≡ n * s
    unfolding view
    length-view = length-gather s (piece m buf) n length-piece

    pub chunk_at-view : (c : ℕ) → c < n → chunk_at s c (view m buf) ≡ piece m buf c
    unfolding view
    chunk_at-view c l = chunk_at-gather s (piece m buf) n c length-piece l

  -- A write into a micro-chunk, as each chain sees it.
  module _ (m i : ℕ) (x buf : List T) (h : m < w) (a : i < n) (e : length buf ≡ n * w * s)
      (f : length x ≡ s) where
    abbrev written : List T
    written = write ((i * w + m) * s) x buf

    pub length-written : length written ≡ n * w * s
    length-written = length-write_chunk s (n * w) (i * w + m) x buf e f (index_in w n i m h a)

    pub view-written :
        (j : ℕ)
        → j < w
        → view j written ≡ (if j == m then write (i * s) x (view j buf) else view j buf)
    unfolding view
    view-written j b = elim (Bool-cases (j == m)) [
      | inl y ↦ rw (y) (
          same_chunks s n (view j written) (write (i * s) x (view j buf))
            (length-view j written b length-written)
            (length-write_chunk s n i x (view j buf) (length-view j buf b e) f a)
            (λ c l.
              chunk_at-view j written b length-written c l
              ∙ chunk_at-write s (n * w) (c * w + j) (i * w + m) x buf e f (index_in w n i m h a)
              ∙ ap₂ (λ t z. if t then x else z) (same_index c y) (sym (chunk_at-view j buf b e c l))
              ∙ sym (chunk_at-write s n c i x (view j buf) (length-view j buf b e) f a)))
      | inr y ↦ rw (y) (
          gather-ext s n (piece j written) (piece j buf) (λ c l.
            chunk_at-write s (n * w) (c * w + j) (i * w + m) x buf e f (index_in w n i m h a)
            ∙ if_false (c * w + j == i * w + m) x (piece j buf c) (
                differ (c * w + j) (i * w + m)
                  (λ q. absurd (ground (arith, y, (index_inj w c i j m b h q).1))))))
    ]
      where
        same_index : (c : ℕ) → (j == m) ≡ true → (c * w + j == i * w + m) ≡ (c == i)
        same_index c y =
            let q = (==_iff j m).0 y in
            elim (Bool-cases (c == i)) [
              | inl z ↦
                  (==_iff (c * w + j) (i * w + m)).1
                    (omega (arith, ap (λ c. c * w) ((==_iff c i).0 z), q))
                  ∙ sym z
              | inr z ↦
                  differ (c * w + j) (i * w + m)
                    (λ p. absurd (ground (arith, z, (index_inj w c i j m b h p).0)))
                  ∙ sym z
            ]
