-- ===== src/Collective/Pipelined/Apart.antt =====
-- The chains of the pipelined ring share a rank's buffer without a conflict, and each does to its
-- micro-chunks what the plain ring does to a buffer.
use native.Mathlib.Nat.{mod-lt, mod-eq_of_lt}
use pluvio.Base.{
  ℕ, ◌+◌, ◌-◌, ◌*◌, ◌%◌, ◌^◌, ◌≤◌, ◌<◌, ◌≡◌, refl, sym, ap, ◌∙◌, inl, inr, List, length, slice,
  write, ltb, ◌==◌, ==_iff, if◌then◌else◌, Bool-cases, arith,
}
use pluvio.AmRouter.Header.{same_key→≡}
use pluvio.Collective.Ops.{Op, length-overlay, reduce_in_place, reduce_in_place_lem}
use pluvio.Collective.Ring.{phase, step, send_idx, recv_idx, sends, receives}
use pluvio.Collective.Ring.Ranks.{early, late}
use pluvio.Collective.Lanes.Views.{Shares}
use pluvio.Collective.Pipelined.{
  PipelineConfig, chain_key, micro_size, scatter_sends, scatter_takes, gather_sends, gather_takes,
  chain, chains,
}
use pluvio.Collective.Pipelined.Micro.{row_lem}
use pluvio.Collective.Pipelined.Rows.{
  view, piece, length-piece, chunk_at-view, length-written, view-written,
}

module _ {T : Type 0} (op : Op T) (n chunk : ℕ) (config : PipelineConfig) (two : 2 ≤ n)
    (few : config.micro_chunks < 2 ^ 8)
    (even : config.micro_chunks * micro_size chunk config.micro_chunks ≡ chunk) where
  abbrev w : ℕ
  w = config.micro_chunks

  abbrev s : ℕ
  s = micro_size chunk w

  -- The rounds of a chain, by the phase and the step.
  pub key_at : (m k r : ℕ) → (chain n chunk w op m).key k r ≡ chain_key m (phase n k) (step n k) r
  unfolding chain
  key_at m k r = elim (Bool-cases (ltb k (n - 1))) [
    | inl e ↦ (let (a, b) = early n k (ground (arith, e)) in rw (e, a, b) refl)
    | inr e ↦ (let (a, b) = late n k (ground (arith, e)) in rw (e, a, b) refl)
  ]

  send_in : (k r : ℕ) → send_idx n k r < n
  unfolding send_idx
  send_in k r = elim (Bool-cases (phase n k == 0)) [
    | inl e ↦ rw (e) (mod-lt (r + n - step n k) (omega (arith, two)))
    | inr e ↦ rw (e) (mod-lt (r + n - step n k + 1) (omega (arith, two)))
  ]

  recv_in : (k r : ℕ) → recv_idx n k r < n
  unfolding recv_idx
  recv_in k r = elim (Bool-cases (phase n k == 0)) [
    | inl e ↦ rw (e) (mod-lt (r + n - step n k - 1) (omega (arith, two)))
    | inr e ↦ rw (e) (mod-lt (r + n - step n k) (omega (arith, two)))
  ]

  -- What a chain sends is a chunk of its view.
  payload_at :
      (m k r : ℕ) (buf : List T)
      → m < w
      → (chain n chunk w op m).payload k r buf ≡ piece n s w m buf (send_idx n k r)
  unfolding chain scatter_sends gather_sends send_idx
  payload_at m k r buf h = elim (Bool-cases (ltb k (n - 1))) [
    | inl e ↦
        let (a, b) = early n k (ground (arith, e)) in
        rw (e, a, b) (ap (λ o. slice o s buf) (row_lem chunk w m ((r + n - k) % n) even h))
    | inr e ↦
        let (a, b) = late n k (ground (arith, e)) in
        rw (e, a, b)
          (ap (λ o. slice o s buf) (row_lem chunk w m ((r + n - (k - (n - 1)) + 1) % n) even h))
  ]

  -- What a chain writes, and where.
  abbrev stored : ℕ → ℕ → ℕ → List T → List T → List T
  stored m k r buf x =
      if phase n k == 0 then reduce_in_place op (piece n s w m buf (recv_idx n k r)) x else x

  absorb_at :
      (m k r : ℕ) (buf x : List T)
      → m < w
      → (chain n chunk w op m).absorb k r buf x
        ≡ write ((recv_idx n k r * w + m) * s) (stored m k r buf x) buf
  unfolding chain scatter_takes gather_takes recv_idx
  absorb_at m k r buf x h = elim (Bool-cases (ltb k (n - 1))) [
    | inl e ↦
        let (a, b) = early n k (ground (arith, e)) in
        rw (e, a, b)
          (ap (λ o. write o (reduce_in_place op (slice o s buf) x) buf)
            (row_lem chunk w m ((r + n - k - 1) % n) even h))
    | inr e ↦
        let (a, b) = late n k (ground (arith, e)) in
        rw (e, a, b)
          (ap (λ o. write o x buf) (row_lem chunk w m ((r + n - (k - (n - 1))) % n) even h))
  ]

  length-stored :
      (m k r : ℕ) (buf x : List T)
      → m < w
      → length buf ≡ n * w * s
      → length x ≡ s
      → length (stored m k r buf x) ≡ s
  length-stored m k r buf x h e f =
      let g = length-piece n s w m buf h e (recv_idx n k r) (recv_in k r) in
      elim (Bool-cases (phase n k == 0)) [
        | inl y ↦ rw (y) (
            ap length (reduce_in_place_lem op (piece n s w m buf (recv_idx n k r)) x (g ∙ sym f))
            ∙ length-overlay op.apply (piece n s w m buf (recv_idx n k r)) x
            ∙ g)
        | inr y ↦ rw (y) f
      ]

  -- The write, as the plain ring has it on the micro-chunks of the chain.
  receives-view :
      (m k r : ℕ) (buf x : List T)
      → m < w
      → length buf ≡ n * w * s
      → write (recv_idx n k r * s) (stored m k r buf x) (view n s w m buf)
        ≡ receives op n s k r (view n s w m buf) x
  unfolding receives
  receives-view m k r buf x h e = elim (Bool-cases (phase n k == 0)) [
    | inl y ↦ rw (y) (
        ap (λ z. write (recv_idx n k r * s) (reduce_in_place op z x) (view n s w m buf))
          (sym (chunk_at-view n s w m buf h e (recv_idx n k r) (recv_in k r))))
    | inr y ↦ rw (y) refl
  ]

  took :
      (m k r j : ℕ) (buf x : List T)
      → m < w
      → length buf ≡ n * w * s
      → (if j == m
          then write (recv_idx n k r * s) (stored m k r buf x) (view n s w j buf)
          else view n s w j buf)
        ≡ (if j == m then receives op n s k r (view n s w j buf) x else view n s w j buf)
  took m k r j buf x h e = elim (Bool-cases (j == m)) [
    | inl y ↦ rw (y, (==_iff j m).0 y) (receives-view m k r buf x h e)
    | inr y ↦ rw (y) refl
  ]

  abbrev pub IsWhole : List T → Type 0
  IsWhole buf = length buf ≡ n * w * s

  abbrev pub IsMicro : List T → Type 0
  IsMicro x = length x ≡ s

  -- The chains' shares of the buffer are apart.
  pub chains-Shares :
      Shares
        (chains op n chunk config)
        (λ m. sends op n s)
        (λ m. receives op n s)
        (view n s w)
        (λ key. key.micro_chunk)
        IsWhole
        IsMicro
  unfolding chains chain sends chain_key
  chains-Shares = record {
    sends_view = λ m k r buf h a b e. (
      payload_at m k r buf h ∙ sym (chunk_at-view n s w m buf h e (send_idx n k r) (send_in k r)),
      ap length (payload_at m k r buf h)
          ∙ length-piece n s w m buf h e (send_idx n k r) (send_in k r),
    );
    takes_view = λ m k r buf x h a b e f.
        (let o = length-stored m k r buf x h e f in
          (
            ap length (absorb_at m k r buf x h)
                ∙ length-written n s w m (recv_idx n k r) (stored m k r buf x) buf h (recv_in k r) e
                    o,
            λ j c.
                ap (view n s w j) (absorb_at m k r buf x h)
                ∙ view-written n s w m (recv_idx n k r) (stored m k r buf x) buf h (recv_in k r) e o
                    j c
                ∙ took m k r j buf x h e,
          ));
    known = λ l m k r h e.
        ap (λ key. key.micro_chunk) (same_key→≡ l ((chain n chunk w op m).key k r) e)
        ∙ micro_of m k r h;
    named = λ m k r h. micro_of m k r h;
    shape = λ m. (refl, refl);
  }
    where
      micro_of : (m k r : ℕ) → m < w → ((chain n chunk w op m).key k r).micro_chunk ≡ m
      micro_of m k r h =
          ap (λ key. key.micro_chunk) (key_at m k r) ∙ mod-eq_of_lt (omega (arith, h, few))
