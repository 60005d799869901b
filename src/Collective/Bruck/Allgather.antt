-- ===== src/Collective/Bruck/Allgather.antt =====
-- What Bruck's allgather leaves on every rank.
use pluvio.Base.{
  ℕ, ◌*◌, ◌^◌, ◌≤◌, ◌<◌, ◌≡◌, sym, ap, subst, ◌∙◌, inl, inr, some, List, [], ◌∷◌, length, replicate,
  ◌==◌, ==_iff, if◌then◌else◌, ok, done, fault, panic, length-replicate, Bool-cases, if_true,
  if_false, arith,
}
use pluvio.AmRouter.Header.{RecvKey}
use pluvio.Collective.Ranks.{dist, along}
use pluvio.Collective.Network.{Protocol, sync, Ends}
use pluvio.Collective.Completion.{run-completes}
use pluvio.Collective.Ring.Chunks.{chunk_at, gather, gather-ext}
use pluvio.Collective.Bruck.{rounds, exchange, rotate_loop, rotate, bruck_allgather, begin}
use pluvio.Collective.Bruck.Rounds.{count-rounds, exchange-IsMatched}
use pluvio.Collective.Bruck.Slots.{length-held, slots, rotate_loop_lem}

accepted :
    {T : Type 0} (n : ℕ) (send recv : List T) (p : Protocol (List T) (List T) RecvKey)
    → bruck_allgather n send recv ≡ ok (some p)
    → (length recv ≡ length send * n) × (p ≡ exchange n (length send))
unfolding bruck_allgather
accepted n send recv p e = elim (Bool-cases (length recv == length send * n)) [
  | inr y ↦ absurd (ground (arith, y, e))
  | inl y ↦ elim (Bool-cases (n == 1)) [
    | inl z ↦ absurd (ground (arith, y, z, e))
    | inr z ↦ ((==_iff (length recv) (length send * n)).0 y, ground (arith, y, z, e))
  ]
]

module _ {T : Type 0} (n l : ℕ) (h : 1 ≤ n) (send recv : ℕ → List T)
    (sized : (r : ℕ) → r < n → length (send r) ≡ l)
    (room : (r : ℕ) → r < n → length (recv r) ≡ l * n) where
  abbrev final : ℕ → List T
  final r = sync (exchange n l) (λ r. begin (send r) (recv r)) (rounds n) r

  final-slot : (r c : ℕ) → r < n → c < n → chunk_at l (dist n c r) (final r) ≡ send c
  final-slot r c a b =
      slots n l h send recv sized room (rounds n) r (dist n c r) a
        (omega (arith, count-rounds n h, near))
      ∙ ap send (along n c r b a)
    where
      near : dist n c r < n
      near = ground (arith, a, b)

  -- What comes of the working set that a rank ends with.
  rotated :
      (r : ℕ) (xs : List T)
      → r < n
      → length xs ≡ l
      → rotate n r xs (final r) ≡ (if l == 0 then fault panic else done (gather l n send))
  unfolding rotate
  rotated r [] a e =
      sym (if_true (l == 0) (fault panic) (done (gather l n send)) (ground (arith, e)))
  rotated r (x ∷ xs) a e =
      let whole = length-held n l h send recv sized room (rounds n) r a in
      let out = replicate (length (final r)) x in
      ap (λ q. done (rotate_loop n q n r (final r) out)) e
      ∙ ap done (
          rotate_loop_lem n l r a (final r) whole out
            (length-replicate (length (final r)) x ∙ whole)
          ∙ gather-ext l n (λ c. chunk_at l (dist n c r) (final r)) send
              (λ c b. final-slot r c a b))
      ∙ sym (if_false (l == 0) (fault panic) (done (gather l n send)) (ground (arith, e)))

-- Where ranks, at most 65536, call the allgather with contributions of one length, no schedule leads them
-- into a deadlock: each can be carried on until all ranks have done their rounds. What a rank then makes of
-- its working set are all contributions in the order of the ranks; but where the contributions are empty,
-- every rank panics.
pub bruck_allgather-gathers :
    {T : Type 0} (n l : ℕ) (p : Protocol (List T) (List T) RecvKey) (send recv : ℕ → List T)
    (rs : List ℕ)
    → 1 ≤ n
    → n ≤ 2 ^ 16
    → ((r : ℕ) → r < n → length (send r) ≡ l)
    → ((r : ℕ) → r < n → bruck_allgather n (send r) (recv r) ≡ ok (some p))
    → (out : ℕ → List T) × Ends p (λ r. begin (send r) (recv r)) rs out
      × ((r : ℕ)
          → r < n
          → rotate n r (send r) (out r) ≡ (if l == 0 then fault panic else done (gather l n send)))
unfolding exchange
bruck_allgather-gathers n l p send recv rs h word sized e =
    let q : p ≡ exchange n l =
      (accepted n (send 0) (recv 0) p (e 0 h)).1 ∙ ap (exchange n) (sized 0 h) in
    let room : (r : ℕ) → r < n → length (recv r) ≡ l * n =
      λ r a. (accepted n (send r) (recv r) p (e r a)).0 ∙ ap (λ l. l * n) (sized r a) in
    (
      final n l h send recv sized room,
      subst (λ p. Ends p (λ r. begin (send r) (recv r)) rs (final n l h send recv sized room))
          (sym q)
          (run-completes (exchange n l) (exchange-IsMatched n h l word)
            (λ r. begin (send r) (recv r)) rs),
      λ r a. rotated n l h send recv sized room r (send r) a (sized r a),
    )
