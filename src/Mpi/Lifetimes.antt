-- ===== src/Mpi/Lifetimes.antt =====
-- What becomes of one request in a poll of the MPI reactor: it stays until it is done, and a poll after MPI
-- is done with it is enough.
use pluvio.Base.{
  ℕ, zero, suc, ◌+◌, ◌≤◌, ◌≡◌, ◌≢◌, refl, sym, ap, subst, ◌∙◌, inl, inr, Bool, true, false, none,
  some, List, [], ◌∷◌, length, get_elem?, ◌==◌, ==_iff, Option-cases, Bool-cases, arith,
}
use pluvio.Mpi.{PendingReq, MpiReactor, completed, poll_from}
use pluvio.Mpi.Polling.{in_bounds}
use pluvio.Mpi.Slots.{Lives, completed-Lives}

out_bounds : {A : Type 0} (xs : List A) (i : ℕ) → get_elem? xs i ≡ none → length xs ≤ i
out_bounds [] i h = omega arith
out_bounds (x ∷ xs) zero h = absurd (ground (arith, h))
out_bounds (x ∷ xs) (suc i) h = omega (arith, out_bounds xs i h)

module _ {L : Type 0} (mpi_test : L → ℕ → L × Bool) (slot req : ℕ) where
  -- Of the library's state alone nothing is told.
  pub tested-Lives :
      (i : ℕ) (r : MpiReactor L) (mpi : L)
      → Lives slot req i r
      → Lives slot req i (record r { mpi = mpi })
  tested-Lives i r mpi (inl d) = inl d
  tested-Lives i r mpi (inr g) = inr (record {
    place = g.place;
    entry = g.entry;
    there = g.there;
    named = g.named;
    asked = g.asked;
    from = g.from;
  })

  -- The loop, case by case.
  at_end :
      (fuel i : ℕ) (r : MpiReactor L)
      → get_elem? r.pending i ≡ none
      → poll_from mpi_test (suc fuel) i r ≡ some r
  unfolding poll_from
  at_end fuel i r n = rw (n, poll_from) refl

  abbrev tested : PendingReq → MpiReactor L → MpiReactor L
  tested entry r = record r { mpi = (mpi_test r.mpi entry.req).0 }

  at_done :
      (fuel i : ℕ) (entry : PendingReq) (r : MpiReactor L)
      → get_elem? r.pending i ≡ some entry
      → (mpi_test r.mpi entry.req).1 ≡ true
      → poll_from mpi_test (suc fuel) i r
        ≡ poll_from mpi_test fuel i (completed i entry (tested entry r))
  unfolding poll_from
  at_done fuel i entry r n y = rw (n, poll_from, y) refl

  at_open :
      (fuel i : ℕ) (entry : PendingReq) (r : MpiReactor L)
      → get_elem? r.pending i ≡ some entry
      → (mpi_test r.mpi entry.req).1 ≡ false
      → poll_from mpi_test (suc fuel) i r ≡ poll_from mpi_test fuel (i + 1) (tested entry r)
  unfolding poll_from
  at_open fuel i entry r n y = rw (n, poll_from, y) refl

  no_fuel : (i : ℕ) (r out : MpiReactor L) → poll_from mpi_test zero i r ≢ some out
  unfolding poll_from
  no_fuel i r out e = ground (arith, e)

  pub poll_from-Lives :
      (fuel i : ℕ) (r out : MpiReactor L)
      → Lives slot req 0 r
      → poll_from mpi_test fuel i r ≡ some out
      → Lives slot req 0 out
  poll_from-Lives zero i r out g e = absurd (no_fuel i r out e)
  poll_from-Lives (suc fuel) i r out g e = elim (Option-cases (get_elem? r.pending i)) [
    | inl n ↦
        let same : some r ≡ some out = sym (at_end fuel i r n) ∙ e in
        subst (Lives slot req 0) {x = r} {y = out} (ground (arith, same)) g
    | inr (entry, n) ↦
        let g' = tested-Lives 0 r (mpi_test r.mpi entry.req).0 g in
        elim (Bool-cases (mpi_test r.mpi entry.req).1) [
          | inl y ↦
              poll_from-Lives fuel i (completed i entry (tested entry r)) out
                (completed-Lives slot req i 0 entry (tested entry r) (omega arith) n g')
                (sym (at_done fuel i entry r n y) ∙ e)
          | inr y ↦
              poll_from-Lives fuel (i + 1) (tested entry r) out g'
                (sym (at_open fuel i entry r n y) ∙ e)
        ]
  ]

  pub poll_from-next_slot :
      (fuel i : ℕ) (r out : MpiReactor L)
      → poll_from mpi_test fuel i r ≡ some out
      → out.next_slot ≡ r.next_slot
  unfolding completed
  poll_from-next_slot zero i r out e = absurd (no_fuel i r out e)
  poll_from-next_slot (suc fuel) i r out e = elim (Option-cases (get_elem? r.pending i)) [
    | inl n ↦
        let same : some r ≡ some out = sym (at_end fuel i r n) ∙ e in
        sym (ap (λ u. u.next_slot) {x = r} {y = out} (ground (arith, same)))
    | inr (entry, n) ↦ elim (Bool-cases (mpi_test r.mpi entry.req).1) [
      | inl y ↦
          poll_from-next_slot fuel i (completed i entry (tested entry r)) out
            (sym (at_done fuel i entry r n y) ∙ e)
      | inr y ↦
          poll_from-next_slot fuel (i + 1) (tested entry r) out
            (sym (at_open fuel i entry r n y) ∙ e)
    ]
  ]

  -- `Complete` says of the library's state that the request is complete: no test undoes it, and a test of
  -- the request finds it.
  module _ (Complete : L → Type 0)
      (stays : (l : L) (q : ℕ) → Complete l → Complete (mpi_test l q).0)
      (found : (l : L) → Complete l → (mpi_test l req).1 ≡ true) where
    pub poll_from-completes :
        (fuel i : ℕ) (r out : MpiReactor L)
        → Complete r.mpi
        → Lives slot req i r
        → poll_from mpi_test fuel i r ≡ some out
        → out.is_done slot ≡ true
    unfolding completed
    poll_from-completes zero i r out c g e = absurd (no_fuel i r out e)
    poll_from-completes (suc fuel) i r out c g e = elim (Option-cases (get_elem? r.pending i)) [
      | inl n ↦
          let same : some r ≡ some out = sym (at_end fuel i r n) ∙ e in
          subst (λ u. u.is_done slot ≡ true) {x = r} {y = out} (ground (arith, same))
            (nothing_left i r n g)
      | inr (entry, n) ↦
          let c' = stays r.mpi entry.req c in
          let g' = tested-Lives i r (mpi_test r.mpi entry.req).0 g in
          elim (Bool-cases (mpi_test r.mpi entry.req).1) [
            | inl y ↦
                poll_from-completes fuel i (completed i entry (tested entry r)) out c'
                  (completed-Lives slot req i i entry (tested entry r) (omega arith) n g')
                  (sym (at_done fuel i entry r n y) ∙ e)
            | inr y ↦
                poll_from-completes fuel (i + 1) (tested entry r) out c' (passed i entry r c n y g)
                  (sym (at_open fuel i entry r n y) ∙ e)
          ]
    ]
      where
        nothing_left :
            (i : ℕ) (r : MpiReactor L)
            → get_elem? r.pending i ≡ none
            → Lives slot req i r
            → r.is_done slot ≡ true
        nothing_left i r n (inl d) = d
        nothing_left i r n (inr g) = absurd (
            omega (
              arith,
              out_bounds r.pending i n,
              in_bounds r.pending g.place g.entry g.there,
              g.from,
            ))

        passed :
            (i : ℕ) (entry : PendingReq) (r : MpiReactor L)
            → Complete r.mpi
            → get_elem? r.pending i ≡ some entry
            → (mpi_test r.mpi entry.req).1 ≡ false
            → Lives slot req i r
            → Lives slot req (i + 1) (tested entry r)
        passed i entry r c n y (inl d) = inl d
        passed i entry r c n y (inr g) = elim (Bool-cases (g.place == i)) [
          | inl z ↦
              let same : some entry ≡ some g.entry =
                sym n ∙ ap (get_elem? r.pending) (sym ((==_iff g.place i).0 z)) ∙ g.there in
              let asked : entry.req ≡ req = ground (arith, same, g.asked) in
              let both : true ≡ false =
                sym (found r.mpi c) ∙ ap (λ q. (mpi_test r.mpi q).1) (sym asked) ∙ y in
              absurd (ground (arith, both))
          | inr z ↦ inr (record {
            place = g.place;
            entry = g.entry;
            there = g.there;
            named = g.named;
            asked = g.asked;
            from = ground (arith, z, g.from);
          })
        ]
