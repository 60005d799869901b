-- ===== src/Mpi/Slots.antt =====
-- What becomes of one request in the loop of a poll.
use pluvio.Base.{
  ℕ, zero, suc, ◌<◌, ◌≤◌, ◌≡◌, ◌≢◌, ◌⊎◌, refl, sym, ap, ◌∙◌, inl, inr, true, some, List, [], ◌∷◌,
  length, get_elem?, set, take, get_elem?-set_self, get_elem?-set_ne, ◌==◌, ==_iff, Bool-cases,
  arith,
}
use pluvio.Mpi.{PendingReq, MpiReactor, last, swap_remove, completed}
use pluvio.Mpi.Polling.{in_bounds}

get_elem?-take :
    {A : Type 0} (n i : ℕ) (xs : List A) → i < n → get_elem? (take n xs) i ≡ get_elem? xs i
get_elem?-take zero i xs h = elim h [ ]
get_elem?-take (suc n) i [] h = refl
get_elem?-take (suc n) zero (x ∷ xs) h = refl
get_elem?-take (suc n) (suc i) (x ∷ xs) h = get_elem?-take n i xs (omega (arith, h))

get_elem?-last :
    (p : PendingReq) (ps : List PendingReq) → get_elem? (p ∷ ps) (length ps) ≡ some (last p ps)
get_elem?-last p [] = refl
get_elem?-last p (q ∷ qs) = get_elem?-last q qs

-- The last element moves, the others stay.
swap_remove-last :
    (ps : List PendingReq) (i j : ℕ) (e : PendingReq)
    → get_elem? ps j ≡ some e
    → suc j ≡ length ps
    → i < j
    → get_elem? (swap_remove ps i) i ≡ some e
swap_remove-last [] i j e g l h = absurd (omega (arith, l))
swap_remove-last (p ∷ ps) i j e g l h =
    get_elem?-take (length ps) i (set (p ∷ ps) i (last p ps)) (omega (arith, l, h))
    ∙ get_elem?-set_self (p ∷ ps) i (last p ps) (omega (arith, l, h))
    ∙ sym (get_elem?-last p ps)
    ∙ ap (get_elem? (p ∷ ps)) {x = length ps} {y = j} (omega (arith, l))
    ∙ g

swap_remove-stays :
    (ps : List PendingReq) (i j : ℕ) (e : PendingReq)
    → get_elem? ps j ≡ some e
    → suc j < length ps
    → i ≢ j
    → get_elem? (swap_remove ps i) j ≡ some e
swap_remove-stays [] i j e g l h = absurd (omega (arith, l))
swap_remove-stays (p ∷ ps) i j e g l h =
    get_elem?-take (length ps) j (set (p ∷ ps) i (last p ps)) (omega (arith, l))
    ∙ get_elem?-set_ne (p ∷ ps) i j (last p ps) h
    ∙ g

module _ {L : Type 0} (slot req : ℕ) where
  -- The request stands at a place of the list, from `i` on.
  pub record Pending (i : ℕ) (r : MpiReactor L) : Type 0 where
    pub place : ℕ
    pub entry : PendingReq
    pub there : get_elem? r.pending place ≡ some entry
    pub named : entry.slot ≡ slot
    pub asked : entry.req ≡ req
    pub from : i ≤ place

  -- It is done, or pending.
  abbrev pub Lives : ℕ → MpiReactor L → Type 0
  Lives i r = (r.is_done slot ≡ true) ⊎ Pending i r

  -- Another request leaves the list.
  pub completed-Lives :
      (i k : ℕ) (entry : PendingReq) (r : MpiReactor L)
      → k ≤ i
      → get_elem? r.pending i ≡ some entry
      → Lives k r
      → Lives k (completed i entry r)
  unfolding completed
  completed-Lives i k entry r n e (inl d) = inl (ground (arith, d))
  completed-Lives i k entry r n e (inr g) = elim (Bool-cases (g.place == i)) [
    | inl y ↦
        let z = (==_iff g.place i).0 y in
        let same : some entry ≡ some g.entry = sym e ∙ ap (get_elem? r.pending) (sym z) ∙ g.there in
        inl (ground (arith, same, g.named))
    | inr y ↦
        let inside = in_bounds r.pending g.place g.entry g.there in
        let inside' = in_bounds r.pending i entry e in
        elim (Bool-cases (suc g.place == length r.pending)) [
          | inl z ↦ inr (record {
            place = i;
            entry = g.entry;
            there =
                swap_remove-last r.pending i g.place g.entry g.there
                  ((==_iff (suc g.place) (length r.pending)).0 z) (ground (arith, y, z, inside'));
            named = g.named;
            asked = g.asked;
            from = n;
          })
          | inr z ↦ inr (record {
            place = g.place;
            entry = g.entry;
            there =
                swap_remove-stays r.pending i g.place g.entry g.there (ground (arith, z, inside))
                  (λ q. ground (arith, y, q));
            named = g.named;
            asked = g.asked;
            from = g.from;
          })
        ]
  ]
