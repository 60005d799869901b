-- ===== src/Mpi/Polling.antt =====
-- pluvio_collective/src/mpi_backend/reactor.rs: a poll tests each request once.
use pluvio.Reactor.{running, stopped}
use pluvio.Base.{
  ℕ, zero, suc, ◌+◌, ◌-◌, ◌<◌, ◌≤◌, ◌≡◌, refl, ap, ◌∙◌, inl, inr, Bool, Option, some, List, [], ◌∷◌,
  length, length-append, length-set, length-take, get_elem?, set, ltb, if◌then◌else◌, Option-cases,
  Bool-cases, arith,
}
use pluvio.Mpi.{
  PendingReq, MpiReactor, mpi_status, last, swap_remove, completed, poll_from, poll_mpi,
}

pub length-swap_remove : (ps : List PendingReq) (i : ℕ) → length (swap_remove ps i) ≡ length ps - 1
length-swap_remove [] i = refl
length-swap_remove (p ∷ ps) i =
    length-take (length ps) (set (p ∷ ps) i (last p ps))
    ∙ omega (arith, length-set (p ∷ ps) i (last p ps))

pub in_bounds :
    {A : Type 0} → (xs : List A) (i : ℕ) (a : A) → get_elem? xs i ≡ some a → i < length xs
in_bounds [] i a h = ground (arith, h)
in_bounds (x ∷ xs) zero a h = omega arith
in_bounds (x ∷ xs) (suc i) a h = omega (arith, in_bounds xs i a h)

module _ {L : Type 0} where
  -- The counter mirrors the number of requests that are pending.
  unfoldable pub IsMirrored : MpiReactor L → Type 0
  IsMirrored r = r.active ≡ length r.pending

  -- What a poll that ends leaves: the mirrored counter, and each request either pending or woken.
  unfoldable pub Polls : MpiReactor L → Option (MpiReactor L) → Type 0
  Polls r o =
      (out : MpiReactor L) × (o ≡ some out)
      × IsMirrored out
      × (length out.woken + length out.pending ≡ length r.woken + length r.pending)

  poll_from-Polls :
      (mpi_test : L → ℕ → L × Bool) (fuel i : ℕ) (r : MpiReactor L)
      → IsMirrored r
      → i ≤ length r.pending
      → length r.pending < fuel + i
      → Polls r (poll_from mpi_test fuel i r)
  unfolding poll_from IsMirrored Polls completed
  poll_from-Polls mpi_test zero i r m b l = absurd (omega arith)
  poll_from-Polls mpi_test (suc fuel) i r m b l = elim (Option-cases (get_elem? r.pending i)) [
    | inl e ↦ rw (e, poll_from) (r, refl, m, refl)
    | inr (entry, e) ↦
        let (mpi, flag) = mpi_test r.mpi entry.req in
        let tested : MpiReactor L = record r { mpi = mpi } in
        let inside = in_bounds r.pending i entry e in
        let shorter = length-swap_remove r.pending i in
        elim (Bool-cases flag) [
          | inl y ↦
              let (out, q, m', n) =
                poll_from-Polls mpi_test fuel i (completed i entry tested) (omega (arith, shorter))
                  (omega (arith, shorter)) (omega (arith, shorter)) in
              rw (e, poll_from, y)
                (out, q, m', n ∙ omega (arith, shorter, length-append r.woken (entry.waker ∷ [])))
          | inr y ↦
              let (out, q, m', n) =
                poll_from-Polls mpi_test fuel (i + 1) tested m (omega arith) (omega arith) in
              rw (e, poll_from, y) (out, q, m', n)
        ]
  ]

  -- Whatever MPI answers, a poll comes to an end from a counter that mirrors the requests: it
  -- calls as many wakers as requests leave the list, and the counter is still the number of
  -- requests that are pending. `status` is `Running` just when there is one.
  pub poll_mpi-Polls :
      (mpi_test : L → ℕ → L × Bool) (r : MpiReactor L)
      → IsMirrored r
      → Polls r (poll_mpi mpi_test r)
        × (mpi_status r ≡ (if ltb 0 (length r.pending) then running else stopped))
  unfolding poll_mpi IsMirrored mpi_status
  poll_mpi-Polls mpi_test r m = (
    poll_from-Polls mpi_test (length r.pending + 1) 0 r m (omega arith) (omega arith),
    ap (λ n. if ltb 0 n then running else stopped) m,
  )
