-- ===== src/Mpi.antt =====
-- pluvio_collective/src/mpi_backend/reactor.rs: the reactor of MPI requests. `MPI_Test` is given: what
-- it answers of a request, and the library's state after. A CompletionSlot goes by number.
mod Polling
mod Slots
pub mod Calls
mod Lifetimes
pub mod Runs
mod Tests
use pluvio.Reactor.{ReactorStatus, running, stopped}
use pluvio.Base.{
  ℕ, zero, suc, ◌+◌, ◌-◌, Bool, true, false, Option, none, some, List, [], ◌∷◌, ◌++◌, length,
  get_elem?, set, take, ltb, ◌==◌, if◌then◌else◌,
}

pub record PendingReq : Type 0 where
  pub req : ℕ
  pub waker : ℕ
  pub slot : ℕ

-- `is_done` holds the field `done` of each CompletionSlot, `next_slot` is the first number that no slot has,
-- `woken` lists the wakers called, and `mpi` is the library's state.
pub record MpiReactor (L : Type 0) : Type 0 where
  pub pending : List PendingReq
  pub active : ℕ
  pub is_done : ℕ → Bool
  pub next_slot : ℕ
  pub woken : List ℕ
  pub mpi : L

abbrev pub set_flag : ℕ → Bool → (ℕ → Bool) → ℕ → Bool
set_flag i v f j = if j == i then v else f j

-- `Vec::swap_remove`: the last element takes the place of the one that goes.
abbrev last : PendingReq → List PendingReq → PendingReq
last p [] = p
last p (q ∷ qs) = last q qs

abbrev pub swap_remove : List PendingReq → ℕ → List PendingReq
swap_remove [] i = []
swap_remove (p ∷ ps) i = take (length ps) (set (p ∷ ps) i (last p ps))

module _ {L : Type 0} where
  unfoldable pub register : ℕ → ℕ → MpiReactor L → MpiReactor L × ℕ
  register req waker r = (
    record r {
      pending = r.pending ++ (record { req = req; waker = waker; slot = r.next_slot }) ∷ [];
      active = r.active + 1;
      is_done = set_flag r.next_slot false r.is_done;
      next_slot = r.next_slot + 1;
    },
    r.next_slot,
  )

  unfoldable pub mpi_status : MpiReactor L → ReactorStatus
  mpi_status r = if ltb 0 r.active then running else stopped

  -- What a poll does with a request that is complete.
  unfoldable pub completed : ℕ → PendingReq → MpiReactor L → MpiReactor L
  completed i entry r = record r {
    pending = swap_remove r.pending i;
    is_done = set_flag entry.slot true r.is_done;
    woken = r.woken ++ entry.waker ∷ [];
    active = r.active - 1;
  }

  -- The loop of `poll`, from an index. On fuel: none where it is used up.
  unfoldable pub poll_from : (L → ℕ → L × Bool) → ℕ → ℕ → MpiReactor L → Option (MpiReactor L)
  poll_from mpi_test zero i r = none
  poll_from mpi_test (suc fuel) i r = elim (get_elem? r.pending i) as (λ x. Option (MpiReactor L)) [
    | none ↦ some r
    | some entry ↦
        let (mpi, flag) = mpi_test r.mpi entry.req in
        let tested : MpiReactor L = record r { mpi = mpi } in
        poll_from mpi_test fuel (if flag then i else i + 1)
          (if flag then completed i entry tested else tested)
  ]

  -- `poll`: every turn of the loop removes a request or goes past one.
  unfoldable pub poll_mpi : (L → ℕ → L × Bool) → MpiReactor L → Option (MpiReactor L)
  poll_mpi mpi_test r = poll_from mpi_test (length r.pending + 1) 0 r
