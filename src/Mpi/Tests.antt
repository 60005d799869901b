-- ===== src/Mpi/Tests.antt =====
-- The MPI reactor at concrete inputs.
use pluvio.Reactor.{running, stopped}
use pluvio.AmRouter.Header.{bad_shape, protocol}
use pluvio.Mpi.Calls.{MpiCall, new_allreduce, new_allgather, new_scatter, poll_call}
use pluvio.Mpi.Runs.{Event, registers, polls, calls, happens, all_happen, poll_call-completes}
use pluvio.Base.{
  Result, ok, err, some, none, ready, pending, true, List, ℕ, ◌+◌, ◌≡◌, refl, Bool, false, [], ◌∷◌,
  length, ltb, ◌==◌, if◌then◌else◌,
}
use pluvio.Mpi.{PendingReq, MpiReactor, mpi_status, register, poll_from, poll_mpi}
use pluvio.Mpi.Polling.{IsMirrored, Polls, poll_mpi-Polls}

abbrev request : ℕ → PendingReq
request n = record { req = n; waker = n + 10; slot = n }

-- The library's state counts the tests; the request 1 is complete.
abbrev test : ℕ → ℕ → ℕ × Bool
test n req = (n + 1, req == 1)

abbrev reactor : MpiReactor ℕ
reactor = record {
  pending = request 0 ∷ request 1 ∷ request 2 ∷ [];
  active = 3;
  is_done = λ i. false;
  next_slot = 3;
  woken = [];
  mpi = 0;
}

poll_mpi-Polls_example :
    Polls reactor (poll_mpi test reactor)
    × (mpi_status reactor ≡ (if ltb 0 (length reactor.pending) then running else stopped))
unfolding IsMirrored
poll_mpi-Polls_example = poll_mpi-Polls test reactor refl

-- The guards.
uneven_gather : new_allgather 3 8 2 ≡ err bad_shape
unfolding new_allgather
uneven_gather = refl

root_without_buffer : new_scatter none 4 1 1 2 ≡ err protocol
unfolding new_scatter
root_without_buffer = refl

-- The library's state is the number of the next request, and then whether requests are complete.
abbrev Library : Type 0
Library = ℕ × Bool

abbrev begins_call : Library → MpiCall → Library × Result ℕ ℕ
begins_call l call = ((l.0 + 1, false), ok l.0)

abbrev tests_call : Library → ℕ → Library × Bool
tests_call l req = (l, l.1)

abbrev idle_reactor : MpiReactor Library
idle_reactor = record {
  pending = [];
  active = 0;
  is_done = λ i. false;
  next_slot = 0;
  woken = [];
  mpi = (7, false);
}

abbrev events : List (Event Library)
events = polls ∷ registers 8 5 ∷ polls ∷ calls (9, true) ∷ []

abbrev after_events : MpiReactor Library
after_events = record {
  pending =
      (record { req = 7; waker = 3; slot = 0 }) ∷ (record { req = 8; waker = 5; slot = 1 }) ∷ [];
  active = 2;
  is_done = λ j. if j == 1 then false else (if j == 0 then false else false);
  next_slot = 2;
  woken = [];
  mpi = (9, true);
}

poll_call-completes_example :
    let p = poll_call begins_call 3 (new_allreduce 4 0) idle_reactor in
    (p.2 ≡ pending)
    × ((done : MpiReactor Library) × (poll_mpi tests_call after_events ≡ some done)
        × ((poll_call begins_call 3 p.0 done).2 ≡ ready (ok tt)))
unfolding IsMirrored poll_call new_allreduce register all_happen happens poll_mpi poll_from
poll_call-completes_example =
    let p = poll_call begins_call 3 (new_allreduce 4 0) idle_reactor in
    poll_call-completes tests_call begins_call 3 3 7 (8, false) (new_allreduce 4 0) p.0 idle_reactor
      p.1 after_events p.2 events (λ l. l.1 ≡ true) refl refl refl refl refl (λ l q h. h) (λ l h. h)
      refl
