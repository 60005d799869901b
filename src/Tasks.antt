-- ===== src/Tasks.antt =====
-- pluvio_runtime/src/task/mod.rs: a spawned task and its `JoinHandle`, over the state that they share. The
-- future that is spawned is a parameter, what a poll of it answers. The handle has the type that the task
-- was made with, so that `downcast` succeeds; an error message goes by number.
mod Joining
mod Tests
use pluvio.Base.{ℕ, Option, none, some, List, [], ◌∷◌, ◌++◌, Result, ok, err, Poll, ready, pending}

pub record SharedState (T : Type 0) : Type 0 where
  pub waker : Option ℕ
  pub result : Option (Result T ℕ)

-- `future` is the one that was spawned, until it is done; `woken` lists the wakers called.
pub record Spawned (F T : Type 0) : Type 0 where
  pub future : Option F
  pub shared : SharedState T
  pub woken : List ℕ

abbrev pub new_shared : {T : Type 0} → SharedState T
new_shared = record { waker = none; result = none }

abbrev pub create_task_and_handle : {F T : Type 0} → F → Spawned F T
create_task_and_handle f = record { future = some f; shared = new_shared; woken = [] }

-- `waker.take()`, and the call of what it gives.
abbrev pub called : Option ℕ → List ℕ
called none = []
called (some w) = w ∷ []

-- The poll of the wrapped future: when the future is done its result is stored, then the waker called.
unfoldable pub poll_wrapped : {F T : Type 0} → (F → Poll T × F) → Spawned F T → Spawned F T
poll_wrapped {F = F} {T = T} poll s = elim s.future as (λ x. Spawned F T) [
  | none ↦ s
  | some f ↦
      let (p, g) = poll f in
      elim p as (λ x. Spawned F T) [
        | pending ↦ record s { future = some g }
        | ready v ↦ record {
          future = none;
          shared = record { waker = none; result = some (ok v) };
          woken = s.woken ++ called (s.shared).waker;
        }
      ]
]

-- `JoinHandle::poll` by a waker.
unfoldable pub poll_join : {F T : Type 0} → ℕ → Spawned F T → Spawned F T × Poll (Result T ℕ)
poll_join {F = F} {T = T} w s = elim (s.shared).result as (λ x. Spawned F T × Poll (Result T ℕ)) [
  | some r ↦ (record s { shared = record { waker = (s.shared).waker; result = none } }, ready r)
  | none ↦ (record s { shared = record { waker = some w; result = none } }, pending)
]

-- The runtime polls the task, or some task polls the handle.
pub data Event : Type 0 where
  task_polled : Event
  handle_polled : ℕ → Event

module _ {F T : Type 0} (poll : F → Poll T × F) where
  unfoldable pub act : Event → Spawned F T → Spawned F T × List (Poll (Result T ℕ))
  act task_polled s = (poll_wrapped poll s, [])
  act (handle_polled w) s = (let (t, p) = poll_join w s in (t, p ∷ []))

  -- A run of events, and the answers that the handle gave.
  unfoldable pub act_all : List Event → Spawned F T → Spawned F T × List (Poll (Result T ℕ))
  act_all [] s = (s, [])
  act_all (e ∷ es) s = let (t, ps) = act e s in let (u, qs) = act_all es t in (u, ps ++ qs)
