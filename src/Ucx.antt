-- ===== src/Ucx.antt =====
-- pluvio_ucx/src: the worker's state machine (worker/mod.rs, worker/listener.rs, worker/am.rs,
-- worker/endpoint.rs) and the reactor's count of the workers that are not inactive (reactor.rs). What
-- async_ucx does is no part of it: an operation begins, ends, or fails to give a listener or a stream.
-- Workers are the list that `register_worker` fills; nothing takes one out. Times are numbers.
mod Counting
mod Overlap
mod Tests
use pluvio.Reactor.{ReactorStatus, running, stopped}
use pluvio.Base.{
  ℕ, suc, ◌+◌, ◌-◌, ◌^◌, ◌%◌, Bool, true, false, not, Option, none, some, List, [], ◌∷◌, ◌++◌,
  length, get_elem?, set, ltb, ◌==◌, if◌then◌else◌,
}

pub data WorkerState : Type 0 where
  active wait_connect inactive : WorkerState

-- The ids of a listener and of a stream are numbers.
pub record Worker : Type 0 where
  pub state : WorkerState
  pub listener_ids : List ℕ
  pub wait_connect_start : Option ℕ

abbrev pub new_worker : Worker
new_worker = record { state = inactive; listener_ids = []; wait_connect_start = none }

-- The HashSet's operations.
abbrev pub contains : ℕ → List ℕ → Bool
contains i [] = false
contains i (j ∷ ids) = if i == j then true else contains i ids

abbrev pub insert_id : ℕ → List ℕ → List ℕ
insert_id i ids = if contains i ids then ids else i ∷ ids

abbrev pub remove_id : ℕ → List ℕ → List ℕ
remove_id i [] = []
remove_id i (j ∷ ids) = if i == j then remove_id i ids else j ∷ remove_id i ids

-- `fetch_add` and `fetch_sub` on an AtomicUsize wrap around.
abbrev pub increment_active_count : ℕ → ℕ
increment_active_count c = (c + 1) % 2 ^ 64

abbrev pub decrement_active_count : ℕ → ℕ
decrement_active_count c = (c + (2 ^ 64 - 1)) % 2 ^ 64

-- The count after a worker leaves this state for one that is not `Inactive`, and after it leaves it for
-- `Inactive`.
abbrev pub entered : WorkerState → ℕ → ℕ
entered inactive c = increment_active_count c
entered active c = c
entered wait_connect c = c

abbrev pub left : WorkerState → ℕ → ℕ
left inactive c = c
left active c = decrement_active_count c
left wait_connect c = decrement_active_count c

-- `get().as_mut().take()` takes a temporary reference: the field `wait_connect_start` keeps its value.
unfoldable pub activate : Worker → ℕ → Worker × ℕ
activate w c = (record w { state = active }, entered w.state c)

unfoldable pub deactivate : ℕ → Worker → ℕ → Worker × ℕ
deactivate now w c = elim w.listener_ids as (λ x. Worker × ℕ) [
  | [] ↦ (record w { state = inactive }, left w.state c)
  | i ∷ ids ↦ (record w { state = wait_connect; wait_connect_start = some now }, c)
]

unfoldable pub start_waiting : ℕ → Worker → ℕ → Worker × ℕ
start_waiting now w c =
    (record w { state = wait_connect; wait_connect_start = some now }, entered w.state c)

-- `create_listener`, where async_ucx gives one.
unfoldable pub create_listener : ℕ → ℕ → Worker → ℕ → Worker × ℕ
create_listener addr now w c =
    let (w', c') = elim w.state as (λ x. Worker × ℕ) [
      | active ↦ (w, c)
      | wait_connect ↦ (w, c)
      | inactive ↦ start_waiting now w c
    ] in
    (record w' { listener_ids = insert_id addr w'.listener_ids }, c')

-- `am_stream`, where async_ucx gives one.
unfoldable pub am_stream : ℕ → Worker → ℕ → Worker × ℕ
am_stream id w c = (record w { listener_ids = insert_id id w.listener_ids }, c)

-- The drop of a Listener, and of an AmStream.
unfoldable pub drop_id : ℕ → ℕ → Worker → ℕ → Worker × ℕ
drop_id id now w c = deactivate now (record w { listener_ids = remove_id id w.listener_ids }) c

-- What happens to a worker. `start` and `finish` are the two ends of an operation of the worker or of
-- one of its endpoints, `send` is `am_send`, which does not deactivate, and `listen` and `heard` are
-- the two ends of `wait_msg`.
pub data Call : Type 0 where
  start send : Call
  finish listen heard : ℕ → Call
  new_listener : (addr now : ℕ) → Call
  new_stream : (id : ℕ) → Call
  dropped : (id now : ℕ) → Call

unfoldable pub call : Call → Worker → ℕ → Worker × ℕ
call start w c = activate w c
call send w c = activate w c
call (finish now) w c = deactivate now w c
call (listen now) w c = start_waiting now w c
call (heard now) w c = deactivate now w c
call (new_listener addr now) w c = create_listener addr now w c
call (new_stream id) w c = am_stream id w c
call (dropped id now) w c = drop_id id now w c

pub record UcxReactor : Type 0 where
  pub registered_workers : List Worker
  pub active_or_waiting_count : ℕ

unfoldable pub register_worker : UcxReactor → UcxReactor × ℕ
register_worker r = (
  record r { registered_workers = r.registered_workers ++ new_worker ∷ [] },
  length r.registered_workers,
)

unfoldable pub status : UcxReactor → ReactorStatus
status r = if ltb 0 r.active_or_waiting_count then running else stopped

-- A call at a worker of the reactor.
unfoldable pub call_at : ℕ → Call → UcxReactor → UcxReactor
call_at i a r = elim (get_elem? r.registered_workers i) as (λ x. UcxReactor) [
  | none ↦ r
  | some w ↦
      let (w', c) = call a w r.active_or_waiting_count in
      record { registered_workers = set r.registered_workers i w'; active_or_waiting_count = c }
]

unfoldable pub calls : List (ℕ × Call) → UcxReactor → UcxReactor
calls [] r = r
calls ((i, a) ∷ later) r = calls later (call_at i a r)
