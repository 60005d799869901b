-- ===== src/Executor.antt =====
-- pluvio_runtime/src/executor/mod.rs: the runtime's event loop. Futures and reactors are the
-- program's clients: what a poll of one does is given by `Env`. The two task queues are the lists of
-- the ids that their unbounded channels hold, as `Spsc` shows of the channel. A HashMap of reactors is
-- the list of its entries in the order in which it is iterated. Times and log lines are left out.
mod Pool
mod Loop
mod Sound
mod Runs
mod Tests
mod Fairness
mod Progress
use pluvio.Reactor.{ReactorStatus, running, stopped}
use pluvio.Base.{
  ℕ, zero, suc, ◌+◌, ◌-◌, ◌^◌, ◌%◌, ◌≡◌, Bool, true, false, not, ◌&&◌, ◌||◌, Option, none, some,
  List, [], ◌∷◌, ◌++◌, ltb, leb, ◌==◌, if◌then◌else◌, take, drop, Run, done, fault, panic, ◌>>=◌,
  Poll, ready, pending,
}
use Pool.{Slab}

pub record SchedulingConfig : Type 0 where
  pub task_batch_size : ℕ
  pub reactor_poll_interval : ℕ
  pub status_cache_iterations : ℕ

abbrev pub default_config : SchedulingConfig
default_config = record {
  task_batch_size = 16;
  reactor_poll_interval = 8;
  status_cache_iterations = 100;
}

-- `reactor` names the reactor instance.
pub record ReactorWrapper : Type 0 where
  pub reactor : ℕ
  pub poll_counter : ℕ
  pub enable : Bool
  pub cached_status : ReactorStatus
  pub cache_valid_until_iteration : ℕ

-- A task sends its id to the polling queue or to the normal one; `task_stat` is the name that its
-- statistics hold, until they are taken.
pub record Task (Fut : Type 0) : Type 0 where
  pub future : Fut
  pub to_polling : Bool
  pub task_stat : Option ℕ

-- What a poll of a future or of a reactor asks of the runtime, in order: a waker called, a task
-- spawned, a shutdown requested.
pub data Action (Fut : Type 0) : Type 0 where
  wake : Bool → ℕ → Action Fut
  spawn : Bool → ℕ → Fut → Action Fut
  shutdown : Action Fut

-- What a run does not change: the clients, and the runtime's field `scheduling_config`.
pub record Env (W Fut : Type 0) : Type 0 where
  pub scheduling_config : SchedulingConfig
  pub poll_future : W → Fut → ℕ → Poll (Unit {0}) × Fut × W × List (Action Fut)
  pub poll_reactor : W → ℕ → W × List (Action Fut)
  pub reactor_status : W → ℕ → ReactorStatus

-- The environment variables that `run_queue` reads.
pub record Tuning : Type 0 where
  pub max_stuck_iterations : ℕ
  pub max_reactor_only : ℕ
  pub idle_park : Bool
  pub idle_yield_after : ℕ
  pub idle_sleep_after : ℕ
  pub retain_task_stats : Bool

pub record Runtime (W S : Type 0) : Type 0 where
  pub reactors : List ReactorWrapper
  pub task_queue : List ℕ
  pub polling_queue : List ℕ
  pub task_pool : S
  pub finished_task_stats : List ℕ
  pub shutdown_requested : Bool
  pub iteration_count : ℕ
  pub idle_iter_count : ℕ
  pub reactor_only_count : ℕ
  pub world : W

-- `add_task_stat` on the slot: the statistics are taken, and kept if so configured.
abbrev pub add_task_stat :
    {Fut : Type 0} → Bool → Option (Option (Task Fut)) → List ℕ → Run (List ℕ)
add_task_stat retain none stats = done stats
add_task_stat retain (some none) stats = done stats
add_task_stat retain (some (some t)) stats = elim t.task_stat [
  | none ↦ fault panic
  | some name ↦ done (if retain then stats ++ name ∷ [] else stats)
]

abbrev pub finished : Option (Poll (Unit {0})) → Bool
finished none = false
finished (some pending) = false
finished (some (ready u)) = true

module _ {W Fut S : Type 0} (env : Env W Fut) (slab : Slab S (Option (Task Fut))) where
  -- `task_sender.send(id)`, or `polling_task_sender.send(id)`
  pub enqueue : Bool → ℕ → Runtime W S → Runtime W S
  enqueue true id rt = record rt { polling_queue = rt.polling_queue ++ id ∷ [] }
  enqueue false id rt = record rt { task_queue = rt.task_queue ++ id ∷ [] }

  -- `spawn_with_runtime` and its three variants.
  pub spawn_task : Bool → ℕ → Fut → Runtime W S → Runtime W S
  unfolding enqueue
  spawn_task polling name f rt =
      let task : Task Fut = record { future = f; to_polling = polling; task_stat = some name } in
      let (pool, id) = slab.insert rt.task_pool (some task) in
      enqueue polling id (record rt { task_pool = pool })

  pub request_shutdown : Runtime W S → Runtime W S
  request_shutdown rt = record rt { shutdown_requested = true }

  pub perform : Action Fut → Runtime W S → Runtime W S
  perform (wake polling id) rt = enqueue polling id rt
  perform (spawn polling name f) rt = spawn_task polling name f rt
  perform shutdown rt = request_shutdown rt

  pub perform_all : List (Action Fut) → Runtime W S → Runtime W S
  perform_all [] rt = rt
  perform_all (a ∷ later) rt = perform_all later (perform a rt)

  pub get_cached_reactor_status :
      SchedulingConfig → W → ReactorWrapper → ℕ → ReactorStatus × ReactorWrapper
  get_cached_reactor_status c w r current =
      let status = env.reactor_status w r.reactor in
      if ltb current r.cache_valid_until_iteration then (r.cached_status, r) else (
        status,
        record r {
          cached_status = status;
          cache_valid_until_iteration = (current + c.status_cache_iterations) % 2 ^ 64;
        },
      )

  -- One enabled reactor's turn: the wrapper that it leaves, and whether it was polled.
  pub poll_one : ReactorWrapper → ℕ → Runtime W S → ReactorWrapper × Runtime W S × Bool
  poll_one r iteration rt =
      let (status, r') = get_cached_reactor_status env.scheduling_config rt.world r iteration in
      let (w, acts) = env.poll_reactor rt.world r.reactor in
      elim status [
        | stopped ↦ (r', rt, false)
        | running ↦ (
          record r' { poll_counter = r'.poll_counter + 1 },
          perform_all acts (record rt { world = w }),
          true,
        )
      ]

  pub poll_reactors :
      List ReactorWrapper → ℕ → Runtime W S → List ReactorWrapper × Runtime W S × Bool
  poll_reactors [] iteration rt = ([], rt, false)
  poll_reactors (r ∷ rs) iteration rt =
      let (r', rt', polled) = if r.enable then poll_one r iteration rt else (r, rt, false) in
      let (rs', rt'', more) = poll_reactors rs iteration rt' in (r' ∷ rs', rt'', polled || more)

  -- The slot, where it is still there, takes the task back.
  unfoldable pub put_back : ℕ → Task Fut → S → S
  put_back id task pool = elim (slab.get pool id) [
    | none ↦ pool
    | some slot ↦ slab.replace pool id (some task)
  ]

  -- `Runtime::poll_task` on a slot that holds a task: it is taken out, polled, and put back.
  unfoldable pub poll_present : ℕ → Task Fut → Runtime W S → Runtime W S × Option (Poll (Unit {0}))
  poll_present id task rt =
      let pool = slab.replace rt.task_pool id none in
      let (p, f, w, acts) = env.poll_future rt.world task.future id in
      let rt' = perform_all acts (record rt { task_pool = pool; world = w }) in
      (record rt' { task_pool = put_back id (record task { future = f }) rt'.task_pool }, some p)

  pub poll_task : ℕ → Runtime W S → Runtime W S × Option (Poll (Unit {0}))
  unfolding poll_present
  poll_task id rt = elim (slab.get rt.task_pool id) [
    | none ↦ (rt, none)
    | some slot ↦ elim slot [ none ↦ (rt, none) | some task ↦ poll_present id task rt ]
  ]

  -- One turn of the loops over a buffer of task ids.
  unfoldable pub run_one : Bool → ℕ → Runtime W S → Run (Runtime W S × Bool)
  run_one retain id rt =
      let (rt', p) = poll_task id rt in
      let finish = do
        stats ← add_task_stat retain (slab.get rt'.task_pool id) rt'.finished_task_stats
        done (
          record rt' { finished_task_stats = stats; task_pool = slab.remove rt'.task_pool id },
          true,
        )
      in if finished p then finish else done (rt', false)

  unfoldable pub run_all : Bool → List ℕ → Runtime W S → Run (Runtime W S × Bool)
  run_all retain [] rt = done (rt, false)
  run_all retain (id ∷ ids) rt = do
    (rt', first) ← run_one retain id rt
    (rt'', more) ← run_all retain ids rt'
    done (rt'', first || more)
