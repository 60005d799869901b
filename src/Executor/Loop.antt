-- ===== src/Executor/Loop.antt =====
-- pluvio_runtime/src/executor/mod.rs: the event loops `run_queue`, `block_on` and `progress`, which
-- share the body of an iteration. Log lines and dumps are left out, and the sleeps of a loop that
-- makes no progress. A count of iterations stays below 2 ^ 64.
use pluvio.Base.{
  ℕ, zero, suc, ◌+◌, ◌^◌, ◌%◌, Bool, true, false, not, ◌&&◌, ◌||◌, Option, none, some, List, [],
  ◌∷◌, ltb, leb, ◌==◌, if◌then◌else◌, is_some, Run, done, fault, panic, ◌>>=◌,
}
use pluvio.Executor.Pool.{Slab}
use pluvio.Reactor.{ReactorStatus, running, stopped}
use pluvio.Executor.{
  ReactorWrapper, Task, Env, Tuning, Runtime, perform_all, spawn_task, poll_reactors, run_one,
  run_all,
}

-- What `run_queue` does when it is idle.
pub data Park : Type 0 where
  no_park yield_now sleep : Park

-- How `run_queue` ends.
pub data Exit : Type 0 where
  drained asked_to_stop stuck : Exit

-- At most `n` calls of `try_recv`: the ids received, and those left in the channel.
abbrev pub recv_up_to : ℕ → List ℕ → List ℕ × List ℕ
recv_up_to zero q = ([], q)
recv_up_to (suc n) [] = ([], [])
recv_up_to (suc n) (id ∷ q) = let (got, rest) = recv_up_to n q in (id ∷ got, rest)

abbrev is_empty : List ℕ → Bool
is_empty [] = true
is_empty (id ∷ q) = false

abbrev pub is_running : ReactorStatus → Bool
is_running running = true
is_running stopped = false

-- `%` by a zero interval panics.
unfoldable pub should_poll_reactors : Bool → ℕ → List ℕ → ℕ → Run Bool
should_poll_reactors overridden interval polling iteration =
    if overridden
    then done false
    else if not (is_empty polling) || leb iteration 1
    then done true
    else if interval == 0
    then fault panic
    else done (iteration % interval == 0)

module _ {W Fut S : Type 0} (env : Env W Fut) (slab : Slab S (Option (Task Fut))) where
  unfoldable pub reactor_phase : Bool → ℕ → Runtime W S → Runtime W S × Bool
  reactor_phase should iteration rt =
      let (rs, rt', polled) = poll_reactors env slab rt.reactors iteration rt in
      if should then (record rt' { reactors = rs }, polled) else (rt, false)

  -- The polling tasks, then a batch of the normal ones: whether one of each was finished.
  unfoldable pub task_phases : Bool → List ℕ → Runtime W S → Run (Runtime W S × Bool × Bool)
  task_phases retain polling rt = do
    (rt', polled) ← run_all env slab retain polling rt
    let (batch, rest) = recv_up_to env.scheduling_config.task_batch_size rt'.task_queue
    (rt'', completed) ← run_all env slab retain batch (record rt' { task_queue = rest })
    done (rt'', polled, completed)

  -- The body of an iteration: whether reactors were to be polled, whether there was progress, and
  -- whether a normal task completed.
  unfoldable pub iterate : Bool → Bool → Runtime W S → Run (Runtime W S × Bool × Bool × Bool)
  iterate retain overridden rt = do
    let iteration = rt.iteration_count
    let polling = rt.polling_queue
    should ←
        should_poll_reactors overridden env.scheduling_config.reactor_poll_interval polling
          iteration
    let (rt', reacted) =
        reactor_phase should iteration
          (record rt { iteration_count = iteration + 1; polling_queue = [] })
    (rt'', polled, completed) ← task_phases retain polling rt'
    done (rt'', should, reacted || polled || completed, completed)

  unfoldable pub idle : Tuning → Bool → Runtime W S → Runtime W S × Park
  idle t completed rt =
      let idle_iter = (rt.idle_iter_count + 1) % 2 ^ 64 in
      if t.idle_park && not completed
      then (
        record rt { idle_iter_count = idle_iter },
        if leb t.idle_yield_after idle_iter
            then (if ltb idle_iter t.idle_sleep_after then yield_now else sleep)
            else no_park,
      )
      else (record rt { idle_iter_count = 0 }, no_park)

  unfoldable pub count_reactor_only : Bool → Bool → Runtime W S → Runtime W S
  count_reactor_only should completed rt =
      if not completed && should
      then record rt { reactor_only_count = (rt.reactor_only_count + 1) % 2 ^ 64 }
      else if completed
      then record rt { reactor_only_count = 0 }
      else rt

  -- One turn of the `while` of `run_queue`, up to the check whether it is stuck.
  unfoldable pub turn : Tuning → Runtime W S → Run (Runtime W S × Bool × Park)
  turn t rt = do
    let overridden = leb t.max_reactor_only rt.reactor_only_count
    let start = if overridden then record rt { reactor_only_count = 0 } else rt
    (rt', should, progress, completed) ← iterate t.retain_task_stats overridden start
    let (rt'', park) = idle t completed (count_reactor_only should completed rt')
    done (rt'', progress, park)

  -- `run_queue`, from a value of `stuck_counter`. On fuel: no exit where it is used up.
  unfoldable pub run_queue_from : ℕ → Tuning → ℕ → Runtime W S → Run (Runtime W S × Option Exit)
  run_queue_from zero t stuck_counter rt = done (rt, none)
  run_queue_from (suc fuel) t stuck_counter rt =
      if slab.size rt.task_pool == 0
      then done (rt, some drained)
      else if rt.shutdown_requested
      then done (rt, some asked_to_stop)
      else turn t rt >>= λ (rt', progress, park).
          if progress
          then run_queue_from fuel t 0 rt'
          else if ltb t.max_stuck_iterations (stuck_counter + 1)
          then done (rt', some stuck)
          else run_queue_from fuel t (stuck_counter + 1) rt'

  unfoldable pub run_queue : ℕ → Tuning → Runtime W S → Run (Runtime W S × Option Exit)
  unfolding run_queue_from
  run_queue fuel t rt = run_queue_from fuel t 0 rt

  -- The loop of `block_on`, until the task `target` is gone: whether it was, before the fuel was used
  -- up. The result that the task leaves to its caller is not modelled.
  unfoldable pub block_on_from : ℕ → Tuning → ℕ → ℕ → Runtime W S → Run (Runtime W S × Bool)
  block_on_from zero t target stuck_counter rt = done (rt, false)
  block_on_from (suc fuel) t target stuck_counter rt =
      if not (is_some (slab.get rt.task_pool target))
      then done (rt, true)
      else iterate t.retain_task_stats false rt >>= λ (rt', should, progress, completed).
          if progress
          then block_on_from fuel t target 0 rt'
          else if ltb t.max_stuck_iterations (stuck_counter + 1)
          then fault panic
          else block_on_from fuel t target (stuck_counter + 1) rt'

  -- `block_on_with_name_and_runtime`.
  unfoldable pub block_on : ℕ → Tuning → ℕ → Fut → Runtime W S → Run (Runtime W S × Bool)
  unfolding block_on_from
  block_on fuel t name f rt =
      let task : Task Fut = record { future = f; to_polling = false; task_stat = some name } in
      let target = (slab.insert rt.task_pool (some task)).1 in
      block_on_from fuel t target 0 (spawn_task env slab false name f rt)

  -- `progress` looks at the reactors' status itself, whatever the cache holds.
  unfoldable pub poll_reactors_uncached :
      List ReactorWrapper → Runtime W S → List ReactorWrapper × Runtime W S
  poll_reactors_uncached [] rt = ([], rt)
  poll_reactors_uncached (r ∷ rs) rt =
      let up = r.enable && is_running (env.reactor_status rt.world r.reactor) in
      let (w, acts) = env.poll_reactor rt.world r.reactor in
      let polled : ReactorWrapper × Runtime W S = (
        record r { poll_counter = r.poll_counter + 1 },
        perform_all env slab acts (record rt { world = w }),
      ) in
      let (r', rt') = if up then polled else (r, rt) in
      let (rs', rt'') = poll_reactors_uncached rs rt' in (r' ∷ rs', rt'')

  -- One task at a time: those that it wakes come into the same call.
  unfoldable pub progress_tasks : ℕ → Bool → Runtime W S → Run (Runtime W S)
  progress_tasks zero retain rt = done rt
  progress_tasks (suc left) retain rt = elim rt.task_queue [
    | [] ↦ done rt
    | id ∷ q ↦ run_one env slab retain id (record rt { task_queue = q }) >>= λ (rt', finished).
        progress_tasks left retain rt'
  ]

  -- `progress`.
  unfoldable pub progress : Bool → Runtime W S → Run (Runtime W S)
  unfolding poll_reactors_uncached progress_tasks
  progress retain rt = do
    let (rs, rt') = poll_reactors_uncached rt.reactors rt
    let polling = rt'.polling_queue
    (rt'', finished) ←
        run_all env slab retain polling (record rt' { reactors = rs; polling_queue = [] })
    progress_tasks 100 retain rt''
