-- ===== src/Executor/Runs.antt =====
-- pluvio_runtime/src/executor/mod.rs: whole runs of `run_queue` and `block_on` from a sound task pool.
use pluvio.Base.{
  ℕ, zero, suc, ◌+◌, ◌<◌, ◌≤◌, ◌≡◌, ◌≢◌, inl, inr, refl, sym, ap, ◌∙◌, subst, Bool, true, false,
  Option, none, some, List, [], ◌∷◌, ltb, leb, lt→ltb, le→ltb, ◌==◌, if◌then◌else◌, Run, done,
  Bool-cases, arith,
}
use pluvio.Executor.Pool.{Slab}
use pluvio.Executor.{Task, Env, Tuning, Runtime}
use pluvio.Executor.Loop.{
  Exit, drained, asked_to_stop, stuck, should_poll_reactors, reactor_phase, task_phases, iterate,
  idle, count_reactor_only, turn, run_queue_from, run_queue, Park, recv_up_to,
}
use pluvio.Executor.Sound.{IsSound, run_all-IsSound, poll_reactors-IsSound}

le→beq : (n : ℕ) → 0 < n → (n == 0) ≡ false
le→beq n h = ground arith

should_poll_reactors-done :
    (overridden : Bool) (interval : ℕ) (polling : List ℕ) (iteration : ℕ)
    → 0 < interval
    → (b : Bool) × (should_poll_reactors overridden interval polling iteration ≡ done b)
unfolding should_poll_reactors
should_poll_reactors-done true interval polling iteration h = (_, refl)
should_poll_reactors-done false interval [] iteration h = elim (Bool-cases (leb iteration 1)) [
  | inl e ↦ rw (e) (_, refl)
  | inr e ↦ rw (e, le→beq interval h) (_, refl)
]
should_poll_reactors-done false interval (id ∷ q) iteration h = (_, refl)

module _ {W Fut S : Type 0} (env : Env W Fut) (slab : Slab S (Option (Task Fut))) where
  reactor_phase-IsSound :
      (should : Bool) (iteration : ℕ) (rt : Runtime W S)
      → IsSound env slab rt.task_pool
      → IsSound env slab (reactor_phase env slab should iteration rt).0.task_pool
  unfolding reactor_phase
  reactor_phase-IsSound true iteration rt h =
      poll_reactors-IsSound env slab rt.reactors iteration rt h
  reactor_phase-IsSound false iteration rt h = h

  task_phases-IsSound :
      (retain : Bool) (polling : List ℕ) (rt : Runtime W S)
      → IsSound env slab rt.task_pool
      → (out : Runtime W S × Bool × Bool) × (task_phases env slab retain polling rt ≡ done out)
        × IsSound env slab out.0.task_pool
  unfolding task_phases
  task_phases-IsSound retain polling rt h =
      let ((rt', polled), e, h') = run_all-IsSound env slab retain polling rt h in
      let (batch, rest) = recv_up_to env.scheduling_config.task_batch_size rt'.task_queue in
      let ((rt'', completed), e', h'') =
        run_all-IsSound env slab retain batch (record rt' { task_queue = rest }) h' in
      rw (e, e') (_, refl, h'')

  -- The interval of the configuration is not zero.
  unfoldable pub HasInterval : Type 0
  HasInterval = 0 < env.scheduling_config.reactor_poll_interval

  iterate-IsSound :
      (retain overridden : Bool) (rt : Runtime W S)
      → HasInterval
      → IsSound env slab rt.task_pool
      → (out : Runtime W S × Bool × Bool × Bool) × (iterate env slab retain overridden rt
          ≡ done out)
        × IsSound env slab out.0.task_pool
  unfolding iterate HasInterval
  iterate-IsSound retain overridden rt i h =
      let (should, e) =
        should_poll_reactors-done overridden env.scheduling_config.reactor_poll_interval
          rt.polling_queue rt.iteration_count i in
      let rt' =
        reactor_phase env slab should rt.iteration_count
          (record rt { iteration_count = rt.iteration_count + 1; polling_queue = [] }) in
      let h' =
        reactor_phase-IsSound should rt.iteration_count
          (record rt { iteration_count = rt.iteration_count + 1; polling_queue = [] }) h in
      let (out, e', h'') = task_phases-IsSound retain rt.polling_queue rt'.0 h' in
      rw (e, e') (_, refl, h'')

  settle-pool :
      (t : Tuning) (should completed : Bool) (rt : Runtime W S)
      → (idle env slab t completed (count_reactor_only env slab should completed rt)).0.task_pool
        ≡ rt.task_pool
  unfolding idle count_reactor_only
  settle-pool t should completed rt = ground arith

  start-IsSound :
      (overridden : Bool) (rt : Runtime W S)
      → IsSound env slab rt.task_pool
      → IsSound env slab (if overridden then record rt { reactor_only_count = 0 } else rt).task_pool
  start-IsSound true rt h = h
  start-IsSound false rt h = h

  turn-IsSound :
      (t : Tuning) (rt : Runtime W S)
      → HasInterval
      → IsSound env slab rt.task_pool
      → (out : Runtime W S × Bool × _) × (turn env slab t rt ≡ done out)
        × IsSound env slab out.0.task_pool
  unfolding turn
  turn-IsSound t rt i h =
      let overridden = leb t.max_reactor_only rt.reactor_only_count in
      let start = if overridden then record rt { reactor_only_count = 0 } else rt in
      let ((rt', should, progress, completed), e, h') =
        iterate-IsSound t.retain_task_stats overridden start i (start-IsSound overridden rt h) in
      rw (e) (_, refl, subst (IsSound env slab) (sym (settle-pool t should completed rt')) h')

  -- What an exit of `run_queue` says of the runtime that it leaves: a stuck one comes out of a turn
  -- without progress, with tasks left and no shutdown requested when it began.
  unfoldable pub Ends : Tuning → Runtime W S → Option Exit → Type 0
  Ends t rt (some drained) = slab.size rt.task_pool ≡ 0
  Ends t rt (some asked_to_stop) = (slab.size rt.task_pool ≢ 0) × (rt.shutdown_requested ≡ true)
  Ends t rt (some stuck) =
      (before : Runtime W S) × (park : Park) × (turn env slab t before ≡ done (rt, false, park))
      × (slab.size before.task_pool ≢ 0)
      × (before.shutdown_requested ≡ false)
  Ends t rt none = Unit

  -- `run_queue` returns without a fault, its fuel used up or not, and leaves a sound pool.
  unfoldable pub IsOrderly : Tuning → Run (Runtime W S × Option Exit) → Type 0
  IsOrderly t r =
      (out : Runtime W S × Option Exit) × (r ≡ done out)
      × IsSound env slab out.0.task_pool
      × Ends t out.0 out.1

  if-IsOrderly :
      (t : Tuning) (b : Bool) (x y : Run (Runtime W S × Option Exit))
      → (b ≡ true → IsOrderly t x)
      → (b ≡ false → IsOrderly t y)
      → IsOrderly t (if b then x else y)
  if-IsOrderly t true x y h k = h refl
  if-IsOrderly t false x y h k = k refl

  run_queue_from-IsOrderly :
      (fuel : ℕ) (t : Tuning) (stuck_counter : ℕ) (rt : Runtime W S)
      → HasInterval
      → IsSound env slab rt.task_pool
      → IsOrderly t (run_queue_from env slab fuel t stuck_counter rt)
  unfolding run_queue_from IsOrderly Ends
  run_queue_from-IsOrderly zero t n rt i h = (_, refl, h, tt)
  run_queue_from-IsOrderly (suc fuel) t n rt i h =
      let ((rt', progress, park), turned, h') = turn-IsSound t rt i h in
      if-IsOrderly t (slab.size rt.task_pool == 0) _ _ (λ e. (_, refl, h, ground (arith, e)))
        (λ e.
          if-IsOrderly t rt.shutdown_requested _ _
            (λ s. (_, refl, h, ((λ z. ground (arith, e, z)), s)))
            (λ s. rw (turned) (
              if-IsOrderly t progress _ _ (λ p. run_queue_from-IsOrderly fuel t 0 rt' i h')
                (λ p.
                  if-IsOrderly t (ltb t.max_stuck_iterations (n + 1)) _ _
                    (λ l.
                      let quiet_turn = turned ∙ ap (λ b. done (rt', b, park)) p in
                      (_, refl, h', (rt, park, quiet_turn, (λ z. ground (arith, e, z)), s)))
                    (λ l. run_queue_from-IsOrderly fuel t (n + 1) rt' i h')))))

  -- With a poll interval that is not zero, from a sound pool and on any fuel, `run_queue` does not
  -- panic and leaves a sound pool; where it says that it is drained the pool is empty, where it says that it
  -- was asked to stop a shutdown was requested and tasks are left, and where it says that it is stuck its
  -- last turn, begun with tasks left and no shutdown requested, made no progress.
  pub run_queue-IsOrderly :
      (fuel : ℕ) (t : Tuning) (rt : Runtime W S)
      → HasInterval
      → IsSound env slab rt.task_pool
      → IsOrderly t (run_queue env slab fuel t rt)
  unfolding run_queue
  run_queue-IsOrderly fuel t rt i h = run_queue_from-IsOrderly fuel t 0 rt i h

  stays_quiet :
      (t : Tuning) (P : Runtime W S → Type 0)
      → ((r : Runtime W S)
          → P r
          → (slab.size r.task_pool == 0 ≡ false) × (r.shutdown_requested ≡ false))
      → ((r : Runtime W S)
          → P r
          → (out : Runtime W S × Bool × Park) × (turn env slab t r ≡ done out)
            × (out.1 ≡ false)
            × P out.0)
      → (fuel n : ℕ) (r : Runtime W S) → n + fuel ≤ t.max_stuck_iterations
      → P r
      → (out : Runtime W S) × (run_queue_from env slab fuel t n r ≡ done (out, none)) × P out
  unfolding run_queue_from
  stays_quiet t P alive quiet zero n r l p = (r, refl, p)
  stays_quiet t P alive quiet (suc fuel) n r l p =
      let ((r', b, park), turned, still, p') = quiet r p in
      let (some_left, going) = alive r p in
      let (out, e, q) = stays_quiet t P alive quiet fuel (n + 1) r' (omega arith) p' in
      rw (turned, some_left, going, still, le→ltb t.max_stuck_iterations (n + 1) (omega arith))
        (out, e, q)

  gives_up :
      (t : Tuning) (P : Runtime W S → Type 0)
      → ((r : Runtime W S)
          → P r
          → (slab.size r.task_pool == 0 ≡ false) × (r.shutdown_requested ≡ false))
      → ((r : Runtime W S)
          → P r
          → (out : Runtime W S × Bool × Park) × (turn env slab t r ≡ done out)
            × (out.1 ≡ false)
            × P out.0)
      → (left fuel n : ℕ) (r : Runtime W S) → n + left ≡ t.max_stuck_iterations
      → left < fuel
      → P r
      → (out : Runtime W S) × (run_queue_from env slab fuel t n r ≡ done (out, some stuck)) × P out
  unfolding run_queue_from
  gives_up t P alive quiet left zero n r e l p = elim l [ ]
  gives_up t P alive quiet zero (suc fuel) n r e l p =
      let ((r', b, park), turned, still, p') = quiet r p in
      let (some_left, going) = alive r p in
      rw (turned, some_left, going, still, lt→ltb t.max_stuck_iterations (n + 1) (omega arith))
        (_, refl, p')
  gives_up t P alive quiet (suc left) (suc fuel) n r e l p =
      let ((r', b, park), turned, still, p') = quiet r p in
      let (some_left, going) = alive r p in
      let (out, e', q) =
        gives_up t P alive quiet left fuel (n + 1) r' (omega arith) (omega arith) p' in
      rw (turned, some_left, going, still, le→ltb t.max_stuck_iterations (n + 1) (omega arith))
        (out, e', q)

  -- Where no turn makes progress while tasks are left and no shutdown is requested, `run_queue` still
  -- runs after `fuel` turns, for every `fuel` up to `max_stuck_iterations`, and given more turns than
  -- that it ends as stuck.
  pub run_queue-stuck :
      (t : Tuning) (P : Runtime W S → Type 0) (rt : Runtime W S) (fuel enough : ℕ)
      → ((r : Runtime W S)
          → P r
          → (slab.size r.task_pool == 0 ≡ false) × (r.shutdown_requested ≡ false))
      → ((r : Runtime W S)
          → P r
          → (out : Runtime W S × Bool × Park) × (turn env slab t r ≡ done out)
            × (out.1 ≡ false)
            × P out.0)
      → P rt
      → fuel ≤ t.max_stuck_iterations
      → t.max_stuck_iterations < enough
      → ((early : Runtime W S) × (run_queue env slab fuel t rt ≡ done (early, none)) × P early)
        × ((out : Runtime W S) × (run_queue env slab enough t rt ≡ done (out, some stuck)) × P out)
  unfolding run_queue
  run_queue-stuck t P rt fuel enough alive quiet p l more = (
    stays_quiet t P alive quiet fuel 0 rt (omega arith) p,
    gives_up t P alive quiet t.max_stuck_iterations enough 0 rt (omega arith) more p,
  )
