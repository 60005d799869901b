-- ===== src/Executor/Tests.antt =====
-- A concrete slab, and the runtime at concrete inputs.
use pluvio.Base.{
  ℕ, zero, suc, ◌+◌, ◌≡◌, refl, ap, Bool, true, false, Option, none, some, List, [], ◌∷◌, ◌++◌,
  length, set, ◌==◌, if◌then◌else◌, done, take, drop, ◌∙◌, Poll, ready, pending, arith,
}
use pluvio.Executor.Pool.{Slab}
use pluvio.Reactor.{stopped}
use pluvio.Executor.{default_config, run_all, Task, Action, wake, Env, Tuning, Runtime}
use pluvio.Executor.Loop.{
  Park, stuck, run_queue, progress, task_phases, iterate, turn, should_poll_reactors, reactor_phase,
  idle, count_reactor_only,
}
use pluvio.Executor.Sound.{IsSound, kept}
use pluvio.Executor.Runs.{HasInterval, IsOrderly, run_queue-IsOrderly, run_queue-stuck}
use pluvio.Executor.Progress.{progress-IsSound}
use pluvio.Executor.Fairness.{Ran, task_phases-in_order}

-- A slab that never takes a key again.
module _ {E : Type 0} where
  abbrev entry : List (Option E) → ℕ → Option E
  entry [] i = none
  entry (o ∷ s) zero = o
  entry (o ∷ s) (suc i) = entry s i

  abbrev count : List (Option E) → ℕ
  count [] = 0
  count (none ∷ s) = count s
  count (some e ∷ s) = suc (count s)

  entry-append :
      (s : List (Option E)) (e : E) (j : ℕ)
      → entry (s ++ some e ∷ []) j ≡ (if j == length s then some e else entry s j)
  entry-append [] e zero = refl
  entry-append [] e (suc j) = ground arith
  entry-append (o ∷ s) e zero = ground arith
  entry-append (o ∷ s) e (suc j) = ground (arith, entry-append s e j)

  entry-length : (s : List (Option E)) → entry s (length s) ≡ none
  entry-length [] = refl
  entry-length (o ∷ s) = entry-length s

  entry-set :
      (s : List (Option E)) (i : ℕ) (e e' : E) (j : ℕ)
      → entry s i ≡ some e
      → entry (set s i (some e')) j ≡ (if j == i then some e' else entry s j)
  entry-set [] i e e' j h = ground (arith, h)
  entry-set (o ∷ s) zero e e' zero h = refl
  entry-set (o ∷ s) zero e e' (suc j) h = ground arith
  entry-set (o ∷ s) (suc i) e e' zero h = ground arith
  entry-set (o ∷ s) (suc i) e e' (suc j) h = ground (arith, entry-set s i e e' j h)

  entry-set-none :
      (s : List (Option E)) (i j : ℕ)
      → entry (set s i none) j ≡ (if j == i then none else entry s j)
  entry-set-none [] i j = ground arith
  entry-set-none (o ∷ s) zero zero = refl
  entry-set-none (o ∷ s) zero (suc j) = ground arith
  entry-set-none (o ∷ s) (suc i) zero = ground arith
  entry-set-none (o ∷ s) (suc i) (suc j) = ground (arith, entry-set-none s i j)

  count-append : (s : List (Option E)) (e : E) → count (s ++ some e ∷ []) ≡ suc (count s)
  count-append [] e = refl
  count-append (none ∷ s) e = count-append s e
  count-append (some x ∷ s) e = ap suc (count-append s e)

  count-set :
      (s : List (Option E)) (i : ℕ) (e e' : E)
      → entry s i ≡ some e
      → count (set s i (some e')) ≡ count s
  count-set [] i e e' h = refl
  count-set (o ∷ s) zero e e' h = ground (arith, h)
  count-set (none ∷ s) (suc i) e e' h = count-set s i e e' h
  count-set (some x ∷ s) (suc i) e e' h = ap suc (count-set s i e e' h)

  count-set-none :
      (s : List (Option E)) (i : ℕ) (e : E)
      → entry s i ≡ some e
      → suc (count (set s i none)) ≡ count s
  count-set-none [] i e h = ground (arith, h)
  count-set-none (o ∷ s) zero e h = ground (arith, h)
  count-set-none (none ∷ s) (suc i) e h = count-set-none s i e h
  count-set-none (some x ∷ s) (suc i) e h = ap suc (count-set-none s i e h)

abbrev slab : {E : Type 0} → Slab (List (Option E)) E
slab = record {
  insert = λ s e. (s ++ some e ∷ [], length s);
  get = entry;
  replace = λ s i e. set s i (some e);
  remove = λ s i. set s i none;
  size = count;
  insert_vacant = λ s e. entry-length s;
  get-insert = entry-append;
  get-replace = entry-set;
  get-remove = entry-set-none;
  size-insert = count-append;
  size-replace = count-set;
  size-remove = count-set-none;
}

-- A future counts the polls that it needs, and wakes itself until it is done.
abbrev counting : Env ℕ ℕ
counting = record {
  scheduling_config = default_config;
  poll_future = λ w f id. elim f as (λ x. Poll (Unit {0}) × ℕ × ℕ × List (Action ℕ)) [
    | zero ↦ (ready tt, 0, w + 1, [])
    | suc n ↦ (pending, n, w + 1, wake false id ∷ [])
  ];
  poll_reactor = λ w r. (w, []);
  reactor_status = λ w r. stopped;
}

-- A future that is never done, and that nothing wakes.
abbrev hanging : Env ℕ ℕ
hanging = record {
  scheduling_config = default_config;
  poll_future = λ w f id. (pending, f, w, []);
  poll_reactor = λ w r. (w, []);
  reactor_status = λ w r. stopped;
}

abbrev tuning : Tuning
tuning = record {
  max_stuck_iterations = 3;
  max_reactor_only = 0;
  idle_park = false;
  idle_yield_after = 10000;
  idle_sleep_after = 100000;
  retain_task_stats = true;
}

abbrev task : ℕ → Task ℕ
task f = record { future = f; to_polling = false; task_stat = some 7 }

abbrev pool : List (Option (Option (Task ℕ)))
pool = some (some (task 1)) ∷ some (some (task 0)) ∷ []

abbrev runtime : List ℕ → ℕ → Runtime ℕ (List (Option (Option (Task ℕ))))
runtime queue iteration = record {
  reactors = [];
  task_queue = queue;
  polling_queue = [];
  task_pool = pool;
  finished_task_stats = [];
  shutdown_requested = false;
  iteration_count = iteration;
  idle_iter_count = 0;
  reactor_only_count = 0;
  world = 0;
}

pool-IsSound : (env : Env ℕ ℕ) → IsSound env slab pool
unfolding IsSound kept
pool-IsSound env zero = refl
pool-IsSound env (suc zero) = refl
pool-IsSound env (suc (suc j)) = refl

counting-HasInterval : HasInterval counting slab
unfolding HasInterval
counting-HasInterval = omega arith

run_queue-IsOrderly_example :
    IsOrderly counting slab tuning (run_queue counting slab 5 tuning (runtime (0 ∷ 1 ∷ []) 0))
run_queue-IsOrderly_example =
    run_queue-IsOrderly counting slab 5 tuning (runtime (0 ∷ 1 ∷ []) 0) counting-HasInterval
      (pool-IsSound counting)

abbrev Waiting : Runtime ℕ (List (Option (Option (Task ℕ)))) → Type 0
Waiting r = (n : ℕ) × (r ≡ runtime [] n)

turn-Waiting :
    (n : ℕ)
    → (out : Runtime ℕ (List (Option (Option (Task ℕ)))) × Bool × Park) × (turn hanging slab tuning
          (runtime [] n)
        ≡ done out)
      × (out.1 ≡ false)
      × Waiting out.0
unfolding turn iterate should_poll_reactors reactor_phase task_phases idle count_reactor_only
    run_all
turn-Waiting n = (_, refl, refl, (n + 1, refl))

run_queue-stuck_example :
    ((early : Runtime ℕ (List (Option (Option (Task ℕ))))) × (run_queue hanging slab 3 tuning
          (runtime [] 5)
        ≡ done (early, none))
      × Waiting early)
    × ((out : Runtime ℕ (List (Option (Option (Task ℕ))))) × (run_queue hanging slab 9 tuning
            (runtime [] 5)
          ≡ done (out, some stuck))
        × Waiting out)
run_queue-stuck_example =
    run_queue-stuck hanging slab tuning Waiting (runtime [] 5) 3 9 alive quiet (5, refl)
      (omega arith) (omega arith)
  where
    alive :
        (r : Runtime ℕ (List (Option (Option (Task ℕ)))))
        → Waiting r
        → (slab.size r.task_pool == 0 ≡ false) × (r.shutdown_requested ≡ false)
    alive r (n, e) = (ap (λ x. count x.task_pool == 0) e, ap (λ x. x.shutdown_requested) e)

    quiet :
        (r : Runtime ℕ (List (Option (Option (Task ℕ)))))
        → Waiting r
        → (out : Runtime ℕ (List (Option (Option (Task ℕ)))) × Bool × Park) × (turn hanging slab
              tuning r
            ≡ done out)
          × (out.1 ≡ false)
          × Waiting out.0
    quiet r (n, e) =
        let (out, turned, still, rest) = turn-Waiting n in
        (out, ap (turn hanging slab tuning) e ∙ turned, still, rest)

task_phases-in_order_example :
    (mid out : Runtime ℕ (List (Option (Option (Task ℕ))))) × (sent_first sent_last : List ℕ)
    × (polled completed : Bool) × (task_phases counting slab true (0 ∷ []) (runtime (1 ∷ []) 0)
        ≡ done (out, polled, completed))
    × Ran counting slab true (0 ∷ []) (runtime (1 ∷ []) 0) mid polled
    × (mid.task_queue ≡ 1 ∷ sent_first)
    × Ran counting slab true
        (take 16 mid.task_queue)
        (record mid { task_queue = drop 16 mid.task_queue })
        out
        completed
    × (out.task_queue ≡ drop 16 mid.task_queue ++ sent_last)
task_phases-in_order_example =
    task_phases-in_order counting slab true (0 ∷ []) (runtime (1 ∷ []) 0) (pool-IsSound counting)

progress-IsSound_example :
    (out : Runtime ℕ (List (Option (Option (Task ℕ))))) × (progress counting slab true
        (runtime (0 ∷ 1 ∷ []) 0)
      ≡ done out)
    × IsSound counting slab out.task_pool
progress-IsSound_example =
    progress-IsSound counting slab true (runtime (0 ∷ 1 ∷ []) 0) (pool-IsSound counting)
