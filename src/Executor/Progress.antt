-- ===== src/Executor/Progress.antt =====
-- pluvio_runtime/src/executor/mod.rs: `progress` from a sound task pool.
use pluvio.Base.{
  ℕ, zero, suc, ◌+◌, ◌≡◌, refl, Bool, true, false, ◌&&◌, Option, List, [], ◌∷◌, if◌then◌else◌, done,
}
use pluvio.Executor.Pool.{Slab}
use pluvio.Executor.{ReactorWrapper, Task, Env, Runtime, perform_all}
use pluvio.Executor.Loop.{is_running, poll_reactors_uncached, progress_tasks, progress}
use pluvio.Executor.Sound.{IsSound, run_one-IsSound, run_all-IsSound, perform_all-IsSound}

module _ {W Fut S : Type 0} (env : Env W Fut) (slab : Slab S (Option (Task Fut))) where
  if-IsSound_pair :
      (b : Bool) (x y : ReactorWrapper × Runtime W S)
      → IsSound env slab x.1.task_pool
      → IsSound env slab y.1.task_pool
      → IsSound env slab (if b then x else y).1.task_pool
  if-IsSound_pair true x y h k = h
  if-IsSound_pair false x y h k = k

  poll_reactors_uncached-IsSound :
      (rs : List ReactorWrapper) (rt : Runtime W S)
      → IsSound env slab rt.task_pool
      → IsSound env slab (poll_reactors_uncached env slab rs rt).1.task_pool
  unfolding poll_reactors_uncached
  poll_reactors_uncached-IsSound [] rt h = h
  poll_reactors_uncached-IsSound (r ∷ rs) rt h =
      let (w, acts) = env.poll_reactor rt.world r.reactor in
      let up = r.enable && is_running (env.reactor_status rt.world r.reactor) in
      let polled : ReactorWrapper × Runtime W S = (
        record r { poll_counter = r.poll_counter + 1 },
        perform_all env slab acts (record rt { world = w }),
      ) in
      poll_reactors_uncached-IsSound rs (if up then polled else (r, rt)).1 (
        if-IsSound_pair up polled (r, rt)
          (perform_all-IsSound env slab acts (record rt { world = w }) h) h)

  progress_tasks-IsSound :
      (left : ℕ) (retain : Bool) (rt : Runtime W S)
      → IsSound env slab rt.task_pool
      → (out : Runtime W S) × (progress_tasks env slab left retain rt ≡ done out)
        × IsSound env slab out.task_pool
  unfolding progress_tasks
  progress_tasks-IsSound zero retain rt h = (rt, refl, h)
  progress_tasks-IsSound (suc left) retain rt h =
      go rt.task_queue (progress_tasks-IsSound left retain)
    where
      go :
          (q : List ℕ)
          → ((r : Runtime W S)
              → IsSound env slab r.task_pool
              → (out : Runtime W S) × (progress_tasks env slab left retain r ≡ done out)
                × IsSound env slab out.task_pool)
          → (out : Runtime W S) × (progress_tasks env slab
                (suc left)
                retain
                (record rt { task_queue = q })
              ≡ done out)
            × IsSound env slab out.task_pool
      go [] next = (record rt { task_queue = [] }, refl, h)
      go (id ∷ q) next =
          let ((rt', finished), e, h') =
            run_one-IsSound env slab retain id (record rt { task_queue = q }) h in
          let (out, e', h'') = next rt' h' in rw (e) (out, e', h'')

  -- From a sound pool `progress` returns, without a panic, and leaves a sound pool.
  pub progress-IsSound :
      (retain : Bool) (rt : Runtime W S)
      → IsSound env slab rt.task_pool
      → (out : Runtime W S) × (progress env slab retain rt ≡ done out)
        × IsSound env slab out.task_pool
  unfolding progress
  progress-IsSound retain rt h =
      let (rs, rt') = poll_reactors_uncached env slab rt.reactors rt in
      let h' = poll_reactors_uncached-IsSound rt.reactors rt h in
      let ((rt'', finished), e, h'') =
        run_all-IsSound env slab retain rt'.polling_queue
          (record rt' { reactors = rs; polling_queue = [] }) h' in
      let (out, e', h''') = progress_tasks-IsSound 100 retain rt'' h'' in rw (e) (out, e', h''')
