-- ===== src/Executor/Sound.antt =====
-- pluvio_runtime/src/executor/mod.rs: every slot of the task pool holds its task, and every task the
-- statistics that `add_task_stat` unwraps, between two polls.
use pluvio.Base.{
  ℕ, ◌≡◌, ◌⊎◌, inl, inr, refl, sym, ap, ◌∙◌, Bool, true, false, Option, none, some, List, [], ◌∷◌,
  ◌==◌, if◌then◌else◌, is_some, done, Poll, Bool-cases, Option-cases, arith,
}
use pluvio.Executor.Pool.{Slab}
use pluvio.Reactor.{ReactorStatus, running, stopped}
use pluvio.Executor.{
  ReactorWrapper, Task, Action, wake, spawn, shutdown, Env, Runtime, enqueue, spawn_task,
  request_shutdown, perform, perform_all, get_cached_reactor_status, poll_one, poll_reactors,
  put_back, poll_present, poll_task, add_task_stat, finished, run_one, run_all,
}

-- A slot of the pool that is not vacant holds a task, with its statistics.
unfoldable pub kept : {Fut : Type 0} → Option (Option (Task Fut)) → Bool
kept none = true
kept (some none) = false
kept (some (some t)) = is_some t.task_stat

add_task_stat-held :
    {Fut : Type 0}
    → (retain : Bool) (t : Task Fut) (stats : List ℕ) → is_some t.task_stat ≡ true
    → (out : List ℕ) × (add_task_stat retain (some (some t)) stats ≡ done out)
add_task_stat-held retain t stats s = elim (Option-cases t.task_stat) [
  | inl n ↦ ground (arith, n, s)
  | inr (name, n) ↦ rw (n, add_task_stat) (_, refl)
]

pub ReactorStatus-cases : (s : ReactorStatus) → (s ≡ running) ⊎ (s ≡ stopped)
ReactorStatus-cases running = inl refl
ReactorStatus-cases stopped = inr refl

module _ {W Fut S : Type 0} (env : Env W Fut) (slab : Slab S (Option (Task Fut))) where
  unfoldable pub IsSound : S → Type 0
  IsSound pool = (j : ℕ) → kept (slab.get pool j) ≡ true

  -- While the task `id` is polled, its slot alone is empty.
  unfoldable pub IsTaken : ℕ → S → Type 0
  IsTaken id pool =
      (slab.get pool id ≡ some none) × ((j : ℕ) → j == id ≡ false → kept (slab.get pool j) ≡ true)

  pub get-insert_old :
      (pool : S) (e e' : Option (Task Fut)) (i : ℕ)
      → slab.get pool i ≡ some e'
      → slab.get (slab.insert pool e).0 i ≡ some e'
  get-insert_old pool e e' i h = ground (arith, slab.get-insert pool e i, slab.insert_vacant pool e)

  insert-kept :
      (pool : S) (slot : Option (Task Fut)) (j : ℕ)
      → kept (some slot) ≡ true
      → kept (slab.get pool j) ≡ true
      → kept (slab.get (slab.insert pool slot).0 j) ≡ true
  insert-kept pool slot j e h = ground (arith, slab.get-insert pool slot j)

  insert-IsTaken :
      (id : ℕ) (pool : S) (t : Task Fut)
      → is_some t.task_stat ≡ true
      → IsTaken id pool
      → IsTaken id (slab.insert pool (some t)).0
  unfolding IsTaken kept
  insert-IsTaken id pool t e (h, k) =
      (get-insert_old pool (some t) none id h, λ j n. insert-kept pool (some t) j e (k j n))

  perform-IsTaken :
      (id : ℕ) (a : Action Fut) (rt : Runtime W S)
      → IsTaken id rt.task_pool
      → IsTaken id (perform env slab a rt).task_pool
  unfolding perform spawn_task enqueue request_shutdown
  perform-IsTaken id (wake true j) rt h = h
  perform-IsTaken id (wake false j) rt h = h
  perform-IsTaken id (spawn true name f) rt h = insert-IsTaken id rt.task_pool _ refl h
  perform-IsTaken id (spawn false name f) rt h = insert-IsTaken id rt.task_pool _ refl h
  perform-IsTaken id shutdown rt h = h

  perform_all-IsTaken :
      (id : ℕ) (acts : List (Action Fut)) (rt : Runtime W S)
      → IsTaken id rt.task_pool
      → IsTaken id (perform_all env slab acts rt).task_pool
  unfolding perform_all
  perform_all-IsTaken id [] rt h = h
  perform_all-IsTaken id (a ∷ later) rt h =
      perform_all-IsTaken id later (perform env slab a rt) (perform-IsTaken id a rt h)

  insert-IsSound :
      (pool : S) (t : Task Fut)
      → is_some t.task_stat ≡ true
      → IsSound pool
      → IsSound (slab.insert pool (some t)).0
  unfolding IsSound kept
  insert-IsSound pool t e h j = insert-kept pool (some t) j e (h j)

  pub perform-IsSound :
      (a : Action Fut) (rt : Runtime W S)
      → IsSound rt.task_pool
      → IsSound (perform env slab a rt).task_pool
  unfolding perform spawn_task enqueue request_shutdown
  perform-IsSound (wake true j) rt h = h
  perform-IsSound (wake false j) rt h = h
  perform-IsSound (spawn true name f) rt h = insert-IsSound rt.task_pool _ refl h
  perform-IsSound (spawn false name f) rt h = insert-IsSound rt.task_pool _ refl h
  perform-IsSound shutdown rt h = h

  pub perform_all-IsSound :
      (acts : List (Action Fut)) (rt : Runtime W S)
      → IsSound rt.task_pool
      → IsSound (perform_all env slab acts rt).task_pool
  unfolding perform_all
  perform_all-IsSound [] rt h = h
  perform_all-IsSound (a ∷ later) rt h =
      perform_all-IsSound later (perform env slab a rt) (perform-IsSound a rt h)

  take_out-IsTaken :
      (id : ℕ) (pool : S) (t : Task Fut)
      → slab.get pool id ≡ some (some t)
      → IsSound pool
      → IsTaken id (slab.replace pool id none)
  unfolding IsTaken IsSound
  take_out-IsTaken id pool t e h = (
    ground (arith, slab.get-replace pool id (some t) none id e),
    λ j n. ground (arith, h j, slab.get-replace pool id (some t) none j e),
  )

  put_back-IsSound :
      (id : ℕ) (pool : S) (t : Task Fut)
      → is_some t.task_stat ≡ true
      → IsTaken id pool
      → (slab.get (put_back env slab id t pool) id ≡ some (some t))
        × IsSound (put_back env slab id t pool)
  unfolding IsTaken IsSound kept put_back
  put_back-IsSound id pool t s (e, h) =
      rw (e, put_back)
        (
          ground (arith, slab.get-replace pool id none (some t) id e),
          λ j. elim (Bool-cases (j == id)) [
            | inl i ↦ ground (arith, slab.get-replace pool id none (some t) j e)
            | inr i ↦ ground (arith, h j i, slab.get-replace pool id none (some t) j e)
          ],
        )

  -- After a poll, the slot of a task that was polled holds it again, with its statistics.
  Held : ℕ → S → Option (Poll (Unit {0})) → Type 0
  Held id pool p =
      finished p ≡ true
      → (t : Task Fut) × (slab.get pool id ≡ some (some t)) × (is_some t.task_stat ≡ true)

  poll_present_lem :
      (id : ℕ) (t : Task Fut) (rt : Runtime W S)
      → slab.get rt.task_pool id ≡ some (some t)
      → IsSound rt.task_pool
      → let (rt', p) = poll_present env slab id t rt in
        IsSound rt'.task_pool × Held id rt'.task_pool p
  unfolding poll_present Held IsSound kept
  poll_present_lem id t rt e h =
      let (p, f, w, acts) = env.poll_future rt.world t.future id in
      let s : is_some t.task_stat ≡ true = ap kept (sym e) ∙ h id in
      let taken =
        perform_all-IsTaken id acts
          (record rt { task_pool = slab.replace rt.task_pool id none; world = w })
          (take_out-IsTaken id rt.task_pool t e h) in
      let (back, sound) = put_back-IsSound id _ (record t { future = f }) s taken in
      (sound, λ q. (record t { future = f }, back, s))

  poll_task_lem :
      (id : ℕ) (rt : Runtime W S)
      → IsSound rt.task_pool
      → let (rt', p) = poll_task env slab id rt in IsSound rt'.task_pool × Held id rt'.task_pool p
  unfolding poll_task Held
  poll_task_lem id rt h = elim (Option-cases (slab.get rt.task_pool id)) [
    | inl e ↦ rw (e, poll_task) (h, λ q. ground arith)
    | inr (none, e) ↦ rw (e, poll_task) (h, λ q. ground arith)
    | inr (some t, e) ↦ rw (e, poll_task) (poll_present_lem id t rt e h)
  ]

  remove-IsSound : (id : ℕ) (pool : S) → IsSound pool → IsSound (slab.remove pool id)
  unfolding IsSound kept
  remove-IsSound id pool h j = ground (arith, h j, slab.get-remove pool id j)

  pub run_one-IsSound :
      (retain : Bool) (id : ℕ) (rt : Runtime W S)
      → IsSound rt.task_pool
      → (out : Runtime W S × Bool) × (run_one env slab retain id rt ≡ done out)
        × IsSound out.0.task_pool
  unfolding run_one Held
  run_one-IsSound retain id rt h =
      let (rt', p) = poll_task env slab id rt in
      let (sound, held) = poll_task_lem id rt h in
      elim (Bool-cases (finished p)) [
        | inr n ↦ rw (n) (_, refl, sound)
        | inl y ↦
            let (t, e, s) = held y in
            let (stats, a) = add_task_stat-held retain t rt'.finished_task_stats s in
            rw (y, e, a) (_, refl, remove-IsSound id rt'.task_pool sound)
      ]

  pub run_all-IsSound :
      (retain : Bool) (ids : List ℕ) (rt : Runtime W S)
      → IsSound rt.task_pool
      → (out : Runtime W S × Bool) × (run_all env slab retain ids rt ≡ done out)
        × IsSound out.0.task_pool
  unfolding run_all
  run_all-IsSound retain [] rt h = (_, refl, h)
  run_all-IsSound retain (id ∷ ids) rt h =
      let ((rt', first), e, h') = run_one-IsSound retain id rt h in
      let ((rt'', more), e', h'') = run_all-IsSound retain ids rt' h' in rw (e, e') (_, refl, h'')

  poll_one-IsSound :
      (r : ReactorWrapper) (iteration : ℕ) (rt : Runtime W S)
      → IsSound rt.task_pool
      → IsSound (poll_one env slab r iteration rt).1.task_pool
  unfolding poll_one
  poll_one-IsSound r iteration rt h =
      elim (ReactorStatus-cases
        (get_cached_reactor_status env slab env.scheduling_config rt.world r iteration).0) [
          | inr e ↦ rw (e, poll_one) h
          | inl e ↦ rw (e, poll_one) (perform_all-IsSound _ (record rt { world = _ }) h)
        ]

  if-IsSound :
      (b : Bool) (x y : ReactorWrapper × Runtime W S × Bool)
      → IsSound x.1.task_pool
      → IsSound y.1.task_pool
      → IsSound (if b then x else y).1.task_pool
  if-IsSound true x y h k = h
  if-IsSound false x y h k = k

  pub poll_reactors-IsSound :
      (rs : List ReactorWrapper) (iteration : ℕ) (rt : Runtime W S)
      → IsSound rt.task_pool
      → IsSound (poll_reactors env slab rs iteration rt).1.task_pool
  unfolding poll_reactors
  poll_reactors-IsSound [] iteration rt h = h
  poll_reactors-IsSound (r ∷ rs) iteration rt h =
      poll_reactors-IsSound rs iteration
        (if r.enable then poll_one env slab r iteration rt else (r, rt, false)).1
        (if-IsSound r.enable (poll_one env slab r iteration rt) (r, rt, false)
          (poll_one-IsSound r iteration rt h) h)
