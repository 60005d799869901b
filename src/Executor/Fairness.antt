-- ===== src/Executor/Fairness.antt =====
-- pluvio_runtime/src/executor/mod.rs: the normal queue is served in order, a batch in each iteration,
-- and no id that is sent to it is lost.
use pluvio.Base.{
  ℕ, zero, suc, ◌≡◌, inl, inr, refl, sym, ap, ◌∙◌, subst, Bool, true, false, Option, none, some,
  List, [], ◌∷◌, ◌++◌, ◌||◌, append-nil, append_assoc, if◌then◌else◌, take, drop, Run, done, fault,
  ◌>>=◌, Bool-cases, Option-cases,
}
use pluvio.Executor.Pool.{Slab}
use pluvio.Executor.{
  ReactorWrapper, Task, Action, wake, spawn, shutdown, Env, Runtime, enqueue, spawn_task,
  request_shutdown, perform, perform_all, get_cached_reactor_status, poll_one, poll_reactors,
  poll_present, poll_task, add_task_stat, finished, run_one, run_all,
}
use pluvio.Executor.Loop.{recv_up_to, task_phases}
use pluvio.Executor.Sound.{IsSound, run_one-IsSound, ReactorStatus-cases}

-- `q'` is `q` with more ids behind it.
unfoldable pub Grows : List ℕ → List ℕ → Type 0
Grows q q' = (sent : List ℕ) × (q' ≡ q ++ sent)

Grows-refl : (q : List ℕ) → Grows q q
unfolding Grows
Grows-refl q = ([], sym (append-nil q))

Grows-trans : (q r s : List ℕ) → Grows q r → Grows r s → Grows q s
unfolding Grows
Grows-trans q r s (a, e) (b, f) = (a ++ b, f ∙ ap (λ x. x ++ b) e ∙ append_assoc q a b)

recv_up_to_lem : (n : ℕ) (q : List ℕ) → recv_up_to n q ≡ (take n q, drop n q)
recv_up_to_lem zero q = refl
recv_up_to_lem (suc n) [] = refl
recv_up_to_lem (suc n) (id ∷ q) = ap (λ (got, rest). (id ∷ got, rest)) (recv_up_to_lem n q)

-- What runs of `run_one` for the ids of a batch, one after another, make of a runtime, and whether a task
-- of the batch completed.
pub data Ran {W Fut S : Type 0} (env : Env W Fut) (slab : Slab S (Option (Task Fut)))
    (retain : Bool) : List ℕ → Runtime W S → Runtime W S → Bool → Type 0 where
  ran_none : (rt : Runtime W S) → Ran env slab retain [] rt rt false
  ran_next :
      (id : ℕ) (ids : List ℕ) (rt rt' out : Runtime W S) (completed more : Bool)
      → run_one env slab retain id rt ≡ done (rt', completed)
      → Ran env slab retain ids rt' out more
      → Ran env slab retain (id ∷ ids) rt out (completed || more)

module _ {W Fut S : Type 0} (env : Env W Fut) (slab : Slab S (Option (Task Fut))) where
  perform-Grows :
      (a : Action Fut) (rt : Runtime W S) → Grows rt.task_queue (perform env slab a rt).task_queue
  unfolding perform spawn_task enqueue request_shutdown Grows
  perform-Grows (wake true j) rt = Grows-refl rt.task_queue
  perform-Grows (wake false j) rt = (_, refl)
  perform-Grows (spawn true name f) rt = Grows-refl rt.task_queue
  perform-Grows (spawn false name f) rt = (_, refl)
  perform-Grows shutdown rt = Grows-refl rt.task_queue

  perform_all-Grows :
      (acts : List (Action Fut)) (rt : Runtime W S)
      → Grows rt.task_queue (perform_all env slab acts rt).task_queue
  unfolding perform_all
  perform_all-Grows [] rt = Grows-refl rt.task_queue
  perform_all-Grows (a ∷ later) rt =
      Grows-trans _ _ _ (perform-Grows a rt) (perform_all-Grows later (perform env slab a rt))

  poll_task-Grows :
      (id : ℕ) (rt : Runtime W S) → Grows rt.task_queue (poll_task env slab id rt).0.task_queue
  unfolding poll_task poll_present
  poll_task-Grows id rt = elim (Option-cases (slab.get rt.task_pool id)) [
    | inl e ↦ rw (e, poll_task) (Grows-refl rt.task_queue)
    | inr (none, e) ↦ rw (e, poll_task) (Grows-refl rt.task_queue)
    | inr (some t, e) ↦
        let (p, f, w, acts) = env.poll_future rt.world t.future id in
        rw (e, poll_task)
          (perform_all-Grows acts
            (record rt { task_pool = slab.replace rt.task_pool id none; world = w }))
  ]

  Kept : List ℕ → Run (Runtime W S × Bool) → Type 0
  Kept q (done out) = Grows q out.0.task_queue
  Kept q (fault e) = Unit

  run_one-Kept :
      (retain : Bool) (id : ℕ) (rt : Runtime W S)
      → Kept rt.task_queue (run_one env slab retain id rt)
  unfolding run_one Kept
  run_one-Kept retain id rt =
      let (rt', p) = poll_task env slab id rt in
      elim (Bool-cases (finished p)) [
        | inr n ↦ rw (n) (poll_task-Grows id rt)
        | inl y ↦
            rw (y) (
              kept_stats (add_task_stat retain (slab.get rt'.task_pool id) rt'.finished_task_stats))
      ]
    where
      kept_stats :
          (r : Run (List ℕ))
          → Kept rt.task_queue (
              r >>= λ stats. done (
                record (poll_task env slab id rt).0 {
                  finished_task_stats = stats;
                  task_pool = slab.remove (poll_task env slab id rt).0.task_pool id;
                },
                true,
              ))
      kept_stats (done stats) = poll_task-Grows id rt
      kept_stats (fault e) = tt

  >>=-Kept :
      (q : List ℕ) (r : Run (Runtime W S × Bool))
      (f : Runtime W S × Bool → Run (Runtime W S × Bool))
      → Kept q r
      → ((o : Runtime W S × Bool) → Kept o.0.task_queue (f o))
      → Kept q (r >>= f)
  unfolding Kept
  >>=-Kept q (fault e) f k h = tt
  >>=-Kept q (done o) f k h = onto (f o) (h o)
    where
      onto : (r : Run (Runtime W S × Bool)) → Kept o.0.task_queue r → Kept q r
      onto (fault e) h = tt
      onto (done o') h = Grows-trans _ _ _ k h

  run_all-Kept :
      (retain : Bool) (ids : List ℕ) (rt : Runtime W S)
      → Kept rt.task_queue (run_all env slab retain ids rt)
  unfolding run_all Kept
  run_all-Kept retain [] rt = Grows-refl rt.task_queue
  run_all-Kept retain (id ∷ ids) rt =
      >>=-Kept rt.task_queue (run_one env slab retain id rt) _ (run_one-Kept retain id rt)
        (λ (rt', first).
          >>=-Kept rt'.task_queue (run_all env slab retain ids rt') _ (run_all-Kept retain ids rt')
            (λ (rt'', more). Grows-refl rt''.task_queue))

  run_all-Grows :
      (retain : Bool) (ids : List ℕ) (rt : Runtime W S) (out : Runtime W S × Bool)
      → run_all env slab retain ids rt ≡ done out
      → Grows rt.task_queue out.0.task_queue
  unfolding Kept
  run_all-Grows retain ids rt out e = subst (Kept rt.task_queue) e (run_all-Kept retain ids rt)

  poll_reactors-Grows :
      (rs : List ReactorWrapper) (iteration : ℕ) (rt : Runtime W S)
      → Grows rt.task_queue (poll_reactors env slab rs iteration rt).1.task_queue
  unfolding poll_reactors poll_one
  poll_reactors-Grows [] iteration rt = Grows-refl rt.task_queue
  poll_reactors-Grows (r ∷ rs) iteration rt = Grows-trans _ _ _ (visited r.enable) (
      poll_reactors-Grows rs iteration
        (if r.enable then poll_one env slab r iteration rt else (r, rt, false)).1)
    where
      polled : Grows rt.task_queue (poll_one env slab r iteration rt).1.task_queue
      polled =
          elim (ReactorStatus-cases
            (get_cached_reactor_status env slab env.scheduling_config rt.world r iteration).0) [
              | inr e ↦ rw (e, poll_one) (Grows-refl rt.task_queue)
              | inl e ↦
                  rw (e, poll_one)
                    (perform_all-Grows (env.poll_reactor rt.world r.reactor).1
                      (record rt { world = (env.poll_reactor rt.world r.reactor).0 }))
            ]

      visited :
          (b : Bool)
          → Grows rt.task_queue
              (if b then poll_one env slab r iteration rt else (r, rt, false)).1.task_queue
      visited true = polled
      visited false = Grows-refl rt.task_queue

  run_all-Ran :
      (retain : Bool) (ids : List ℕ) (rt : Runtime W S)
      → IsSound env slab rt.task_pool
      → (out : Runtime W S × Bool) × (run_all env slab retain ids rt ≡ done out)
        × IsSound env slab out.0.task_pool
        × Ran env slab retain ids rt out.0 out.1
  unfolding run_all
  run_all-Ran retain [] rt h = (_, refl, h, ran_none rt)
  run_all-Ran retain (id ∷ ids) rt h =
      let ((rt', first), e, h') = run_one-IsSound env slab retain id rt h in
      let ((out, more), e', h'', ran) = run_all-Ran retain ids rt' h' in
      rw (e, e') (_, refl, h'', ran_next id ids rt rt' out first more e ran)

  -- From a sound pool, an iteration's tasks are: the polling tasks, all of which run, each once and in
  -- order, and may send ids to the normal queue; then the first `task_batch_size` ids of that queue,
  -- each once and in order. The ids behind them stay, in their order, before those that the batch sends.
  pub task_phases-in_order :
      (retain : Bool) (polling : List ℕ) (rt : Runtime W S)
      → IsSound env slab rt.task_pool
      → let n = env.scheduling_config.task_batch_size in
        (mid out : Runtime W S) × (sent_first sent_last : List ℕ) × (polled completed : Bool)
        × (task_phases env slab retain polling rt ≡ done (out, polled, completed))
        × Ran env slab retain polling rt mid polled
        × (mid.task_queue ≡ rt.task_queue ++ sent_first)
        × Ran env slab retain
            (take n mid.task_queue)
            (record mid { task_queue = drop n mid.task_queue })
            out
            completed
        × (out.task_queue ≡ drop n mid.task_queue ++ sent_last)
  unfolding task_phases Grows
  task_phases-in_order retain polling rt h =
      let n = env.scheduling_config.task_batch_size in
      let ((mid, polled), e, h', ran) = run_all-Ran retain polling rt h in
      let rest : Runtime W S = record mid { task_queue = drop n mid.task_queue } in
      let ((out, completed), e', h'', ran') = run_all-Ran retain (take n mid.task_queue) rest h' in
      let (sent_first, g) = run_all-Grows retain polling rt (mid, polled) e in
      let (sent_last, g') = run_all-Grows retain (take n mid.task_queue) rest (out, completed) e' in
      (
        mid,
        out,
        sent_first,
        sent_last,
        polled,
        completed,
        rw (e, recv_up_to_lem n mid.task_queue, e') refl,
        ran,
        g,
        ran',
        g',
      )
