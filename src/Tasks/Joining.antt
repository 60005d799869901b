-- ===== src/Tasks/Joining.antt =====
-- What a handle answers, and whom the end of its task wakes.
use pluvio.Base.{
  ℕ, ◌≡◌, refl, sym, ap, ◌∙◌, inl, inr, Option, none, some, List, [], ◌∷◌, ◌++◌, Result, ok, Poll,
  ready, pending, Poll-cases, arith,
}
use pluvio.Tasks.{
  Spawned, create_task_and_handle, called, poll_wrapped, poll_join, Event, task_polled,
  handle_polled, act, act_all,
}

-- The waker of the last poll of the handle, if there was one.
unfoldable pub last_waker : Option ℕ → List Event → Option ℕ
last_waker w [] = w
last_waker w (task_polled ∷ es) = last_waker w es
last_waker w (handle_polled v ∷ es) = last_waker (some v) es

-- As many answers `Pending` as the handle is polled.
unfoldable pub unanswered : {T : Type 0} → List Event → List (Poll (Result T ℕ))
unanswered [] = []
unanswered (task_polled ∷ es) = unanswered es
unanswered (handle_polled v ∷ es) = pending ∷ unanswered es

-- The first poll has the answer, later ones have none.
unfoldable pub answered : {T : Type 0} → T → List Event → List (Poll (Result T ℕ))
answered v [] = []
answered v (task_polled ∷ es) = answered v es
answered v (handle_polled w ∷ es) = ready (ok v) ∷ unanswered es

module _ {F T : Type 0} (poll : F → Poll T × F) where
  -- The state of a task that runs, by the waker of its handle.
  abbrev running_by : F → Option ℕ → List ℕ → Spawned F T
  running_by f w ws = record {
    future = some f;
    shared = record { waker = w; result = none };
    woken = ws;
  }

  abbrev ended_with : Option (Result T ℕ) → Option ℕ → List ℕ → Spawned F T
  ended_with r w ws = record {
    future = none;
    shared = record { waker = w; result = r };
    woken = ws;
  }

  -- Once the answer was taken there is no other.
  joined_lem :
      (es : List Event) (w : Option ℕ) (ws : List ℕ)
      → (act_all poll es (ended_with none w ws)).1 ≡ unanswered es
  unfolding act_all act poll_wrapped poll_join unanswered
  joined_lem [] w ws = refl
  joined_lem (task_polled ∷ es) w ws = joined_lem es w ws
  joined_lem (handle_polled v ∷ es) w ws = ap (◌∷◌ pending) (joined_lem es (some v) ws)

  ended_lem :
      (es : List Event) (v : T) (w : Option ℕ) (ws : List ℕ)
      → (act_all poll es (ended_with (some (ok v)) w ws)).1 ≡ answered v es
  unfolding act_all act poll_wrapped poll_join answered
  ended_lem [] v w ws = refl
  ended_lem (task_polled ∷ es) v w ws = ended_lem es v w ws
  ended_lem (handle_polled u ∷ es) v w ws = ap (◌∷◌ (ready (ok v))) (joined_lem es w ws)

  -- A poll of the task, by its answer.
  poll_pending :
      (f : F) (w : Option ℕ) (ws : List ℕ)
      → (poll f).0 ≡ pending
      → poll_wrapped poll (running_by f w ws) ≡ running_by (poll f).1 w ws
  unfolding poll_wrapped
  poll_pending f w ws e = rw (e, poll_wrapped) refl

  poll_ready :
      (f : F) (v : T) (w : Option ℕ) (ws : List ℕ)
      → (poll f).0 ≡ ready v
      → poll_wrapped poll (running_by f w ws) ≡ ended_with (some (ok v)) none (ws ++ called w)
  unfolding poll_wrapped
  poll_ready f v w ws e = rw (e, poll_wrapped) refl

  stays_ended :
      (es : List Event) (r : Option (Result T ℕ)) (w : Option ℕ) (ws : List ℕ)
      → ((act_all poll es (ended_with r w ws)).0).future ≡ none
  unfolding act_all act poll_wrapped poll_join
  stays_ended [] r w ws = refl
  stays_ended (task_polled ∷ es) r w ws = stays_ended es r w ws
  stays_ended (handle_polled u ∷ es) none w ws = stays_ended es none (some u) ws
  stays_ended (handle_polled u ∷ es) (some r) w ws = stays_ended es none w ws

  -- While the task runs the handle has no answer, nobody is woken, and the last waker is kept.
  running_lem :
      (es : List Event) (f : F) (w : Option ℕ) (ws : List ℕ) (g : F)
      → ((act_all poll es (running_by f w ws)).0).future ≡ some g
      → act_all poll es (running_by f w ws) ≡ (running_by g (last_waker w es) ws, unanswered es)
  unfolding act_all act poll_join unanswered last_waker
  running_lem [] f w ws g e = ap (λ f. (running_by f w ws, [])) (ground (arith, e))
  running_lem (task_polled ∷ es) f w ws g e = elim (Poll-cases (poll f).0) [
    | inl q ↦
        let s = poll_pending f w ws q in
        ap (act_all poll es) s
        ∙ running_lem es (poll f).1 w ws g (ap (λ t. ((act_all poll es t).0).future) (sym s) ∙ e)
    | inr (v, q) ↦
        let s = poll_ready f v w ws q in
        absurd (
          ground (
            arith,
            sym e
                ∙ ap (λ t. ((act_all poll es t).0).future) s
                ∙ stays_ended es (some (ok v)) none (ws ++ called w),
          ))
  ]
  running_lem (handle_polled u ∷ es) f w ws g e =
      ap (λ y. (y.0, pending ∷ y.1)) (running_lem es f (some u) ws g e)

  -- Let a task run through any events, and its future then be done. Until then the handle answers
  -- `Pending`, and nobody is woken. The poll that finds the future done calls the waker of the last poll of the
  -- handle alone; and whatever comes then, the first poll of the handle has the result, and later ones are
  -- pending.
  pub joins :
      (f g : F) (v : T) (es later : List Event)
      → ((act_all poll es (create_task_and_handle f)).0).future ≡ some g
      → (poll g).0 ≡ ready v
      → let (s, ps) = act_all poll es (create_task_and_handle f) in
        let t = poll_wrapped poll s in
        (ps ≡ unanswered es)
        × (s.woken ≡ [])
        × (t.woken ≡ called (last_waker none es))
        × ((act_all poll later t).1 ≡ answered v later)
  joins f g v es later e q =
      let r = running_lem es f none [] g e in
      let w = last_waker none es in
      let d = ap (λ y. poll_wrapped poll y.0) r ∙ poll_ready g v w [] q in
      (
        ap (λ y. y.1) r,
        ap (λ y. (y.0).woken) r,
        ap (λ t. t.woken) d,
        ap (λ t. (act_all poll later t).1) d ∙ ended_lem later v none ([] ++ called w),
      )
