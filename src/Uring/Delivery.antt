-- ===== src/Uring/Delivery.antt =====
-- A poll of the io_uring reactor, and what the runtime is told between polls.
use native.Mathlib.Nat.{mod-eq_of_lt}
use pluvio.Reactor.{running}
use pluvio.Base.{
  ℕ, suc, ◌+◌, ◌-◌, ◌%◌, ◌^◌, ◌≤◌, ◌<◌, ◌≡◌, ◌⊎◌, refl, sym, ap, ap₂, subst, ◌∙◌, inl, inr, Bool,
  true, false, ◌&&◌, none, some, List, [], ◌∷◌, ◌++◌, length, length-append, ltb, ◌==◌, ==_refl,
  if◌then◌else◌, Run, done, ready, pending, Option-cases, if_true, if_false, lt→ltb, arith,
}
use pluvio.Uring.{
  ℤ, Ring, IoUringReactor, put, holds, insert, is_some, empty_handle, outcome, poll_wait, push_sqe,
  submit_now, submitted, submit_phase, poll_submit_and_completions, is_empty, status,
}
use pluvio.Uring.Balance.{
  Drains, Laws, AllBelow, Distinct, IsBalanced, unused_key, below-append, distinct-append,
}
use pluvio.Uring.Waiting.{AllAwaited, IsConsistent, AllGot, wakers, complete_all_lem}

-- A handle whose operation is completed has its result at its next poll.
unfoldable pub AllDelivered : {W : Type 0} → List (ℕ × ℤ) → IoUringReactor W → Type 0
AllDelivered [] s = Unit
AllDelivered ((u, x) ∷ cs) s =
    ((w : ℕ) → (poll_wait u w s).1 ≡ ready (outcome x)) × AllDelivered cs s

got-AllDelivered :
    {W : Type 0} (cs : List (ℕ × ℤ)) (s : IoUringReactor W) → AllGot cs s → AllDelivered cs s
unfolding AllGot AllDelivered poll_wait
got-AllDelivered [] s h = tt
got-AllDelivered ((u, x) ∷ cs) s (e, h) = (λ w. rw (e, poll_wait) refl, got-AllDelivered cs s h)

unpolled :
    {W : Type 0} (u w : ℕ) (t : IoUringReactor W)
    → (t.cells u).result ≡ none
    → (poll_wait u w t).1 ≡ pending
unfolding poll_wait
unpolled u w t e = rw (e, poll_wait) refl

module _ {W : Type 0} (r : Ring W) (under_way : W → List ℕ) (laws : Laws r under_way) where
  -- Submission changes the ring alone, and nothing that is under way.
  record Keeps (s t : IoUringReactor W) : Type 0 where
    completions_kept : t.completions ≡ s.completions
    cells_kept : t.cells ≡ s.cells
    woken_kept : t.woken ≡ s.woken
    completed_kept : t.completed_count ≡ s.completed_count
    counter_kept : t.user_data_counter ≡ s.user_data_counter
    ring_kept : under_way t.ring ≡ under_way s.ring

  either-Keeps :
      (b : Bool) (s t u : IoUringReactor W) → Keeps s t → Keeps s u → Keeps s (if b then t else u)
  either-Keeps true s t u h k = h
  either-Keeps false s t u h k = k

  ring-Keeps :
      (s : IoUringReactor W) (v : W) (n : ℕ)
      → under_way v ≡ under_way s.ring
      → Keeps s (record s { ring = v; signals = n })
  ring-Keeps s v n e = record {
    completions_kept = refl;
    cells_kept = refl;
    woken_kept = refl;
    completed_kept = refl;
    counter_kept = refl;
    ring_kept = e;
  }

  -- The reactor's call does not panic, and changes the ring alone.
  abbrev KeepsRun : IoUringReactor W → Run (IoUringReactor W) → Type 0
  KeepsRun s x = (t : IoUringReactor W) × (x ≡ done t) × Keeps s t

  either-Run :
      (b : Bool) (s : IoUringReactor W) (x y : Run (IoUringReactor W))
      → KeepsRun s x
      → KeepsRun s y
      → KeepsRun s (if b then x else y)
  either-Run true s x y h k = h
  either-Run false s x y h k = k

  submit_now-Keeps :
      (s : IoUringReactor W) → is_some (r.submit s.ring) ≡ true → KeepsRun s (submit_now r s)
  unfolding submit_now
  submit_now-Keeps s h = elim (Option-cases (r.submit s.ring)) [
    | inl e ↦ absurd (ground (arith, e, h))
    | inr (v, e) ↦ (
      record s { ring = v },
      rw (e, submit_now) refl,
      ring-Keeps s v s.signals (laws.submit_keeps s.ring v e),
    )
  ]

  submitted-Keeps :
      (s : IoUringReactor W) → is_some (r.submit s.ring) ≡ true → KeepsRun s (submitted r s)
  unfolding submitted
  submitted-Keeps s h =
      let b = ltb 0 (r.sq_len s.ring) in
      let same : KeepsRun s (done s) = (s, refl, ring-Keeps s s.ring s.signals refl) in
      let sent = submit_now-Keeps s h in
      let by_thread = record s { ring = r.sync s.ring; signals = suc s.signals } in
      let told : KeepsRun s (done by_thread) =
        (by_thread, refl, ring-Keeps s (r.sync s.ring) (suc s.signals) (laws.sync_keeps s.ring)) in
      either-Run (is_some (s.io_uring_params).sq_poll) s _ _
        (either-Run (b && r.need_wakeup s.ring) s _ _ sent same)
        (either-Run b s _ _ (either-Run s.submit_thread s _ _ told sent) same)

  stamped-Keeps :
      (s t : IoUringReactor W) (now : ℕ) → Keeps s t → Keeps s (record t { last_submit_time = now })
  stamped-Keeps s t now k = record {
    completions_kept = k.completions_kept;
    cells_kept = k.cells_kept;
    woken_kept = k.woken_kept;
    completed_kept = k.completed_kept;
    counter_kept = k.counter_kept;
    ring_kept = k.ring_kept;
  }

  submit_phase-Keeps :
      (now : ℕ) (s : IoUringReactor W)
      → is_some (r.submit s.ring) ≡ true
      → KeepsRun s (submit_phase r now s)
  unfolding submit_phase
  submit_phase-Keeps now s h =
      let (t, e, k) = submitted-Keeps s h in
      (
        if ltb 0 (r.sq_len s.ring) then record t { last_submit_time = now } else t,
        rw e refl,
        either-Keeps (ltb 0 (r.sq_len s.ring)) s (record t { last_submit_time = now }) t
            (stamped-Keeps s t now k) k,
      )

  -- The reactor once the ring gave its completions, before they are handled.
  abbrev taken : IoUringReactor W → IoUringReactor W
  taken t = record t { ring = (r.completion t.ring).1 }

  taken-IsConsistent :
      (s t : IoUringReactor W) → Keeps s t → IsBalanced under_way s → IsConsistent (taken t)
  taken-IsConsistent s t k b = record {
    counted =
        ap₂ (λ n us. n + length us) k.completed_kept k.completions_kept
        ∙ b.counted
        ∙ sym k.counter_kept;
    below =
        subst (λ n. AllBelow n t.completions) (sym k.counter_kept)
          (subst (AllBelow s.user_data_counter) (sym k.completions_kept) b.below);
    distinct = subst Distinct (sym k.completions_kept) b.distinct;
    word = omega (arith, k.counter_kept, b.word);
  }

  taken-AllAwaited : (s t : IoUringReactor W) → Keeps s t → AllAwaited s → AllAwaited (taken t)
  unfolding AllAwaited
  taken-AllAwaited s t k a u h =
      let (w, e) = a u (ap (holds u) (sym k.completions_kept) ∙ h) in
      (w, ap (λ f. (f u).waker) k.cells_kept ∙ e)

  taken-Drains :
      (s t : IoUringReactor W)
      → Keeps s t
      → IsBalanced under_way s
      → Drains (r.completion t.ring).0 (taken t).completions (under_way (taken t).ring)
  taken-Drains s t k b =
      subst (λ us. Drains (r.completion t.ring).0 us (under_way (taken t).ring))
        (k.ring_kept ∙ sym b.tracked ∙ sym k.completions_kept) (laws.drained t.ring)

  -- Where the reactor's completions are what is under way, a waker waits for each, and the ring's `submit`
  -- does not fail, a poll does not panic: it calls the wakers of the completions that the ring gives, once
  -- each and in order, the handle of each completion has its result at its next poll, and the same holds
  -- of the reactor afterwards.
  pub poll-delivers :
      (now : ℕ) (s : IoUringReactor W)
      → is_some (r.submit s.ring) ≡ true
      → IsBalanced under_way s
      → AllAwaited s
      → (p t : IoUringReactor W) × (submit_phase r now s ≡ done p)
        × (poll_submit_and_completions r now s ≡ done t)
        × IsBalanced under_way t
        × AllAwaited t
        × (t.woken ≡ s.woken ++ wakers s.cells (r.completion p.ring).0)
        × AllDelivered (r.completion p.ring).0 t
  unfolding poll_submit_and_completions
  poll-delivers now s h b a =
      let (p, e, k) = submit_phase-Keeps now s h in
      let cs = (r.completion p.ring).0 in
      let v = taken p in
      let (t, q, g) =
        complete_all_lem cs (under_way v.ring) v (taken-IsConsistent s p k b)
          (taken-AllAwaited s p k a) (taken-Drains s p k b) in
      (
        p,
        t,
        e,
        rw e q,
        record {
          tracked = g.left_over ∙ ap under_way (sym g.same_ring);
          counted = (g.consistent).counted;
          below = (g.consistent).below;
          distinct = (g.consistent).distinct;
          word = (g.consistent).word;
        },
        g.awaited,
        g.called ∙ ap₂ (λ ws f. ws ++ wakers f cs) k.woken_kept k.cells_kept,
        got-AllDelivered cs t g.got,
      )

  -- A push that finds room gives a handle of its own.
  pub push_sqe-IsBalanced :
      (s : IoUringReactor W) (v : W)
      → IsBalanced under_way s
      → s.user_data_counter + 1 < 2 ^ 64
      → r.push s.user_data_counter s.ring ≡ some v
      → (t : IoUringReactor W) × (push_sqe r s ≡ done (t, s.user_data_counter))
        × IsBalanced under_way t
        × ((w : ℕ) → (poll_wait s.user_data_counter w t).1 ≡ pending)
  unfolding push_sqe poll_wait
  push_sqe-IsBalanced s v b h e =
      let u = s.user_data_counter in
      let n = unused_key u s.completions b.below in
      let i = if_false (holds u s.completions) s.completions (s.completions ++ u ∷ []) n in
      let c = mod-eq_of_lt {n = u + 1} {m = 2 ^ 64} h in
      (
        record s {
          ring = v;
          completions = insert u s.completions;
          user_data_counter = (u + 1) % 2 ^ 64;
          cells = put u empty_handle s.cells;
        },
        rw (e, push_sqe) refl,
        record {
          tracked = i ∙ ap (λ us. us ++ u ∷ []) b.tracked ∙ sym (laws.pushed u s.ring v e);
          counted =
              ap (λ us. s.completed_count + length us) i
              ∙ omega (arith, length-append s.completions (u ∷ []), b.counted, c);
          below =
              subst (λ us. AllBelow ((u + 1) % 2 ^ 64) us) (sym i)
                (subst (λ n. AllBelow n (s.completions ++ u ∷ [])) (sym c)
                  (below-append u s.completions b.below));
          distinct = subst Distinct (sym i) (distinct-append u s.completions b.below b.distinct);
          word = omega (arith, c, h);
        },
        λ w.
            unpolled u w
              (record s {
                ring = v;
                completions = insert u s.completions;
                user_data_counter = (u + 1) % 2 ^ 64;
                cells = put u empty_handle s.cells;
              })
              (ap (λ y. y.result) (if_true (u == u) empty_handle (s.cells u) (==_refl u))),
      )

  nonempty :
      (us : List ℕ)
      → (elim us as (λ y. Bool) [ [] ↦ true | u ∷ us ↦ false ]) ≡ false
      → 1 ≤ length us
  nonempty [] e = ground (arith, e)
  nonempty (u ∷ us) e = omega arith

  -- While operations are under way, the reactor asks to be polled once the last submission lies as far back as
  -- `wait_complete_timeout`, and at once where it always polls, whatever the mode of submission.
  pub status-sees :
      (always_poll : Bool) (now : ℕ) (s : IoUringReactor W)
      → IsBalanced under_way s
      → is_empty s ≡ false
      → (always_poll ≡ true)
        ⊎ ((s.io_uring_params).wait_complete_timeout ≤ now - s.last_submit_time)
      → status r always_poll now s ≡ running
  unfolding status
  status-sees always_poll now s b e h =
      let io : ltb s.completed_count s.user_data_counter ≡ true =
        lt→ltb s.completed_count s.user_data_counter
          (omega (arith, b.counted, nonempty s.completions e)) in
      elim h [ inl y ↦ ground (arith, io, y) | inr y ↦ ground (arith, io, y) ]
