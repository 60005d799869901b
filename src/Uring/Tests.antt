-- ===== src/Uring/Tests.antt =====
-- The io_uring reactor over a ring of four entries, whose kernel completes at once what is submitted.
use pluvio.Reactor.{running}
use pluvio.Base.{
  ℕ, ◌≡◌, refl, sym, ap, ◌∙◌, inl, inr, Bool-cases, false, none, some, List, [], ◌∷◌, ◌++◌, map,
  length, append_assoc, append-nil, ltb, ==_refl, if◌then◌else◌, done, fault, panic, arith,
}
use pluvio.Uring.{
  ℤ, pos, Ring, IoUringReactor, empty_handle, submit_now, submitted, submit_phase, complete_cqe,
  complete_all, poll_submit_and_completions, status,
}
use pluvio.Uring.Balance.{Drains, Laws, AllBelow, Distinct, IsBalanced}
use pluvio.Uring.Waiting.{AllAwaited, wakers}
use pluvio.Uring.Delivery.{AllDelivered, poll-delivers, status-sees}

record Toy : Type 0 where
  queue : List ℕ
  kernel : List ℕ

abbrev answer : ℕ → ℕ × ℤ
answer u = (u, pos 7)

abbrev toy : Ring Toy
toy = record {
  push =
      λ u w. if ltb (length w.queue) 4 then some (record w { queue = w.queue ++ u ∷ [] }) else none;
  sq_len = λ w. length w.queue;
  need_wakeup = λ w. false;
  submit = λ w. some (record { queue = []; kernel = w.kernel ++ w.queue });
  sync = λ w. w;
  submit_and_wait = λ n w. some (record { queue = []; kernel = w.kernel ++ w.queue });
  completion = λ w. (map answer w.kernel, record w { kernel = [] });
}

abbrev both : Toy → List ℕ
both w = w.kernel ++ w.queue

toy-Drains : (us vs : List ℕ) → Drains (map answer us) (us ++ vs) vs
unfolding Drains
toy-Drains [] vs = refl
toy-Drains (u ∷ us) vs = rw (==_refl u) (refl, toy-Drains us vs)

toy-pushed : (u : ℕ) (w v : Toy) → toy.push u w ≡ some v → both v ≡ both w ++ u ∷ []
toy-pushed u w v e = elim (Bool-cases (ltb (length w.queue) 4)) [
  | inl y ↦
      let q : v ≡ record w { queue = w.queue ++ u ∷ [] } = ground (arith, y, e) in
      ap both q ∙ sym (append_assoc w.kernel w.queue (u ∷ []))
  | inr y ↦ absurd (ground (arith, y, e))
]

toy-submitted : (w v : Toy) → toy.submit w ≡ some v → both v ≡ both w
toy-submitted w v e =
    let q : v ≡ record { queue = []; kernel = w.kernel ++ w.queue } = ground (arith, e) in
    ap both q ∙ append-nil (w.kernel ++ w.queue)

toy-Laws : Laws toy both
toy-Laws = record {
  pushed = toy-pushed;
  submit_keeps = toy-submitted;
  sync_keeps = λ w. refl;
  wait_keeps = λ n w v e. toy-submitted w v e;
  drained = λ w. toy-Drains w.kernel w.queue;
}

-- One operation, which task 9 waits for.
abbrev busy : IoUringReactor Toy
busy = record {
  ring = record { queue = 0 ∷ []; kernel = [] };
  completions = 0 ∷ [];
  user_data_counter = 1;
  last_submit_time = 0;
  io_uring_params = record {
    submit_depth = 64;
    wait_submit_timeout = 50;
    wait_complete_timeout = 100;
    sq_poll = none;
  };
  completed_count = 0;
  submit_thread = false;
  cells = λ u. record { waker = some 9; result = none };
  signals = 0;
  woken = [];
}

busy-IsBalanced : IsBalanced both busy
unfolding AllBelow Distinct
busy-IsBalanced = record {
  tracked = refl;
  counted = refl;
  below = (omega arith, tt);
  distinct = (refl, tt);
  word = omega arith;
}

busy-AllAwaited : AllAwaited busy
unfolding AllAwaited
busy-AllAwaited u h = (9, refl)

poll-delivers_example :
    (p t : IoUringReactor Toy) × (submit_phase toy 5 busy ≡ done p)
    × (poll_submit_and_completions toy 5 busy ≡ done t)
    × IsBalanced both t
    × AllAwaited t
    × (t.woken ≡ wakers busy.cells (map answer p.ring.kernel))
    × AllDelivered (map answer p.ring.kernel) t
poll-delivers_example = poll-delivers toy both toy-Laws 5 busy refl busy-IsBalanced busy-AllAwaited

status-sees_example : status toy false 100 busy ≡ running
status-sees_example =
    status-sees toy both toy-Laws false 100 busy busy-IsBalanced refl (inr (omega arith))

-- The poll submits the operation, takes its completion and calls task 9.
busy_poll :
    (t : IoUringReactor Toy) × (poll_submit_and_completions toy 5 busy ≡ done t)
    × (t.woken ≡ 9 ∷ [])
    × (t.completions ≡ [])
unfolding poll_submit_and_completions submit_phase submitted submit_now complete_all complete_cqe
busy_poll = (_, refl, refl, refl)

-- A ring whose `submit` fails stops the program.
failing_panics :
    poll_submit_and_completions (record toy { submit = λ w. none }) 5 busy ≡ fault panic
unfolding poll_submit_and_completions submit_phase submitted submit_now
failing_panics = refl

-- A completion that comes before its handle is polled stops the program.
early_panics :
    poll_submit_and_completions toy 5 (record busy { cells = λ u. empty_handle }) ≡ fault panic
unfolding poll_submit_and_completions submit_phase submitted submit_now complete_all complete_cqe
early_panics = refl
