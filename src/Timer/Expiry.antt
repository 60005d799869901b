-- ===== src/Timer/Expiry.antt =====
-- What the reactor's calls do to its timers, and the invariant that they keep.
use native.Mathlib.Nat.{mod-eq_of_lt}
use pluvio.Base.{
  ℕ, suc, ◌+◌, ◌^◌, ◌≤◌, ◌<◌, ◌≡◌, refl, ap, true, none, some, List, [], ◌∷◌, ◌++◌, append-nil,
  append_assoc, map, length, length-append, length-map, lt→leb, leb→lt, ltb→lt, ltb, leb,
  if◌then◌else◌, Bool-cases, Option-cases, is_some, inl, inr, arith,
}
use pluvio.Timer.Handle.{TimerHandle, Entry, lt_handle, eq_handle, max_at, lookup, delete, range_to}
use pluvio.Timer.Order.{
  Above, Sorted, IdsBelow, eq_handle_refl, lookup_fresh, Sorted-insert, IdsBelow-insert,
  IdsBelow-mono, length-insert, lookup-insert, lookup-delete, Sorted-delete, IdsBelow-delete,
  length-delete, lookup_same,
}
use pluvio.Reactor.{running, stopped}
use pluvio.Timer.{
  Timers, register_timer, take_out, cancel_timer, timer_count, wake_loop, earliest_pending,
  wake_expired_timers, status,
}

-- The keys are in order, their ids were handed out by the counter, and the atomic count is the number
-- of timers.
pub record IsValid (s : Timers) : Type 0 where
  pub sorted : Sorted s.timers
  pub ids : IdsBelow s.counter s.timers
  pub word : s.counter < 2 ^ 64
  pub few : length s.timers ≤ s.counter
  pub counted : s.timer_count_atomic ≡ length s.timers

-- The entries whose deadline has come, and the others.
abbrev pub due : ℕ → List Entry → List Entry
due now [] = []
due now ((h, w) ∷ m) = if leb h.deadline now then (h, w) ∷ due now m else due now m

abbrev pub later : ℕ → List Entry → List Entry
later now [] = []
later now ((h, w) ∷ m) = if leb h.deadline now then later now m else (h, w) ∷ later now m

abbrev pub handles : List Entry → List TimerHandle
handles = map λ e. e.0

abbrev pub wakers : List Entry → List ℕ
wakers = map λ e. e.1

after_deadline :
    (k j : TimerHandle) (now : ℕ) → now < k.deadline → lt_handle k j ≡ true → now < j.deadline
unfolding lt_handle
after_deadline k j now h l = ground arith

due-Above :
    (k : TimerHandle) (now : ℕ) (m : List Entry)
    → now < k.deadline
    → Above k m
    → Sorted m
    → (due now m ≡ []) × (later now m ≡ m)
due-Above k now [] h a s = (refl, refl)
due-Above k now ((j, w) ∷ m) h a s =
    let p = after_deadline k j now h a in
    let (none_due, all_later) = due-Above j now m p s.0 s.1 in
    rw (lt→leb j.deadline now p) (none_due, ap (◌∷◌ (j, w)) all_later)

-- In order of deadlines the due entries come first.
split_due : (now : ℕ) (m : List Entry) → Sorted m → m ≡ due now m ++ later now m
split_due now [] s = refl
split_due now ((k, w) ∷ m) s = elim (Bool-cases (leb k.deadline now)) [
  | inl e ↦ rw e (ap (◌∷◌ (k, w)) (split_due now m s.1))
  | inr e ↦
      let (none_due, all_later) = due-Above k now m (leb→lt k.deadline now e) s.0 s.1 in
      rw (e, none_due, all_later) refl
]

range_to-due :
    (now n : ℕ) (m : List Entry)
    → IdsBelow n m
    → n ≤ 2 ^ 64
    → range_to (max_at now) m ≡ handles (due now m)
unfolding range_to max_at lt_handle eq_handle
range_to-due now n [] b h = refl
range_to-due now n ((k, w) ∷ m) b h = ground (arith, range_to-due now n m b.1)

lookup_front : (h : TimerHandle) (w : ℕ) (m : List Entry) → lookup h ((h, w) ∷ m) ≡ some w
unfolding lookup
lookup_front h w m = ground (arith, eq_handle_refl h)

delete_front : (h : TimerHandle) (w : ℕ) (m : List Entry) → delete h ((h, w) ∷ m) ≡ m
unfolding delete
delete_front h w m = ground (arith, eq_handle_refl h)

-- Taking the entries `e` out from the front, one by one.
wake_loop_lem :
    (e rest : List Entry) (s : Timers) (woken : List ℕ)
    → s.timers ≡ e ++ rest
    → s.timer_count_atomic ≡ length e + length rest
    → s.timer_count_atomic < 2 ^ 64
    → wake_loop (handles e) s woken
      ≡ (record s { timers = rest; timer_count_atomic = length rest }, woken ++ wakers e)
unfolding wake_loop
wake_loop_lem [] rest s woken t c w = rw append-nil (ap (λ (u : Timers). (u, woken)) (ground arith))
wake_loop_lem ((h, v) ∷ e) rest s woken t c w = ground (
  arith,
  lookup_front h v (e ++ rest),
  delete_front h v (e ++ rest),
  append_assoc woken (v ∷ []) (wakers e),
  wake_loop_lem e rest (take_out s h) (woken ++ v ∷ []),
)

Sorted-suffix : (e rest : List Entry) → Sorted (e ++ rest) → Sorted rest
Sorted-suffix [] rest s = s
Sorted-suffix (x ∷ e) rest s = Sorted-suffix e rest s.1

IdsBelow-suffix : (n : ℕ) (e rest : List Entry) → IdsBelow n (e ++ rest) → IdsBelow n rest
IdsBelow-suffix n [] rest b = b
IdsBelow-suffix n (x ∷ e) rest b = IdsBelow-suffix n e rest b.1

earliest_pending-due :
    (now : ℕ) (m : List Entry)
    → Sorted m
    → earliest_pending m now ≡ true
    → (due now m ≡ []) × (later now m ≡ m)
earliest_pending-due now [] s h = (refl, refl)
earliest_pending-due now ((k, w) ∷ m) s h =
    let p = ltb→lt now k.deadline h in
    let (none_due, all_later) = due-Above k now m p s.0 s.1 in
    rw (lt→leb k.deadline now p) (none_due, ap (◌∷◌ (k, w)) all_later)

-- A poll of a valid reactor at `now` wakes exactly the timers whose deadline has come, in the
-- order of their deadlines and then of registration, returns their number, and leaves the others.
pub wake_expired_timers_lem :
    (s : Timers) (now : ℕ)
    → IsValid s
    → wake_expired_timers s now ≡ (
      record s { timers = later now s.timers; timer_count_atomic = length (later now s.timers) },
      length (due now s.timers),
      wakers (due now s.timers),
    )
unfolding wake_expired_timers
wake_expired_timers_lem s now v = elim (Bool-cases (earliest_pending s.timers now)) [
  | inl e ↦
      let (none_due, all_later) = earliest_pending-due now s.timers v.sorted e in
      rw (e, none_due, all_later) (ap {B = Timers × ℕ × List ℕ} (λ u. (u, 0, [])) (ground arith))
  | inr e ↦
      let split = split_due now s.timers v.sorted in
      rw (
        e,
        range_to-due now s.counter s.timers v.ids (omega arith),
        wake_loop_lem (due now s.timers) (later now s.timers) s [] split
            (omega (
              arith,
              v.counted,
              ap length split,
              length-append (due now s.timers) (later now s.timers),
            ))
            (omega arith),
        length-map,
      )
]

pub wake_expired_timers-IsValid :
    (s : Timers) (now : ℕ) → IsValid s → IsValid (wake_expired_timers s now).0
wake_expired_timers-IsValid s now v =
    let split = split_due now s.timers v.sorted in
    rw (wake_expired_timers_lem s now v) (record {
      sorted = Sorted-suffix (due now s.timers) (later now s.timers) (rw (← split) v.sorted);
      ids = IdsBelow-suffix s.counter (due now s.timers) (later now s.timers) (rw (← split) v.ids);
      word = v.word;
      few =
          omega
            (arith, v.few, ap length split, length-append (due now s.timers) (later now s.timers));
      counted = refl;
    })

-- In a valid reactor, registering adds one entry under a handle that was not there, and changes no
-- other.
pub register_timer_lem :
    (s : Timers) (deadline waker : ℕ)
    → IsValid s
    → let (t, h) = register_timer s deadline waker in
      (h.deadline ≡ deadline)
      × (lookup h s.timers ≡ none)
      × ((j : TimerHandle)
          → lookup j t.timers ≡ (if eq_handle j h then some waker else lookup j s.timers))
      × (timer_count t ≡ suc (timer_count s))
unfolding register_timer timer_count
register_timer_lem s deadline waker v =
    let h : TimerHandle = record { deadline = deadline; id = s.counter } in
    let fresh = lookup_fresh h s.counter s.timers v.ids (omega arith) in
    (refl, fresh, λ j. lookup-insert j h waker s.timers, length-insert h waker s.timers fresh)

pub register_timer-IsValid :
    (s : Timers) (deadline waker : ℕ)
    → IsValid s
    → s.counter + 1 < 2 ^ 64
    → IsValid (register_timer s deadline waker).0
unfolding register_timer
register_timer-IsValid s deadline waker v h =
    let k : TimerHandle = record { deadline = deadline; id = s.counter } in
    let fresh = lookup_fresh k s.counter s.timers v.ids (omega arith) in
    record {
      sorted = Sorted-insert k waker s.timers v.sorted;
      ids = rw (mod-eq_of_lt h) (
          IdsBelow-insert (s.counter + 1) k waker s.timers (omega arith)
            (IdsBelow-mono s.counter (s.counter + 1) s.timers (omega arith) v.ids));
      word = omega arith;
      few = omega (arith, length-insert k waker s.timers fresh);
      counted = omega (arith, length-insert k waker s.timers fresh);
    }

-- In a valid reactor, cancelling reports whether the handle was there; afterwards it is not, and
-- no other entry has changed.
pub cancel_timer_lem :
    (s : Timers) (h : TimerHandle)
    → IsValid s
    → let (t, found) = cancel_timer s h in
      (found ≡ is_some (lookup h s.timers))
      × ((j : TimerHandle)
          → lookup j t.timers ≡ (if eq_handle j h then none else lookup j s.timers))
unfolding cancel_timer
cancel_timer_lem s h v = elim (Option-cases (lookup h s.timers)) [
  | inl e ↦ rw (e, cancel_timer) (refl, λ j. absent j e)
  | inr (w, e) ↦ rw (e, cancel_timer) (refl, λ j. lookup-delete j h s.timers v.sorted)
]
  where
    absent :
        (j : TimerHandle)
        → lookup h s.timers ≡ none
        → lookup j s.timers ≡ (if eq_handle j h then none else lookup j s.timers)
    absent j e = ground (arith, lookup_same j h s.timers)

pub cancel_timer-IsValid : (s : Timers) (h : TimerHandle) → IsValid s → IsValid (cancel_timer s h).0
unfolding cancel_timer
cancel_timer-IsValid s h v = elim (Option-cases (lookup h s.timers)) [
  | inl e ↦ rw (e, cancel_timer) v
  | inr (w, e) ↦
      rw (e, cancel_timer)
        (record {
          sorted = Sorted-delete h s.timers v.sorted;
          ids = IdsBelow-delete s.counter h s.timers v.ids;
          word = v.word;
          few = omega (arith, length-delete h w s.timers e);
          counted = omega (arith, length-delete h w s.timers e);
        })
]

-- In a valid reactor, `status` is `Running` exactly while a timer is pending.
pub status_lem :
    (s : Timers) → IsValid s → status s ≡ (if ltb 0 (timer_count s) then running else stopped)
unfolding status timer_count
status_lem s v = ground arith
