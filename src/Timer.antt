-- ===== src/Timer.antt =====
-- pluvio_timer/src/lib.rs: the timer reactor, `Delay` and `Timeout`. The handle counter is a static, so it stands beside the reactor in the state.
pub mod Handle
pub mod Order
pub mod Expiry
pub mod Lifetimes
mod Tests
use pluvio.Reactor.{ReactorStatus, running, stopped}
use pluvio.Base.{
  ℕ, ◌+◌, ◌-◌, ◌^◌, ◌%◌, Bool, true, false, ◌&&◌, ◌||◌, Option, none, some, List, [], ◌∷◌, ◌++◌,
  map, ltb, leb, ◌==◌, if◌then◌else◌, length, Result, ok, err, Poll, ready, pending,
}
use Handle.{TimerHandle, Entry, max_at, insert, lookup, delete, range_to}

pub record Timers : Type 0 where
  pub counter : ℕ
  pub timers : List Entry
  pub timer_count_atomic : ℕ

-- `fetch_add` wraps.
pub register_timer : Timers → ℕ → ℕ → Timers × TimerHandle
register_timer s deadline waker =
    let handle : TimerHandle = record { deadline = deadline; id = s.counter } in
    (
      record {
        counter = (s.counter + 1) % 2 ^ 64;
        timers = insert handle waker s.timers;
        timer_count_atomic = (s.timer_count_atomic + 1) % 2 ^ 64;
      },
      handle,
    )

-- `fetch_sub(1)` wraps.
abbrev pub decremented : ℕ → ℕ
decremented n = (n + 2 ^ 64 - 1) % 2 ^ 64

abbrev pub take_out : Timers → TimerHandle → Timers
take_out s handle = record s {
  timers = delete handle s.timers;
  timer_count_atomic = decremented s.timer_count_atomic;
}

pub cancel_timer : Timers → TimerHandle → Timers × Bool
cancel_timer s handle = elim (lookup handle s.timers) [
  | none ↦ (s, false)
  | some w ↦ (take_out s handle, true)
]

pub timer_count : Timers → ℕ
timer_count s = length s.timers

-- The loop over the expired handles, with the wakers woken so far.
pub wake_loop : List TimerHandle → Timers → List ℕ → Timers × List ℕ
wake_loop [] s woken = (s, woken)
wake_loop (h ∷ hs) s woken = elim (lookup h s.timers) [
  | none ↦ wake_loop hs s woken
  | some w ↦ wake_loop hs (take_out s h) (woken ++ w ∷ [])
]

abbrev pub earliest_pending : List Entry → ℕ → Bool
earliest_pending [] now = true
earliest_pending ((h, w) ∷ m) now = ltb now h.deadline

-- The state, the count that is returned, and the wakers woken, in order.
pub wake_expired_timers : Timers → ℕ → Timers × ℕ × List ℕ
wake_expired_timers s now =
    let expired = range_to (max_at now) s.timers in
    let (t, woken) = wake_loop expired s [] in
    if earliest_pending s.timers now then (s, 0, []) else (t, length expired, woken)

pub status : Timers → ReactorStatus
status s = if ltb 0 s.timer_count_atomic then running else stopped

pub record Delay : Type 0 where
  pub deadline : ℕ
  pub timer_handle : Option TimerHandle

pub new_at : ℕ → Delay
new_at deadline = record { deadline = deadline; timer_handle = none }

pub new : ℕ → ℕ → Delay
unfolding new_at
new now duration = new_at (now + duration)

-- `saturating_duration_since`
pub remaining : Delay → ℕ → ℕ
remaining d now = d.deadline - now

abbrev pub armed : Option TimerHandle → Delay → ℕ → Timers → Delay × Timers
armed (some h) d waker s = (d, s)
armed none d waker s =
    let (s', h) = register_timer s d.deadline waker in (record d { timer_handle = some h }, s')

-- `Delay::poll`, at a reading `now` of the clock, by the task that `waker` wakes.
pub poll_delay : ℕ → ℕ → Delay → Timers → Poll (Unit {0}) × Delay × Timers
poll_delay now waker d s =
    let (d', s') = armed d.timer_handle d waker s in
    if leb d.deadline now then (ready tt, d, s) else (pending, d', s')

abbrev pub cancelled : Option TimerHandle → Timers → Timers
cancelled none s = s
cancelled (some h) s = (cancel_timer s h).0

-- `Drop for Delay`
pub drop_delay : Delay → Timers → Timers
drop_delay d s = cancelled d.timer_handle s

pub data TimeoutError : Type 0 where
  timed_out : TimeoutError

-- The future under a timeout is the caller's: what polling and dropping it does is given.
pub record Future {ℓ} (F : Type ℓ) (A : Type ℓ) : Type ℓ where
  pub poll : ℕ → F → Timers → Poll A × F × Timers
  pub discard : F → Timers → Timers

pub record Timeout {ℓ} (F : Type ℓ) : Type ℓ where
  pub future : Option F
  pub delay : Delay

module _ {ℓ} {F A : Type ℓ} (user : Future F A) where
  -- `Timeout::poll` from the second test on, with the future as its own poll left it.
  pub check_delay :
      ℕ → ℕ → Option F → Delay → Timers → Poll (Result A TimeoutError) × Timeout F × Timers
  check_delay now waker f d s =
      let (p, d', s') = poll_delay now waker d s in
      elim p [
        | pending ↦ (pending, record { future = f; delay = d' }, s')
        | ready u ↦ (
          ready (err timed_out),
          record { future = none; delay = d' },
          elim f [ none ↦ s' | some g ↦ user.discard g s' ],
        )
      ]

  pub poll_timeout : ℕ → ℕ → Timeout F → Timers → Poll (Result A TimeoutError) × Timeout F × Timers
  unfolding check_delay
  poll_timeout now waker t s = elim t.future [
    | none ↦ check_delay now waker none t.delay s
    | some f ↦
        let (p, g, s') = user.poll waker f s in
        elim p [
          | ready a ↦ (ready (ok a), record t { future = none }, user.discard g s')
          | pending ↦ check_delay now waker (some g) t.delay s'
        ]
  ]
