-- ===== src/Timer/Tests.antt =====
-- Runs of the timer reactor on concrete timers, and its theorems at them.
use pluvio.Base.{
  ℕ, suc, ◌≤◌, ◌<◌, ◌≡◌, refl, ◌↔◌, none, some, List, [], ◌∷◌, ltb, if◌then◌else◌, arith, ready,
  pending, err, is_ready, is_some,
}
use pluvio.Timer.Handle.{TimerHandle, lt_handle, eq_handle, lookup, delete, range_to, max_at}
use pluvio.Reactor.{running, stopped}
use pluvio.Timer.{
  Timers, register_timer, cancel_timer, timer_count, wake_loop, wake_expired_timers, status, new_at,
  poll_delay, drop_delay, Future, timed_out, poll_timeout,
}
use pluvio.Timer.Expiry.{
  IsValid, due, later, wakers, wake_expired_timers_lem, register_timer_lem, cancel_timer_lem,
  status_lem,
}
use pluvio.Timer.Lifetimes.{
  Call, register, cancel, poll_at, apply_all, apply_all-IsValid, poll_delays, owns,
  drop_delay-poll_delays, poll_timeout-timed_out,
}

abbrev handle : ℕ → ℕ → TimerHandle
handle deadline id = record { deadline = deadline; id = id }

-- Three timers: two at 100, registered in turn, and an older one at 300.
abbrev three : Timers
three = record {
  counter = 4;
  timers = (handle 100 2, 7) ∷ (handle 100 3, 8) ∷ (handle 300 1, 9) ∷ [];
  timer_count_atomic = 3;
}

three-IsValid : IsValid three
unfolding lt_handle
three-IsValid = record {
  sorted = (refl, (refl, (tt, tt)));
  ids = omega arith;
  word = omega arith;
  few = omega arith;
  counted = refl;
}

wakes_two :
    wake_expired_timers three 150
    ≡ (record three { timers = (handle 300 1, 9) ∷ []; timer_count_atomic = 1 }, 2, 7 ∷ 8 ∷ [])
unfolding wake_expired_timers wake_loop range_to max_at lookup delete lt_handle eq_handle
wakes_two = refl

wake_expired_timers_lem_example : wake_expired_timers three 150 ≡ (
  record three { timers = later 150 three.timers; timer_count_atomic = 1 },
  2,
  wakers (due 150 three.timers),
)
wake_expired_timers_lem_example = wake_expired_timers_lem three 150 three-IsValid

register_timer_shown :
    let (t, h) = register_timer three 200 5 in
    (h.deadline ≡ 200)
    × (lookup h three.timers ≡ none)
    × ((j : TimerHandle)
        → lookup j t.timers ≡ (if eq_handle j h then some 5 else lookup j three.timers))
    × (timer_count t ≡ suc (timer_count three))
register_timer_shown = register_timer_lem three 200 5 three-IsValid

cancel_timer_shown :
    let (t, found) = cancel_timer three (handle 100 3) in
    (found ≡ is_some (lookup (handle 100 3) three.timers))
    × ((j : TimerHandle)
        → lookup j t.timers ≡ (if eq_handle j (handle 100 3) then none else lookup j three.timers))
cancel_timer_shown = cancel_timer_lem three (handle 100 3) three-IsValid

status_shown : status three ≡ (if ltb 0 (timer_count three) then running else stopped)
status_shown = status_lem three three-IsValid

abbrev calls : List Call
calls = register 50 4 ∷ poll_at 150 ∷ cancel (handle 300 1) ∷ []

apply_all-IsValid_example : IsValid (apply_all three calls)
apply_all-IsValid_example = apply_all-IsValid three calls three-IsValid (omega arith)

-- Another timer comes, and the reactor polls at 95, between the last poll and the drop.
abbrev meanwhile : List Call
meanwhile = register 200 5 ∷ poll_at 95 ∷ []

drop_delay-poll_delays_example :
    let (d, t) = poll_delays (10 ∷ 20 ∷ []) 6 (new_at 90) three in
    let u = apply_all t meanwhile in
    ((drop_delay d t).timers ≡ three.timers)
    × ((drop_delay d t).timer_count_atomic ≡ 3)
    × (lookup (handle 90 4) (drop_delay d u).timers
        ≡ (if owns d (handle 90 4) then none else lookup (handle 90 4) u.timers))
drop_delay-poll_delays_example =
    drop_delay-poll_delays (10 ∷ 20 ∷ []) 6 90 three meanwhile (handle 90 4) three-IsValid
      (omega arith)

-- A future that is ready with the number that it holds, once that is positive.
abbrev lazy : Future ℕ ℕ
lazy = record {
  poll = λ waker f s. (if ltb 0 f then ready f else pending, f, s);
  discard = λ f s. s;
}

poll_timeout-timed_out_example :
    let (p, g, s') = lazy.poll 6 0 three in
    let (q, t, s'') =
      poll_timeout lazy 95 6 (record { future = some 0; delay = new_at 90 }) three in
    ((q ≡ ready (err timed_out)) ↔ ((p ≡ pending) × ((new_at 90).deadline ≤ 95)))
    × ((q ≡ pending) ↔ ((p ≡ pending) × (95 < (new_at 90).deadline)))
    × (s'' ≡ (if is_ready q then lazy.discard g s' else (poll_delay 95 6 (new_at 90) s').2))
poll_timeout-timed_out_example = poll_timeout-timed_out lazy 95 6 0 (new_at 90) three
