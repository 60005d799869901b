-- ===== src/Timer/Lifetimes.antt =====
-- Any sequence of calls on the timer reactor, and the life of a `Delay` and of a `Timeout`.
use pluvio.Base.{
  ℕ, ◌+◌, ◌^◌, ◌≤◌, ◌<◌, ◌≡◌, refl, ap, ◌∙◌, Bool, false, none, Bool-cases, Option-cases, some,
  List, [], ◌∷◌, length, if◌then◌else◌, inl, inr, ◌⊎◌, ◌↔◌, is_ready, Poll-cases, arith, err, ready,
  pending,
}
use pluvio.Timer.Handle.{TimerHandle, eq_handle, lookup}
use pluvio.Timer.Order.{
  lookup_fresh, lookup_same, lookup-insert, lookup-delete, delete-insert, eq_handle_refl,
}
use pluvio.Timer.{
  Timers, register_timer, cancel_timer, wake_expired_timers, Delay, new_at, poll_delay, drop_delay,
  Future, timed_out, poll_timeout, check_delay,
}
use pluvio.Timer.Expiry.{
  IsValid, wake_expired_timers_lem, wake_expired_timers-IsValid, register_timer-IsValid,
  cancel_timer-IsValid,
}

-- The calls of a client and of the runtime.
pub data Call : Type 0 where
  register : ℕ → ℕ → Call
  cancel : TimerHandle → Call
  poll_at : ℕ → Call

pub apply : Timers → Call → Timers
apply s (register deadline waker) = (register_timer s deadline waker).0
apply s (cancel h) = (cancel_timer s h).0
apply s (poll_at now) = (wake_expired_timers s now).0

pub apply_all : Timers → List Call → Timers
apply_all s [] = s
apply_all s (c ∷ cs) = apply_all (apply s c) cs

counter-apply : (s : Timers) (c : Call) → IsValid s → (apply s c).counter ≤ s.counter + 1
unfolding apply register_timer cancel_timer
counter-apply s (register deadline waker) h = omega arith
counter-apply s (cancel k) h = ground arith
counter-apply s (poll_at now) h =
    omega (arith, ap (λ (r : Timers × ℕ × List ℕ). r.0.counter) (wake_expired_timers_lem s now h))

apply-IsValid : (s : Timers) (c : Call) → IsValid s → s.counter + 1 < 2 ^ 64 → IsValid (apply s c)
unfolding apply
apply-IsValid s (register deadline waker) v h = register_timer-IsValid s deadline waker v h
apply-IsValid s (cancel k) v h = cancel_timer-IsValid s k v
apply-IsValid s (poll_at now) v h = wake_expired_timers-IsValid s now v

-- From a valid reactor, every sequence of calls keeps the timers in order, their ids distinct from
-- those to come, and the atomic count equal to the number of timers, as long as the id counter
-- does not run out.
pub apply_all-IsValid :
    (s : Timers) (cs : List Call)
    → IsValid s
    → s.counter + length cs < 2 ^ 64
    → IsValid (apply_all s cs)
unfolding apply_all
apply_all-IsValid s [] v h = v
apply_all-IsValid s (c ∷ cs) v h =
    apply_all-IsValid (apply s c) cs (apply-IsValid s c v (omega arith))
      (omega (arith, counter-apply s c v))

-- A delay polled at each of the readings of a clock, by one task, until it is ready or the readings
-- end.
pub poll_delays : List ℕ → ℕ → Delay → Timers → Delay × Timers
poll_delays [] waker d s = (d, s)
poll_delays (now ∷ nows) waker d s =
    let (p, d', s') = poll_delay now waker d s in poll_delays nows waker d' s'

poll_armed :
    (now waker : ℕ) (d : Delay) (s : Timers) (h : TimerHandle)
    → d.timer_handle ≡ some h
    → ((poll_delay now waker d s).1 ≡ d) × ((poll_delay now waker d s).2 ≡ s)
unfolding poll_delay
poll_armed now waker d s h e = ground arith

poll_delays_nil : (waker : ℕ) (d : Delay) (s : Timers) → poll_delays [] waker d s ≡ (d, s)
unfolding poll_delays
poll_delays_nil waker d s = refl

poll_delays_armed :
    (nows : List ℕ) (waker : ℕ) (d : Delay) (s : Timers) (h : TimerHandle)
    → d.timer_handle ≡ some h
    → poll_delays nows waker d s ≡ (d, s)
unfolding poll_delays
poll_delays_armed [] waker d s h e = refl
poll_delays_armed (now ∷ nows) waker d s h e =
    let (same_d, same_s) = poll_armed now waker d s h e in
    rw (same_d, same_s) (poll_delays_armed nows waker d s h e)

-- What `Delay::poll` leaves of an unarmed delay.
poll_unarmed :
    (now waker deadline : ℕ) (s : Timers)
    → let (p, d, t) = poll_delay now waker (new_at deadline) s in
      ((d ≡ new_at deadline) × (t ≡ s))
      ⊎ ((d ≡ record {
        deadline = deadline;
        timer_handle = some (register_timer s deadline waker).1;
      })
          × (t ≡ (register_timer s deadline waker).0))
unfolding poll_delay new_at
poll_unarmed now waker deadline s = ground arith

drop_unarmed : (deadline : ℕ) (s : Timers) → drop_delay (new_at deadline) s ≡ s
unfolding drop_delay new_at
drop_unarmed deadline s = refl

drop_armed :
    (deadline : ℕ) (h : TimerHandle) (s : Timers)
    → drop_delay (record { deadline = deadline; timer_handle = some h }) s ≡ (cancel_timer s h).0
unfolding drop_delay
drop_armed deadline h s = refl

-- Cancelling what was just registered undoes it.
cancel-register :
    (s : Timers) (deadline waker : ℕ)
    → IsValid s
    → s.counter + 1 < 2 ^ 64
    → let (t, h) = register_timer s deadline waker in
      ((cancel_timer t h).0.timers ≡ s.timers)
      × ((cancel_timer t h).0.timer_count_atomic ≡ s.timer_count_atomic)
unfolding register_timer cancel_timer
cancel-register s deadline waker v h =
    let k : TimerHandle = record { deadline = deadline; id = s.counter } in
    let fresh = lookup_fresh k s.counter s.timers v.ids (omega arith) in
    (
      ground (
        arith,
        lookup-insert k k waker s.timers,
        eq_handle_refl k,
        delete-insert k waker s.timers fresh,
      ),
      ground (arith, lookup-insert k k waker s.timers, eq_handle_refl k),
    )

poll_delays_cons :
    (now : ℕ) (nows : List ℕ) (waker : ℕ) (d d' : Delay) (s s' : Timers)
    → (poll_delay now waker d s).1 ≡ d'
    → (poll_delay now waker d s).2 ≡ s'
    → poll_delays (now ∷ nows) waker d s ≡ poll_delays nows waker d' s'
unfolding poll_delays
poll_delays_cons now nows waker d d' s s' e h = rw (e, h)

-- After any polls a new delay is still unarmed, or has registered once.
poll_delays_once :
    (nows : List ℕ) (waker deadline : ℕ) (s : Timers)
    → (poll_delays nows waker (new_at deadline) s ≡ (new_at deadline, s))
      ⊎ (poll_delays nows waker (new_at deadline) s ≡ (
        record { deadline = deadline; timer_handle = some (register_timer s deadline waker).1 },
        (register_timer s deadline waker).0,
      ))
poll_delays_once [] waker deadline s = inl (poll_delays_nil waker (new_at deadline) s)
poll_delays_once (now ∷ nows) waker deadline s = elim (poll_unarmed now waker deadline s) [
  | inl (same_d, same_s) ↦
      rw (poll_delays_cons now nows waker (new_at deadline) (new_at deadline) s s same_d same_s)
        (poll_delays_once nows waker deadline s)
  | inr (new_d, new_s) ↦ inr (
      poll_delays_cons now nows waker (new_at deadline) _ s _ new_d new_s
      ∙ poll_delays_armed nows waker _ _ _ refl)
]

-- Whether a delay registered the timer `k`.
abbrev pub owns : Delay → TimerHandle → Bool
owns d k = elim d.timer_handle [ none ↦ false | some h ↦ eq_handle k h ]

lookup-cancel_timer :
    (k h : TimerHandle) (s : Timers)
    → IsValid s
    → lookup k (cancel_timer s h).0.timers ≡ (if eq_handle k h then none else lookup k s.timers)
unfolding cancel_timer
lookup-cancel_timer k h s v = elim (Option-cases (lookup h s.timers)) [
  | inr (w, e) ↦ rw (e, cancel_timer) (lookup-delete k h s.timers v.sorted)
  | inl e ↦ elim (Bool-cases (eq_handle k h)) [
    | inl y ↦ rw (e, cancel_timer, y) (lookup_same k h s.timers y ∙ e)
    | inr y ↦ rw (e, cancel_timer, y) refl
  ]
]

lookup-drop_delay :
    (k : TimerHandle) (d : Delay) (s : Timers)
    → IsValid s
    → lookup k (drop_delay d s).timers ≡ (if owns d k then none else lookup k s.timers)
unfolding drop_delay
lookup-drop_delay k d s v = elim (Option-cases d.timer_handle) [
  | inl e ↦ rw e refl
  | inr (h, e) ↦ rw e (lookup-cancel_timer k h s v)
]

-- In a valid reactor whose id counter does not run out, and however often a new delay is polled before it is
-- dropped: if nothing else uses the reactor meanwhile, the drop leaves the timers and their count as they
-- were before the delay was made; and whatever calls others make between the last poll and the drop, the
-- drop takes away the delay's own timer, where it has one, and leaves all others.
pub drop_delay-poll_delays :
    (nows : List ℕ) (waker deadline : ℕ) (s : Timers) (cs : List Call) (k : TimerHandle)
    → IsValid s
    → s.counter + 1 + length cs < 2 ^ 64
    → let (d, t) = poll_delays nows waker (new_at deadline) s in
      let u = apply_all t cs in
      ((drop_delay d t).timers ≡ s.timers)
      × ((drop_delay d t).timer_count_atomic ≡ s.timer_count_atomic)
      × (lookup k (drop_delay d u).timers ≡ (if owns d k then none else lookup k u.timers))
unfolding register_timer
drop_delay-poll_delays nows waker deadline s cs k v h =
    elim (poll_delays_once nows waker deadline s) [
      | inl e ↦ rw (e) (
        ap (λ x. x.timers) (drop_unarmed deadline s),
        ap (λ x. x.timer_count_atomic) (drop_unarmed deadline s),
        lookup-drop_delay k (new_at deadline) (apply_all s cs)
            (apply_all-IsValid s cs v (omega arith)),
      )
      | inr e ↦
          let t = (register_timer s deadline waker).0 in
          let d : Delay = record {
            deadline = deadline;
            timer_handle = some (register_timer s deadline waker).1;
          } in
          let w = register_timer-IsValid s deadline waker v (omega arith) in
          let few = counter-apply s (register deadline waker) v in
          let (same_timers, same_count) = cancel-register s deadline waker v (omega arith) in
          rw (e, drop_armed)
            (
              same_timers,
              same_count,
              lookup-drop_delay k d (apply_all t cs)
                  (apply_all-IsValid t cs w (omega (arith, few, h))),
            )
    ]

-- A `Timeout` is out of time exactly when its deadline has come and its future is still pending, and
-- pending exactly when the deadline is to come and the future is pending. In the first case the future
-- is dropped, as its own poll left it.
pub poll_timeout-timed_out {ℓ} :
    {F A : Type ℓ} (user : Future F A) (now waker : ℕ) (f : F) (d : Delay) (s : Timers)
    → let (p, g, s') = user.poll waker f s in
      let (q, t, s'') = poll_timeout user now waker (record { future = some f; delay = d }) s in
      ((q ≡ ready (err timed_out)) ↔ ((p ≡ pending) × (d.deadline ≤ now)))
      × ((q ≡ pending) ↔ ((p ≡ pending) × (now < d.deadline)))
      × (s'' ≡ (if is_ready q then user.discard g s' else (poll_delay now waker d s').2))
unfolding poll_timeout check_delay poll_delay
poll_timeout-timed_out user now waker f d s = elim (Poll-cases (user.poll waker f s).0) [
  | inl e ↦ (
    (λ h. (e, ground arith), λ h. ground arith),
    (λ h. (e, ground arith), λ h. ground arith),
    ground arith,
  )
  | inr (a, e) ↦ (
    (λ h. absurd (ground arith), λ h. absurd (ground arith)),
    (λ h. absurd (ground arith), λ h. absurd (ground arith)),
    ground arith,
  )
]
