-- ===== src/Ucx/Counting.antt =====
-- pluvio_ucx/src: when the reactor's count is the number of workers that are not inactive.
use native.Mathlib.Nat.{mod-eq_of_lt}
use pluvio.Base.{
  ℕ, zero, suc, ◌+◌, ◌-◌, ◌^◌, ◌%◌, ◌<◌, ◌≤◌, ◌≡◌, refl, sym, ap, ◌∙◌, inl, inr, Bool, true, false,
  ◌&&◌, Option, none, some, List, [], ◌∷◌, length, length-set, get_elem?, set, ltb, if◌then◌else◌,
  Option-cases, arith,
}
use pluvio.Reactor.{running, stopped}
use pluvio.Ucx.{
  WorkerState, active, wait_connect, inactive, Worker, remove_id, entered, left, activate,
  deactivate, start_waiting, create_listener, am_stream, drop_id, Call, start, send, finish, listen,
  heard, new_listener, new_stream, dropped, call, UcxReactor, status, call_at, calls,
}

-- One for a worker that is not inactive.
abbrev pub live : WorkerState → ℕ
live inactive = 0
live active = 1
live wait_connect = 1

abbrev pub live_count : List Worker → ℕ
live_count [] = 0
live_count (w ∷ ws) = live w.state + live_count ws

abbrev keeps_count : WorkerState → List ℕ → Bool
keeps_count inactive [] = true
keeps_count inactive (i ∷ ids) = false
keeps_count active ids = true
keeps_count wait_connect ids = true

-- The call does not deactivate a worker that is inactive and has ids left.
unfoldable pub counted : Call → Worker → Bool
counted (finish now) w = keeps_count w.state w.listener_ids
counted (heard now) w = keeps_count w.state w.listener_ids
counted (dropped id now) w = keeps_count w.state (remove_id id w.listener_ids)
counted start w = true
counted send w = true
counted (listen now) w = true
counted (new_listener addr now) w = true
counted (new_stream id) w = true

unfoldable pub all_counted : List (ℕ × Call) → UcxReactor → Bool
all_counted [] r = true
all_counted ((i, a) ∷ later) r = elim (get_elem? r.registered_workers i) as (λ x. Bool) [
  | none ↦ all_counted later r
  | some w ↦ counted a w && all_counted later (call_at i a r)
]

entered-live :
    (s : WorkerState) (c others : ℕ)
    → c ≡ live s + others
    → others + 1 < 2 ^ 64
    → entered s c ≡ 1 + others
entered-live inactive c others e b = rw (e) (omega (arith, mod-eq_of_lt b))
entered-live active c others e b = e
entered-live wait_connect c others e b = e

wrapped : (n : ℕ) → n + 1 < 2 ^ 64 → (1 + n + (2 ^ 64 - 1)) % 2 ^ 64 ≡ n
wrapped n b = omega arith

left-live :
    (s : WorkerState) (c others : ℕ) → c ≡ live s + others → others + 1 < 2 ^ 64 → left s c ≡ others
left-live inactive c others e b = omega arith
left-live active c others e b = rw (e) (wrapped others b)
left-live wait_connect c others e b = rw (e) (wrapped others b)

deactivate-live :
    (now : ℕ) (w : Worker) (c others : ℕ)
    → c ≡ live w.state + others
    → others + 1 < 2 ^ 64
    → keeps_count w.state w.listener_ids ≡ true
    → (deactivate now w c).1 ≡ live (deactivate now w c).0.state + others
unfolding deactivate
deactivate-live now w c others e b k = go w.state w.listener_ids w.wait_connect_start e k
  where
    go :
        (s : WorkerState) (ids : List ℕ) (t : Option ℕ)
        → c ≡ live s + others
        → keeps_count s ids ≡ true
        → let w' : Worker = record { state = s; listener_ids = ids; wait_connect_start = t } in
          (deactivate now w' c).1 ≡ live (deactivate now w' c).0.state + others
    go s [] t e k = rw (left-live s c others e b) (omega arith)
    go active (i ∷ ids) t e k = e
    go wait_connect (i ∷ ids) t e k = e
    go inactive (i ∷ ids) t e k = ground (arith, k)

start_waiting-live :
    (now : ℕ) (w : Worker) (c others : ℕ)
    → c ≡ live w.state + others
    → others + 1 < 2 ^ 64
    → (start_waiting now w c).1 ≡ live (start_waiting now w c).0.state + others
unfolding start_waiting
start_waiting-live now w c others e b = entered-live w.state c others e b

create_listener-live :
    (addr now : ℕ) (w : Worker) (c others : ℕ)
    → c ≡ live w.state + others
    → others + 1 < 2 ^ 64
    → (create_listener addr now w c).1 ≡ live (create_listener addr now w c).0.state + others
unfolding create_listener
create_listener-live addr now w c others e b = go w.state w.listener_ids w.wait_connect_start e
  where
    go :
        (s : WorkerState) (ids : List ℕ) (t : Option ℕ)
        → c ≡ live s + others
        → let w' : Worker = record { state = s; listener_ids = ids; wait_connect_start = t } in
          (create_listener addr now w' c).1 ≡ live (create_listener addr now w' c).0.state + others
    go active ids t e = e
    go wait_connect ids t e = e
    go inactive ids t e =
        start_waiting-live now
          (record { state = inactive; listener_ids = ids; wait_connect_start = t }) c others e b

call-live :
    (a : Call) (w : Worker) (c others : ℕ)
    → c ≡ live w.state + others
    → others + 1 < 2 ^ 64
    → counted a w ≡ true
    → (call a w c).1 ≡ live (call a w c).0.state + others
unfolding call counted activate create_listener am_stream drop_id
call-live start w c others e b k = entered-live w.state c others e b
call-live send w c others e b k = entered-live w.state c others e b
call-live (finish now) w c others e b k = deactivate-live now w c others e b k
call-live (heard now) w c others e b k = deactivate-live now w c others e b k
call-live (dropped id now) w c others e b k =
    deactivate-live now (record w { listener_ids = remove_id id w.listener_ids }) c others e b k
call-live (listen now) w c others e b k = start_waiting-live now w c others e b
call-live (new_listener addr now) w c others e b k = create_listener-live addr now w c others e b
call-live (new_stream id) w c others e b k = e

-- The count of the other workers.
rest_count : ℕ → List Worker → ℕ
rest_count i [] = 0
rest_count zero (w ∷ ws) = live_count ws
rest_count (suc i) (w ∷ ws) = live w.state + rest_count i ws

live_le : (s : WorkerState) → live s ≤ 1
live_le inactive = omega arith
live_le active = omega arith
live_le wait_connect = omega arith

live_count_le : (ws : List Worker) → live_count ws ≤ length ws
live_count_le [] = omega arith
live_count_le (w ∷ ws) = omega (arith, live_count_le ws, live_le w.state)

abbrev live_or : Option Worker → ℕ
live_or none = 0
live_or (some w) = live w.state

live_count-get :
    (i : ℕ) (w : Worker) (ws : List Worker)
    → get_elem? ws i ≡ some w
    → (live_count ws ≡ live w.state + rest_count i ws) × (rest_count i ws < length ws)
unfolding rest_count
live_count-get i w [] h = ground (arith, h)
live_count-get zero w (v ∷ ws) h =
    (ap (λ x. x + live_count ws) (ap live_or h), omega (arith, live_count_le ws))
live_count-get (suc i) w (v ∷ ws) h =
    let (e, l) = live_count-get i w ws h in (omega (arith, e), omega (arith, l, live_le v.state))

live_count-set :
    (i : ℕ) (w w' : Worker) (ws : List Worker)
    → get_elem? ws i ≡ some w
    → live_count (set ws i w') ≡ live w'.state + rest_count i ws
unfolding rest_count
live_count-set i w w' [] h = ground (arith, h)
live_count-set zero w w' (v ∷ ws) h = refl
live_count-set (suc i) w w' (v ∷ ws) h = omega (arith, live_count-set i w w' ws h)

-- The reactor's count is the number of its workers that are not inactive.
unfoldable pub IsCounted : UcxReactor → Type 0
IsCounted r = r.active_or_waiting_count ≡ live_count r.registered_workers

call_at-IsCounted :
    (i : ℕ) (a : Call) (w : Worker) (r : UcxReactor)
    → get_elem? r.registered_workers i ≡ some w
    → IsCounted r
    → length r.registered_workers < 2 ^ 64
    → counted a w ≡ true
    → IsCounted (call_at i a r)
      × (length (call_at i a r).registered_workers ≡ length r.registered_workers)
unfolding IsCounted call_at
call_at-IsCounted i a w r g e b k =
    let (w', c) = call a w r.active_or_waiting_count in
    let (sum, few) = live_count-get i w r.registered_workers g in
    rw (g, call_at)
      (
        call-live a w r.active_or_waiting_count (rest_count i r.registered_workers) (e ∙ sum)
              (omega arith) k
            ∙ sym (live_count-set i w w' r.registered_workers g),
        length-set r.registered_workers i w',
      )

call_at-none :
    (i : ℕ) (a : Call) (r : UcxReactor)
    → get_elem? r.registered_workers i ≡ none
    → call_at i a r ≡ r
unfolding call_at
call_at-none i a r g = rw (g, call_at) refl

all_counted-none :
    (i : ℕ) (a : Call) (later : List (ℕ × Call)) (r : UcxReactor)
    → get_elem? r.registered_workers i ≡ none
    → all_counted ((i, a) ∷ later) r ≡ all_counted later r
unfolding all_counted
all_counted-none i a later r g = rw (g, all_counted) refl

all_counted-some :
    (i : ℕ) (a : Call) (w : Worker) (later : List (ℕ × Call)) (r : UcxReactor)
    → get_elem? r.registered_workers i ≡ some w
    → all_counted ((i, a) ∷ later) r ≡ (counted a w && all_counted later (call_at i a r))
unfolding all_counted
all_counted-some i a w later r g = rw (g, all_counted) refl

both : (x y : Bool) → (x && y) ≡ true → (x ≡ true) × (y ≡ true)
both x y h = ground (arith, h)

-- From a count that is right, with fewer than 2 ^ 64 workers, and in a run in which no call
-- deactivates a worker that is inactive and still has ids, the count stays the number of workers
-- that are not inactive, and the reactor says that it runs just when there is one.
pub calls-IsCounted :
    (ops : List (ℕ × Call)) (r : UcxReactor)
    → IsCounted r
    → length r.registered_workers < 2 ^ 64
    → all_counted ops r ≡ true
    → IsCounted (calls ops r)
      × (status (calls ops r)
          ≡ (if ltb 0 (live_count (calls ops r).registered_workers) then running else stopped))
unfolding calls IsCounted status
calls-IsCounted [] r e b k = (e, ap (λ n. if ltb 0 n then running else stopped) e)
calls-IsCounted ((i, a) ∷ later) r e b k = elim (Option-cases (get_elem? r.registered_workers i)) [
  | inl g ↦
      rw (call_at-none i a r g, calls)
        (calls-IsCounted later r e b (sym (all_counted-none i a later r g) ∙ k))
  | inr (w, g) ↦
      let (now, after) =
        both (counted a w) (all_counted later (call_at i a r))
          (sym (all_counted-some i a w later r g) ∙ k) in
      let (e', l) = call_at-IsCounted i a w r g e b now in
      calls-IsCounted later (call_at i a r) e' (omega (arith, l)) after
]
