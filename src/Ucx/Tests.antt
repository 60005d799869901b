-- ===== src/Ucx/Tests.antt =====
-- The reactor of UCX at concrete inputs.
use pluvio.Base.{ℕ, ◌≡◌, refl, some, List, [], ◌∷◌, ◌++◌, ltb, if◌then◌else◌, replicate, arith}
use pluvio.Reactor.{running, stopped}
use pluvio.Ucx.{
  new_worker, start, finish, send, listen, heard, new_listener, new_stream, dropped, Call, call,
  UcxReactor, status, calls, call_at, activate, deactivate, start_waiting, create_listener,
  am_stream, drop_id, decrement_active_count,
}
use pluvio.Ucx.Counting.{live_count, counted, all_counted, IsCounted, calls-IsCounted}
use pluvio.Ucx.Overlap.{finish-stops, streams-miscount}

abbrev reactor : UcxReactor
reactor = record { registered_workers = new_worker ∷ new_worker ∷ []; active_or_waiting_count = 0 }

abbrev ops : List (ℕ × Call)
ops =
    (0, new_listener 7 1)
    ∷ (1, start)
    ∷ (1, finish 2)
    ∷ (0, listen 3)
    ∷ (0, heard 4)
    ∷ (5, start)
    ∷ (0, dropped 7 5)
    ∷ (1, send)
    ∷ []

calls-IsCounted_example :
    IsCounted (calls ops reactor)
    × (status (calls ops reactor)
        ≡ (if ltb 0 (live_count (calls ops reactor).registered_workers) then running else stopped))
unfolding IsCounted all_counted counted call_at call activate deactivate start_waiting
    create_listener am_stream drop_id
calls-IsCounted_example = calls-IsCounted ops reactor refl (omega arith) refl

finish-stops_example :
    status (
      calls
        (replicate 3 (0, start) ++ (0, finish 9) ∷ [])
        (record { registered_workers = new_worker ∷ []; active_or_waiting_count = 0 }))
    ≡ stopped
finish-stops_example = finish-stops 2 9

streams-miscount_example :
    let (w1, c1) = call (new_stream 1) new_worker 0 in
    let (w2, c2) = call (new_stream 2) w1 c1 in
    let (w3, c3) = call (dropped 1 10) w2 c2 in
    call (dropped 2 11) w3 c3
    ≡ (record new_worker { wait_connect_start = some 10 }, decrement_active_count 0)
streams-miscount_example = streams-miscount 1 2 10 11 0 refl refl
