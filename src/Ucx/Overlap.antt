-- ===== src/Ucx/Overlap.antt =====
-- pluvio_ucx/src: two runs in which the reactor's count departs from what its workers do.
use pluvio.Base.{ℕ, zero, suc, ◌≡◌, refl, false, some, [], ◌∷◌, ◌++◌, ◌==◌, ==_refl, replicate}
use pluvio.Reactor.{stopped}
use pluvio.Ucx.{
  active, new_worker, activate, deactivate, am_stream, drop_id, start, finish, new_stream, dropped,
  call, status, call_at, calls, decrement_active_count,
}

-- However many operations of a worker without listeners began, the end of one of them leaves its
-- reactor stopped.
pub finish-stops :
    (n now : ℕ)
    → status (
        calls
          (replicate (suc n) (0, start) ++ (0, finish now) ∷ [])
          (record { registered_workers = new_worker ∷ []; active_or_waiting_count = 0 }))
      ≡ stopped
unfolding calls call_at call activate status deactivate
finish-stops n now = go n
  where
    go :
        (n : ℕ)
        → status (
            calls (replicate n (0, start) ++ (0, finish now) ∷ []) (record {
              registered_workers = record new_worker { state = active } ∷ [];
              active_or_waiting_count = 1;
            }))
          ≡ stopped
    go zero = refl
    go (suc n) = go n

-- A worker that was never used opens two streams and drops both: it ends inactive, and the count is one
-- less than it was, modulo 2 ^ 64.
pub streams-miscount :
    (a b t t' c : ℕ)
    → (a == b) ≡ false
    → (b == a) ≡ false
    → let (w1, c1) = call (new_stream a) new_worker c in
      let (w2, c2) = call (new_stream b) w1 c1 in
      let (w3, c3) = call (dropped a t) w2 c2 in
      call (dropped b t') w3 c3
      ≡ (record new_worker { wait_connect_start = some t }, decrement_active_count c)
unfolding call am_stream drop_id deactivate
streams-miscount a b t t' c e e' = rw (e', e, ==_refl a, ==_refl b) refl
