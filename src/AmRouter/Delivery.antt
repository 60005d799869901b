-- ===== src/AmRouter/Delivery.antt =====
-- pluvio_collective/src/ucx_backend/am_router.rs: a message reaches the receive of its key, in either
-- order, and no other.
use pluvio.Base.{
  ℕ, ◌<◌, ◌≡◌, ◌≢◌, refl, ap, ap₂, ◌∙◌, true, false, none, some, List, [], ◌∷◌, ◌++◌, ==_refl,
  length, ok, err, done, ready, pending, arith,
}
use pluvio.AmRouter.Header.{AmHeader, bad_header, RecvKey, encode, decode}
use pluvio.AmRouter.Slots.{find, remove, insert, find-insert_self, remove-insert}
use pluvio.AmRouter.{
  PendingRecv, waiting, early, State, put, copy_into, take_early, register_pending, cancel_pending,
  complete, deliver, RecvFuture, recv_future, first_poll, poll_recv, drop_recv,
}

-- A header comes back from its bytes, and fewer than eight bytes are refused with their number.
pub decode-encode :
    (h : AmHeader)
    → (decode (encode h) ≡ ok h)
      × (length (encode h) ≡ 8)
      × ((bytes : List ℕ) → length bytes < 8 → decode bytes ≡ err (bad_header (length bytes) 8))
unfolding encode decode
decode-encode h =
    (ap₂ (λ a b. ok (record h { src = a; step = b })) (omega arith) (omega arith), refl, short)
  where
    short : (bytes : List ℕ) → length bytes < 8 → decode bytes ≡ err (bad_header (length bytes) 8)
    short [] l = refl
    short (a ∷ []) l = refl
    short (a ∷ b ∷ []) l = refl
    short (a ∷ b ∷ c ∷ []) l = refl
    short (a ∷ b ∷ c ∷ d ∷ []) l = refl
    short (a ∷ b ∷ c ∷ d ∷ e ∷ []) l = refl
    short (a ∷ b ∷ c ∷ d ∷ e ∷ f ∷ []) l = refl
    short (a ∷ b ∷ c ∷ d ∷ e ∷ f ∷ g ∷ []) l = refl
    short (a ∷ b ∷ c ∷ d ∷ e ∷ f ∷ g ∷ h ∷ rest) l = ground (arith, l)

-- The state once `bytes` are in the target of a receive.
unfoldable pub filled : RecvFuture → List ℕ → List ℕ → State → State
filled f bytes woken s = record s {
  buffers = put f.target (copy_into bytes f.len (s.buffers f.target)) s.buffers;
  is_done = put f.flag true s.is_done;
  woken = woken;
}

pub put_self {ℓ} : {A : Type ℓ} (i : ℕ) (a : A) (f : ℕ → A) → put i a f i ≡ a
put_self i a f = rw (==_refl i) refl

pub put_other {ℓ} : {A : Type ℓ} (i j : ℕ) (a : A) (f : ℕ → A) → j ≢ i → put i a f j ≡ f j
put_other i j a f h = ground (arith, h)

take_early-free :
    (key : RecvKey) (s : State) → find key s.slots ≡ none → take_early key s ≡ (s, none)
unfolding take_early
take_early-free key s h = rw (h, take_early) refl

take_early-early :
    (key : RecvKey) (bytes : List ℕ) (s : State)
    → find key s.slots ≡ some (early bytes)
    → take_early key s ≡ (record s { slots = remove key s.slots }, some bytes)
unfolding take_early
take_early-early key bytes s h = rw (h, take_early) refl

register_pending-free :
    (key : RecvKey) (p : PendingRecv) (s : State)
    → find key s.slots ≡ none
    → register_pending key p s ≡ done (record s { slots = insert key (waiting p) s.slots })
unfolding register_pending
register_pending-free key p s h = rw (h, register_pending) refl

pub deliver-free :
    (key : RecvKey) (bytes : List ℕ) (s : State)
    → find key s.slots ≡ none
    → deliver key bytes s ≡ record s { slots = insert key (early bytes) s.slots }
unfolding deliver
deliver-free key bytes s h = rw (h, deliver) refl

pub deliver-waiting :
    (key : RecvKey) (bytes : List ℕ) (p : PendingRecv) (s : State)
    → find key s.slots ≡ some (waiting p)
    → deliver key bytes s ≡ complete p bytes (record s { slots = remove key s.slots })
unfolding deliver
deliver-waiting key bytes p s h = rw (h, deliver) refl

pub deliver-early :
    (key : RecvKey) (bytes old : List ℕ) (s : State)
    → find key s.slots ≡ some (early old)
    → deliver key bytes s ≡ record s { slots = remove key s.slots }
unfolding deliver
deliver-early key bytes old s h = rw (h, deliver) refl

-- A poll of a receive that is done, of a new one, and of one that is registered.
poll_recv-done :
    (w : ℕ) (f : RecvFuture) (s : State)
    → s.is_done f.flag ≡ true
    → poll_recv w f s ≡ done (s, f, ready tt)
unfolding poll_recv
poll_recv-done w f s h = rw (h) refl

poll_recv-new :
    (w : ℕ) (key : RecvKey) (flag target len : ℕ) (s : State)
    → s.is_done flag ≡ false
    → poll_recv w (recv_future key flag target len) s
      ≡ first_poll w (recv_future key flag target len) (take_early key s)
unfolding poll_recv recv_future
poll_recv-new w key flag target len s h = rw (h) refl

-- A new receive whose key is free and whose flag is not set: polled before the message comes, it
-- registers, and the message fills its target and wakes it; polled after, it takes the message
-- that waits. Both ways the poll after is ready, the router holds what it held, and memory is the
-- same.
pub recv_either_order :
    (w w' : ℕ) (key : RecvKey) (flag target len : ℕ) (bytes : List ℕ) (s : State)
    → find key s.slots ≡ none
    → s.is_done flag ≡ false
    → let f = recv_future key flag target len in
      ((s' : State) × (poll_recv w f s ≡ done (s', record f { registered = true }, pending))
        × (poll_recv w' (record f { registered = true }) (deliver key bytes s')
            ≡ done
                (filled f bytes (s.woken ++ w ∷ []) s, record f { registered = true }, ready tt)))
      × (poll_recv w' f (deliver key bytes s) ≡ done (filled f bytes s.woken s, f, ready tt))
unfolding recv_future first_poll complete filled
recv_either_order w w' key flag target len bytes s free undone =
    let p : PendingRecv = record { target = target; len = len; flag = flag; waker = some w } in
    let f = recv_future key flag target len in
    let s' : State = record s { slots = insert key (waiting p) s.slots } in
    let s'' : State = record s { slots = insert key (early bytes) s.slots } in
    (
      (
        s',
        rw
            (
              poll_recv-new w key flag target len s undone,
              take_early-free key s free,
              register_pending-free key p s free,
            )
            refl,
        rw
            (
              deliver-waiting key bytes p s' (find-insert_self key (waiting p) s.slots),
              poll_recv-done w' (record f { registered = true })
                  (complete p bytes (record s' { slots = remove key s'.slots }))
                  (put_self flag true s.is_done),
            )
            (ap
              (λ m. done (
                record (filled f bytes (s.woken ++ w ∷ []) s) { slots = m },
                record f { registered = true },
                ready tt,
              ))
              (remove-insert key (waiting p) s.slots free)),
      ),
      rw
          (
            deliver-free key bytes s free,
            poll_recv-new w' key flag target len s'' undone,
            take_early-early key bytes s'' (find-insert_self key (early bytes) s.slots),
          )
          (ap (λ m. done (record (filled f bytes s.woken s) { slots = m }, f, ready tt))
            (remove-insert key (early bytes) s.slots free)),
    )

-- A new receive whose key is free and whose flag is not set, dropped while it waits, leaves the
-- router as it was before its first poll, so that a message that comes later is kept, and no
-- buffer changes.
pub drop_recv-poll_recv :
    (w : ℕ) (key : RecvKey) (flag target len : ℕ) (bytes : List ℕ) (s : State)
    → find key s.slots ≡ none
    → s.is_done flag ≡ false
    → let f = recv_future key flag target len in
      (s' : State) × (f' : RecvFuture) × (poll_recv w f s ≡ done (s', f', pending))
      × (drop_recv f' s' ≡ s)
      × (deliver key bytes (drop_recv f' s')
          ≡ record s { slots = insert key (early bytes) s.slots })
unfolding recv_future first_poll drop_recv cancel_pending
drop_recv-poll_recv w key flag target len bytes s free undone =
    let p : PendingRecv = record { target = target; len = len; flag = flag; waker = some w } in
    let s' : State = record s { slots = insert key (waiting p) s.slots } in
    let f' : RecvFuture = record (recv_future key flag target len) { registered = true } in
    let e : drop_recv f' s' ≡ s =
      rw (undone) (ap (λ m. record s { slots = m }) (remove-insert key (waiting p) s.slots free)) in
    (
      s',
      f',
      rw
          (
            poll_recv-new w key flag target len s undone,
            take_early-free key s free,
            register_pending-free key p s free,
          )
          refl,
      e,
      ap (deliver key bytes) e ∙ deliver-free key bytes s free,
    )

-- Two messages at a free key, with no receive between them, leave the router as it was.
pub deliver_twice :
    (key : RecvKey) (first second : List ℕ) (s : State)
    → find key s.slots ≡ none
    → deliver key second (deliver key first s) ≡ s
deliver_twice key first second s free = rw (deliver-free key first s free) (
    deliver-early key second first (record s { slots = insert key (early first) s.slots })
      (find-insert_self key (early first) s.slots)
    ∙ ap (λ m. record s { slots = m }) (remove-insert key (early first) s.slots free))
