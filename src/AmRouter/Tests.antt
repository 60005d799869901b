-- ===== src/AmRouter/Tests.antt =====
-- The router of active messages at concrete inputs.
use pluvio.Base.{
  ℕ, ◌≡◌, ◌<◌, refl, true, false, none, some, List, [], ◌∷◌, ◌++◌, length, ok, err, done, ready,
  pending, arith,
}
use pluvio.AmRouter.Header.{AmHeader, RecvKey, recv_key, encode, decode, same_key, bad_header}
use pluvio.AmRouter.Slots.{find, insert}
use pluvio.AmRouter.{
  PendingRecv, waiting, early, State, copy_into, deliver, Message, dispatcher_loop, recv_future,
  poll_recv, drop_recv, RecvFuture,
}
use pluvio.AmRouter.Delivery.{
  decode-encode, filled, recv_either_order, drop_recv-poll_recv, deliver_twice,
}
use pluvio.AmRouter.Dispatch.{IsOwner, Misses, dispatcher_loop_completes}

abbrev header : ℕ → AmHeader
header n = record { src = n; step = 300; phase = 1; micro_chunk = 2 }

abbrev key : RecvKey
key = recv_key (header 3)

-- A receive of another key waits.
abbrev other : PendingRecv
other = record { target = 1; len = 4; flag = 1; waker = some 9 }

abbrev state : State
state = record {
  slots = (recv_key (header 5), waiting other) ∷ [];
  buffers = λ i. 0 ∷ 0 ∷ 0 ∷ 0 ∷ [];
  is_done = λ i. false;
  woken = [];
}

key-free : find key state.slots ≡ none
unfolding same_key
key-free = refl

decode_shown :
    (decode (encode (header 513)) ≡ ok (header 513))
    × (length (encode (header 513)) ≡ 8)
    × ((bytes : List ℕ) → length bytes < 8 → decode bytes ≡ err (bad_header (length bytes) 8))
decode_shown = decode-encode (header 513)

recv_either_order_example :
    let f = recv_future key 0 0 4 in
    ((s' : State) × (poll_recv 7 f state ≡ done (s', record f { registered = true }, pending))
      × (poll_recv 8 (record f { registered = true }) (deliver key (1 ∷ 2 ∷ 3 ∷ []) s')
          ≡ done
              (filled f (1 ∷ 2 ∷ 3 ∷ []) (7 ∷ []) state, record f { registered = true }, ready tt)))
    × (poll_recv 8 f (deliver key (1 ∷ 2 ∷ 3 ∷ []) state)
        ≡ done (filled f (1 ∷ 2 ∷ 3 ∷ []) [] state, f, ready tt))
recv_either_order_example = recv_either_order 7 8 key 0 0 4 (1 ∷ 2 ∷ 3 ∷ []) state key-free refl

drop_recv-poll_recv_example :
    let f = recv_future key 0 0 4 in
    (s' : State) × (f' : RecvFuture) × (poll_recv 7 f state ≡ done (s', f', pending))
    × (drop_recv f' s' ≡ state)
    × (deliver key (1 ∷ []) (drop_recv f' s')
        ≡ record state { slots = insert key (early (1 ∷ [])) state.slots })
drop_recv-poll_recv_example = drop_recv-poll_recv 7 key 0 0 4 (1 ∷ []) state key-free refl

deliver_twice_example : deliver key (2 ∷ []) (deliver key (1 ∷ []) state) ≡ state
deliver_twice_example = deliver_twice key (1 ∷ []) (2 ∷ []) state key-free

abbrev message : ℕ → ℕ → Message
message n b = record { header = encode (header n); payload = some (b ∷ []) }

other-IsOwner : IsOwner (recv_key (header 5)) other state
unfolding IsOwner same_key
other-IsOwner = (refl, λ j q h d. ground (arith, h, d))

message-Misses : Misses (recv_key (header 5)) (message 3 1 ∷ [])
unfolding Misses decode encode same_key
message-Misses = ((λ h e. ground (arith, e)), tt)

dispatcher_loop_completes_example :
    let s' = dispatcher_loop ((message 3 1 ∷ []) ++ message 5 6 ∷ message 5 7 ∷ []) state in
    (s'.buffers 1 ≡ copy_into (6 ∷ []) 4 (state.buffers 1)) × (s'.is_done 1 ≡ true)
unfolding decode encode
dispatcher_loop_completes_example =
    dispatcher_loop_completes (message 3 1 ∷ []) (message 5 7 ∷ []) (message 5 6) (header 5)
      (6 ∷ []) other state refl refl message-Misses other-IsOwner
