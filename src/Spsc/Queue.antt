-- ===== src/Spsc/Queue.antt =====
-- What the channel of spsc.rs promises: a FIFO queue with counts of the live halves. A bounded
-- channel holds at most `limit` values; an unbounded one (`none`) accepts every value.
use pluvio.Base.{
  ℕ, ◌+◌, ◌-◌, Bool, true, false, Option, none, some, List, [], ◌∷◌, ◌++◌, ltb, if◌then◌else◌,
  length, Result, ok, err,
}
use pluvio.Spsc.{TrySendError, full, disconnected, TryRecvError, empty, gone}

pub record Queue {ℓ} (T : Type ℓ) : Type ℓ where
  pub items : List T
  pub limit : Option ℕ
  pub senders : ℕ
  pub listening : Bool

pub data Op {ℓ} (T : Type ℓ) : Type ℓ where
  send_op : T → Op T
  recv_op clone_op drop_sender_op drop_receiver_op : Op T

pub data Reply {ℓ} (T : Type ℓ) : Type ℓ where
  sent : Result (Unit {0}) (TrySendError T) → Reply T
  received : Result T TryRecvError → Reply T
  quiet : Reply T

abbrev pub has_room : Option ℕ → ℕ → Bool
has_room none n = true
has_room (some limit) n = ltb n limit

module _ {ℓ} {T : Type ℓ} where
  unfoldable pub push : Queue T → T → Queue T × Result (Unit {0}) (TrySendError T)
  push q x =
      if q.listening
      then (if has_room q.limit (length q.items)
          then (record q { items = q.items ++ x ∷ [] }, ok tt)
          else (q, err (full x)))
      else (q, err (disconnected x))

  abbrev pub pop_items : List T → Queue T → Queue T × Result T TryRecvError
  pop_items [] q = (q, err (if ltb 0 q.senders then empty else gone))
  pop_items (x ∷ rest) q = (record q { items = rest }, ok x)

  unfoldable pub pop : Queue T → Queue T × Result T TryRecvError
  pop q = pop_items q.items q

  unfoldable pub step : Queue T → Op T → Queue T × Reply T
  unfolding push pop
  step q (send_op x) = let (s, res) = push q x in (s, sent res)
  step q recv_op = let (s, res) = pop q in (s, received res)
  step q clone_op = (record q { senders = q.senders + 1 }, quiet)
  step q drop_sender_op = (record q { senders = q.senders - 1 }, quiet)
  step q drop_receiver_op = (record q { listening = false }, quiet)

  unfoldable pub run : Queue T → List (Op T) → List (Reply T)
  run q [] = []
  run q (o ∷ os) = let (s, reply) = step q o in reply ∷ run s os
