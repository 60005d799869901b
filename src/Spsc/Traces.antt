-- ===== src/Spsc/Traces.antt =====
-- Any sequence of calls by the halves of a channel.
use pluvio.Base.{
  ℕ, ◌+◌, ◌-◌, ◌^◌, ◌≤◌, ◌<◌, ◌≡◌, refl, ap, Bool, false, List, [], ◌∷◌, length, length-append, Run,
  done, ◌>>=◌, arith,
}
use pluvio.Spsc.{Inner, try_send, try_recv, inc_sender, dec_sender, drop_receiver}
use pluvio.Spsc.Queue
use pluvio.Spsc.Queue.{
  Queue, Op, send_op, recv_op, clone_op, drop_sender_op, drop_receiver_op, Reply, sent, received,
  quiet, push, pop,
}
use pluvio.Spsc.Shape.{Holds}
use pluvio.Spsc.Refine.{Shows, try_send-SendRefines}
use pluvio.Spsc.Receive.{try_recv-RecvRefines}

module _ {ℓ} {T : Type ℓ} where
  -- The client's calls on the code.
  unfoldable pub step : Inner T → Op T → Run (Inner T × Reply T)
  step r (send_op x) = do (s, res) ← try_send r x; done (s, sent res)
  step r recv_op = do (s, res) ← try_recv r; done (s, received res)
  step r clone_op = done (inc_sender r, quiet)
  step r drop_sender_op = done (dec_sender r, quiet)
  step r drop_receiver_op = done (drop_receiver r, quiet)

  unfoldable pub run : Inner T → List (Op T) → Run (List (Reply T))
  run r [] = done []
  run r (o ∷ os) = do (s, reply) ← step r o; replies ← run s os; done (reply ∷ replies)

  -- The liveness counts play no part in what is held.
  relabel :
      (r : Inner T) (xs : List T) (n : ℕ) (b : Bool)
      → Holds r xs
      → Holds (record r { sender_count = n; receiver_alive = b }) xs
  relabel r xs n b v = record {
    start_intact = v.start_intact;
    end_intact = v.end_intact;
    mirrored = v.mirrored;
    sentinel = v.sentinel;
    word = v.word;
    tail_in = v.tail_in;
    head_at = v.head_at;
    room = v.room;
    window = v.window;
  }

  abbrev StepRefines : Inner T → Queue T → Op T → Type ℓ
  StepRefines r q o =
      (s : Inner T) × (step r o ≡ done (s, (Queue.step q o).1)) × Shows s (Queue.step q o).0

  step_refines :
      (r : Inner T) (q : Queue T) (o : Op T)
      → Shows r q
      → length q.items < 2 ^ 63 - 1
      → StepRefines r q o
  unfolding step Queue.step inc_sender dec_sender drop_receiver
  step_refines r q (send_op x) v h =
      let (s, e, shows) = try_send-SendRefines r q x v h in (s, rw e, shows)
  step_refines r q recv_op v h = let (s, e, shows) = try_recv-RecvRefines r q v in (s, rw e, shows)
  step_refines r q clone_op v h = (
    inc_sender r,
    refl,
    record {
      holds = relabel r q.items (r.sender_count + 1) r.receiver_alive v.holds;
      limited = v.limited;
      counted = ap (λ n. n + 1) v.counted;
      heard = v.heard;
    },
  )
  step_refines r q drop_sender_op v h = (
    dec_sender r,
    refl,
    record {
      holds = relabel r q.items (r.sender_count - 1) r.receiver_alive v.holds;
      limited = v.limited;
      counted = ap (λ n. n - 1) v.counted;
      heard = v.heard;
    },
  )
  step_refines r q drop_receiver_op v h = (
    drop_receiver r,
    refl,
    record {
      holds = relabel r q.items r.sender_count false v.holds;
      limited = v.limited;
      counted = v.counted;
      heard = refl;
    },
  )

  push-length : (q : Queue T) (x : T) → length (push q x).0.items ≤ length q.items + 1
  unfolding push
  push-length q x = ground (arith, length-append q.items (x ∷ []))

  pop-length : (q : Queue T) → length (pop q).0.items ≤ length q.items
  unfolding pop
  pop-length q = by_items q.items refl
    where
      by_items :
          (xs : List T) → q.items ≡ xs → length (Queue.pop_items xs q).0.items ≤ length q.items
      by_items [] e = omega arith
      by_items (x ∷ xs) e = rw e (omega arith)

  step-length : (q : Queue T) (o : Op T) → length (Queue.step q o).0.items ≤ length q.items + 1
  unfolding Queue.step
  step-length q (send_op x) = push-length q x
  step-length q recv_op = omega (arith, pop-length q)
  step-length q clone_op = omega arith
  step-length q drop_sender_op = omega arith
  step-length q drop_receiver_op = omega arith

  -- No sequence of calls by the two halves tells the channel from the FIFO queue that it shows,
  -- as long as fewer than 2 ^ 63 - 1 values can be waiting: each call returns, with the queue's reply.
  pub run_refines :
      (os : List (Op T)) (r : Inner T) (q : Queue T)
      → Shows r q
      → length q.items + length os < 2 ^ 63
      → run r os ≡ done (Queue.run q os)
  unfolding run Queue.run
  run_refines [] r q v h = refl
  run_refines (o ∷ os) r q v h =
      let (s, e, shows) = step_refines r q o v (omega arith) in
      rw (e, run_refines os s (Queue.step q o).0 shows (omega (arith, step-length q o)))
