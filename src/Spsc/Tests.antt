-- ===== src/Spsc/Tests.antt =====
-- Runs of the channel on concrete buffers, and its theorems at them.
use pluvio.Base.{
  ℕ, ◌+◌, ◌≡◌, refl, true, none, some, List, [], ◌∷◌, ok, err, Run, done, fault, abort, arith, ◌==◌,
  if◌then◌else◌, ◌>>=◌, Bool-cases, inl, inr,
}
use pluvio.Spsc.{
  Inner, disconnected, gone, inner_magic_start, inner_magic_end, inc_mod, inc, is_full, is_empty,
  len, any_sender_alive, check_magic, move_out, try_grow, write_at, read_at, store, try_send,
  try_recv, recv_deadline, dec_sender, drop_receiver, drop_inner, new_bounded, new_unbounded,
}
use pluvio.Spsc.Queue.{
  Queue, Op, send_op, recv_op, clone_op, drop_sender_op, drop_receiver_op, Reply, sent, received,
  quiet, push, pop,
}
use pluvio.Spsc.Queue
use pluvio.Spsc.Shape.{Holds}
use pluvio.Spsc.Refine.{Shows, SendRefines, try_send-SendRefines}
use pluvio.Spsc.Receive.{RecvRefines, try_recv-RecvRefines}
use pluvio.Spsc.Traces.{step, run, run_refines}
use pluvio.Spsc.Lives.{drop_inner_lem, new_bounded-Shows, new_unbounded-Shows}
use pluvio.Spsc.Waiting.{Acts, recv_deadline-DeadlineRefines, DeadlineRefines}

-- 8, then 9, round the end of a buffer of three slots: no slot but the sentinel is free.
abbrev wrapped : Inner ℕ
wrapped = record {
  magic_start = inner_magic_start;
  buf = some 9 ∷ none ∷ some 8 ∷ [];
  buf_len = 3;
  head = 1;
  tail = 2;
  unbounded = true;
  sender_count = 1;
  receiver_alive = true;
  magic_end = inner_magic_end;
}

abbrev waiting : Queue ℕ
waiting = record { items = 8 ∷ 9 ∷ []; limit = none; senders = 1; listening = true }

abbrev script : List (Op ℕ)
script =
    send_op 4
    ∷ recv_op
    ∷ recv_op
    ∷ recv_op
    ∷ drop_sender_op
    ∷ recv_op
    ∷ drop_receiver_op
    ∷ send_op 5
    ∷ []

wrapped-Holds : Holds wrapped (8 ∷ 9 ∷ [])
unfolding inc_mod
wrapped-Holds = record {
  start_intact = refl;
  end_intact = refl;
  mirrored = refl;
  sentinel = omega arith;
  word = omega arith;
  tail_in = omega arith;
  head_at = refl;
  room = omega arith;
  window = (refl, (refl, tt));
}

wrapped-Shows : Shows wrapped waiting
wrapped-Shows = record { holds = wrapped-Holds; limited = refl; counted = refl; heard = refl }

-- The send grows the buffer; after the last sender is gone the empty channel is disconnected.
run-wrapped :
    run wrapped script
    ≡ done (
        sent (ok tt)
        ∷ received (ok 8)
        ∷ received (ok 9)
        ∷ received (ok 4)
        ∷ quiet
        ∷ received (err gone)
        ∷ quiet
        ∷ sent (err (disconnected 5))
        ∷ [])
unfolding run step try_send try_recv check_magic is_full is_empty inc len move_out try_grow write_at
    read_at store any_sender_alive dec_sender drop_receiver
run-wrapped = refl

corrupt : try_recv (record wrapped { magic_end = 0 }) ≡ fault abort
unfolding try_recv check_magic
corrupt = refl

run_refines_example : run wrapped script ≡ done (Queue.run waiting script)
run_refines_example = run_refines script wrapped waiting wrapped-Shows (omega arith)

try_send-SendRefines_example : SendRefines wrapped waiting 4
try_send-SendRefines_example = try_send-SendRefines wrapped waiting 4 wrapped-Shows (omega arith)

try_recv-RecvRefines_example : RecvRefines wrapped waiting
try_recv-RecvRefines_example = try_recv-RecvRefines wrapped waiting wrapped-Shows

drop_inner_lem_example : drop_inner 3 wrapped ≡ done (some (8 ∷ 9 ∷ []))
drop_inner_lem_example = drop_inner_lem wrapped (8 ∷ 9 ∷ []) wrapped-Holds

abbrev drained : Inner ℕ
drained = record wrapped { tail = 1; buf = none ∷ none ∷ none ∷ [] }

abbrev nothing : Queue ℕ
nothing = record waiting { items = [] }

drained-Shows : Shows drained nothing
drained-Shows = record {
  holds = record {
    start_intact = refl;
    end_intact = refl;
    mirrored = refl;
    sentinel = omega arith;
    word = omega arith;
    tail_in = omega arith;
    head_at = refl;
    room = omega arith;
    window = tt;
  };
  limited = refl;
  counted = refl;
  heard = refl;
}

-- The clock reads 10, 11, 12, and so on. After the second reading a sender sends 7.
abbrev sends_later : ℕ → Inner ℕ → Run (Inner ℕ)
sends_later k r = if k == 1 then (do (s, res) ← try_send r 7; done s) else done r

abbrev seven_later : ℕ → Queue ℕ → Queue ℕ
seven_later k q = if k == 1 then (push q 7).0 else q

seven_later-Acts : Acts (λ k. 10 + k) sends_later seven_later 14
unfolding Acts
seven_later-Acts k r q v e z = elim (Bool-cases (k == 1)) [
  | inl y ↦
      let (s, accepted, shows) = try_send-SendRefines r q 7 v (rw e (omega arith)) in
      rw (y, accepted) (s, refl, shows)
  | inr y ↦ rw y (r, refl, v)
]

recv_deadline-DeadlineRefines_example :
    DeadlineRefines (λ k. 10 + k) sends_later seven_later 14 5 0 drained nothing
recv_deadline-DeadlineRefines_example =
    recv_deadline-DeadlineRefines (λ k. 10 + k) sends_later seven_later 14 4 5 0 drained nothing
      seven_later-Acts drained-Shows (omega arith) (omega arith)

-- The value that arrives while the receiver waits is taken before the deadline.
waits_for_seven :
    (s : Inner ℕ) × (recv_deadline 5 (λ k. 10 + k) sends_later 0 14 drained ≡ done (some (s, ok 7)))
unfolding recv_deadline try_recv check_magic is_empty any_sender_alive try_send is_full store
    write_at read_at
waits_for_seven = (_, refl)

new_bounded_shown :
    (r : Inner ℕ) × (new_bounded 2 ≡ done r)
    × Shows r (record { items = []; limit = some 2; senders = 1; listening = true })
new_bounded_shown = new_bounded-Shows 2 (omega arith) (omega arith)

new_unbounded_shown :
    Shows
      (new_unbounded {T = ℕ} 32)
      (record { items = []; limit = none; senders = 1; listening = true })
new_unbounded_shown = new_unbounded-Shows 32 (omega arith)
