-- ===== src/Spsc/Receive.antt =====
-- `try_recv` against the pop of the FIFO queue of `Spsc.Queue`.
use native.Mathlib.Nat.{mod-eq_of_lt}
use pluvio.Base.{
  ◌≡◌, refl, sym, ap, ◌∙◌, subst, none, List, [], ◌∷◌, length, length-set, set, ltb, if◌then◌else◌,
  ok, err, done, arith,
}
use pluvio.Spsc.{Inner, empty, gone, inc, any_sender_alive, read_at, try_recv}
use pluvio.Spsc.Window.{inc_mod-lt, round-suc, Window-uncons}
use pluvio.Spsc.Shape.{Holds, is_empty_lem, check_magic_lem}
use pluvio.Spsc.Queue.{Queue, pop}
use pluvio.Spsc.Refine.{Shows}

module _ {ℓ} {T : Type ℓ} where
  pub pop_front :
      (q : Queue T) (x : T) (xs : List T)
      → q.items ≡ x ∷ xs
      → pop q ≡ (record q { items = xs }, ok x)
  unfolding pop
  pop_front q x xs e = ground arith

  abbrev pub RecvRefines : Inner T → Queue T → Type ℓ
  RecvRefines r q = (s : Inner T) × (try_recv r ≡ done (s, (pop q).1)) × Shows s (pop q).0

  pub try_recv_empty :
      (r : Inner T) (q : Queue T)
      → Shows r q
      → q.items ≡ []
      → try_recv r ≡ done (r, err (if ltb 0 q.senders then empty else gone))
  unfolding try_recv any_sender_alive
  try_recv_empty r q v e =
      ground (arith, check_magic_lem r q.items v.holds, is_empty_lem r q.items v.holds, v.counted)

  pub pop_empty :
      (q : Queue T) → q.items ≡ [] → pop q ≡ (q, err (if ltb 0 q.senders then empty else gone))
  unfolding pop
  pop_empty q e = ground arith

  recv_empty : (r : Inner T) (q : Queue T) → Shows r q → q.items ≡ [] → RecvRefines r q
  recv_empty r q v e = (r, rw (try_recv_empty r q v e, pop_empty q e), rw (pop_empty q e) v)

  take_lem :
      (r : Inner T) (x : T) (xs : List T)
      → Holds r (x ∷ xs)
      → (s : Inner T) × (read_at r r.tail ≡ done (x, s))
        × Holds (record s { tail = inc s r.tail }) xs
        × (length s.buf ≡ length r.buf)
        × (s.unbounded ≡ r.unbounded)
        × (s.sender_count ≡ r.sender_count)
        × (s.receiver_alive ≡ r.receiver_alive)
  unfolding read_at inc
  take_lem r x xs v = (
    record r { buf = set r.buf r.tail none },
    ground (arith, mod-eq_of_lt v.tail_in, v.window.0),
    record {
      start_intact = v.start_intact;
      end_intact = v.end_intact;
      mirrored = rw length-set v.mirrored;
      sentinel = rw length-set v.sentinel;
      word = rw length-set v.word;
      tail_in = rw length-set (inc_mod-lt (length r.buf) r.tail v.tail_in);
      head_at =
          rw length-set (v.head_at ∙ sym (round-suc (length r.buf) r.tail (length xs) v.tail_in));
      room = rw length-set (omega arith);
      window = rw length-set (Window-uncons r.buf r.tail x xs v.tail_in v.room v.window);
    },
    length-set r.buf r.tail none,
    refl,
    refl,
    refl,
  )

  pub recv_front :
      (r : Inner T) (q : Queue T) (x : T) (xs : List T)
      → Shows r q
      → q.items ≡ x ∷ xs
      → RecvRefines r q
  unfolding try_recv
  recv_front r q x xs v e =
      let (s, taken, held, size, unb, cnt, alive) = take_lem r x xs (subst (Holds r) e v.holds) in
      let popped = pop_front q x xs e in
      (
        record s { tail = inc s r.tail },
        ground (
          arith,
          check_magic_lem r q.items v.holds,
          is_empty_lem r q.items v.holds,
          taken,
          popped,
          ap length e,
        ),
        rw popped (record {
          holds = held;
          limited = ground arith;
          counted = ground arith;
          heard = ground arith;
        }),
      )

  -- `Receiver::try_recv` answers as `pop` does on the queue that the channel shows, and leaves the
  -- channel showing the queue that `pop` leaves.
  pub try_recv-RecvRefines : (r : Inner T) (q : Queue T) → Shows r q → RecvRefines r q
  try_recv-RecvRefines r q v = by_items q.items refl
    where
      by_items : (xs : List T) → q.items ≡ xs → RecvRefines r q
      by_items [] e = recv_empty r q v e
      by_items (x ∷ xs) e = recv_front r q x xs v e
