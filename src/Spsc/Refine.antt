-- ===== src/Spsc/Refine.antt =====
-- The channel's methods against the FIFO queue of `Spsc.Queue`.
use Prim.Native.Nat.{◌%◌}
use native.Mathlib.Nat.{mod-eq_of_lt, zero-add, mod-add-mod}
use pluvio.Base.{
  suc, ◌+◌, ◌-◌, ◌^◌, ◌<◌, ◌≡◌, refl, sym, ap, ◌∙◌, true, false, none, some, List, [], ◌∷◌, ◌++◌,
  length, length-append, length-set, set, if◌then◌else◌, ok, err, done, arith, Bool-cases, inl, inr,
}
use pluvio.Spsc.{
  Inner, full, grown_cap, inc_mod, inc, is_full, cap, try_grow, write_at, store, try_send,
}
use pluvio.Spsc.Window.{inc_mod_lem, Window-snoc, move_out-Window}
use pluvio.Spsc.Shape.{Holds, head_in, is_full_lem, len_lem, check_magic_lem}
use pluvio.Spsc.Queue.{Queue, push, has_room}

-- A channel looks like a queue: same values, and the flags and the limit that the queue sees.
pub record Shows {ℓ} {T : Type ℓ} (r : Inner T) (q : Queue T) : Type ℓ where
  pub holds : Holds r q.items
  pub limited : q.limit ≡ (if r.unbounded then none else some (length r.buf - 1))
  pub counted : q.senders ≡ r.sender_count
  pub heard : q.listening ≡ r.receiver_alive

module _ {ℓ} {T : Type ℓ} where
  is_full-length :
      (r : Inner T) (xs : List T) → Holds r xs → is_full r ≡ true → length xs ≡ length r.buf - 1
  unfolding cap
  is_full-length r xs v f = ground (arith, is_full_lem r xs v)

  not_full-length :
      (r : Inner T) (xs : List T) → Holds r xs → is_full r ≡ false → suc (length xs) < length r.buf
  unfolding cap
  not_full-length r xs v f = ground (arith, is_full_lem r xs v)

  not_full_of_room :
      (r : Inner T) (xs : List T) → Holds r xs → suc (length xs) < length r.buf → is_full r ≡ false
  unfolding cap
  not_full_of_room r xs v h = ground (arith, is_full_lem r xs v)

  -- Storing at `head` while a slot beside the sentinel is free appends the value.
  store_lem :
      (r : Inner T) (xs : List T) (x : T)
      → Holds r xs
      → suc (length xs) < length r.buf
      → (s : Inner T) × (store r x ≡ done (s, ok tt))
        × Holds s (xs ++ x ∷ [])
        × (length s.buf ≡ length r.buf)
        × (s.unbounded ≡ r.unbounded)
        × (s.sender_count ≡ r.sender_count)
        × (s.receiver_alive ≡ r.receiver_alive)
  unfolding store write_at inc
  store_lem r xs x v h = (
    record r { buf = set r.buf r.head (some x); head = inc_mod (length r.buf) r.head },
    ground (arith, head_in r xs v, mod-eq_of_lt (head_in r xs v), length-set r.buf r.head (some x)),
    record {
      start_intact = v.start_intact;
      end_intact = v.end_intact;
      mirrored = rw length-set v.mirrored;
      sentinel = rw length-set v.sentinel;
      word = rw length-set v.word;
      tail_in = rw length-set v.tail_in;
      head_at =
          inc_mod_lem (length r.buf) r.head (head_in r xs v)
          ∙ rw (v.head_at, mod-add-mod, length-set, length-append)
              (ap (λ n. n % length r.buf) (omega arith));
      room = rw (length-set, length-append) (omega arith);
      window = Window-snoc r.buf r.tail r.head xs x v.tail_in v.room v.head_at v.window;
    },
    length-set r.buf r.head (some x),
    refl,
    refl,
    refl,
  )

  -- Growing keeps the values, and makes room for one more unless the buffer is as long as a `usize`
  -- counts.
  grow_lem :
      (r : Inner T) (xs : List T)
      → Holds r xs
      → r.unbounded ≡ true
      → is_full r ≡ true
      → length xs < 2 ^ 63 - 1
      → (s : Inner T) × (try_grow r ≡ done s)
        × Holds s xs
        × (suc (length xs) < length s.buf)
        × (s.unbounded ≡ true)
        × (s.sender_count ≡ r.sender_count)
        × (s.receiver_alive ≡ r.receiver_alive)
  unfolding try_grow
  grow_lem r xs v u f h =
      let filled : length xs ≡ length r.buf - 1 = is_full-length r xs v f in
      let room : length xs < grown_cap (length r.buf - 1) + 1 = omega arith in
      let (b, moved, size, w) =
        move_out-Window r.buf r.tail (grown_cap (length r.buf - 1) + 1) xs room v.window in
      (
        record r {
          tail = 0;
          head = length xs;
          buf = b;
          buf_len = grown_cap (length r.buf - 1) + 1;
        },
        ground (arith, len_lem r xs v, moved),
        record {
          start_intact = v.start_intact;
          end_intact = v.end_intact;
          mirrored = sym size;
          sentinel = rw size (omega arith);
          word = rw size (omega arith);
          tail_in = rw size (omega arith);
          head_at = rw (size, zero-add) (sym (mod-eq_of_lt room));
          room = rw size room;
          window = w;
        },
        rw size (omega arith),
        u,
        refl,
        refl,
      )

  try_grow_bounded : (r : Inner T) → r.unbounded ≡ false → try_grow r ≡ done r
  unfolding try_grow
  try_grow_bounded r u = rw u

  push_accepts :
      (q : Queue T) (x : T)
      → q.listening ≡ true
      → has_room q.limit (length q.items) ≡ true
      → push q x ≡ (record q { items = q.items ++ x ∷ [] }, ok tt)
  unfolding push
  push_accepts q x e h = ground arith

  push_refuses :
      (q : Queue T) (x : T)
      → q.listening ≡ true
      → has_room q.limit (length q.items) ≡ false
      → push q x ≡ (q, err (full x))
  unfolding push
  push_refuses q x e h = ground arith

  -- `try_send` answers as `push` does on the queue that the channel shows, and leaves it showing the
  -- queue that `push` leaves.
  abbrev pub SendRefines : Inner T → Queue T → T → Type ℓ
  SendRefines r q x = (s : Inner T) × (try_send r x ≡ done (s, (push q x).1)) × Shows s (push q x).0

  send_deaf :
      (r : Inner T) (q : Queue T) (x : T) → Shows r q → q.listening ≡ false → SendRefines r q x
  unfolding try_send push
  send_deaf r q x v e = (r, ground (arith, check_magic_lem r q.items v.holds), ground arith)

  send_room :
      (r : Inner T) (q : Queue T) (x : T)
      → Shows r q
      → q.listening ≡ true
      → is_full r ≡ false
      → SendRefines r q x
  unfolding try_send
  send_room r q x v e f =
      let room = not_full-length r q.items v.holds f in
      let (s, stored, held, size, unb, cnt, alive) = store_lem r q.items x v.holds room in
      let accepted = push_accepts q x e (ground arith) in
      (
        s,
        ground (arith, check_magic_lem r q.items v.holds, stored, accepted),
        rw accepted (record {
          holds = held;
          limited = ground arith;
          counted = ground arith;
          heard = ground arith;
        }),
      )

  send_full :
      (r : Inner T) (q : Queue T) (x : T)
      → Shows r q
      → q.listening ≡ true
      → is_full r ≡ true
      → r.unbounded ≡ false
      → SendRefines r q x
  unfolding try_send
  send_full r q x v e f u =
      let refused = push_refuses q x e (ground (arith, is_full-length r q.items v.holds f)) in
      (
        r,
        ground (
          arith,
          check_magic_lem r q.items v.holds,
          is_full-length r q.items v.holds f,
          try_grow_bounded r u,
          refused,
        ),
        rw refused v,
      )

  send_grow :
      (r : Inner T) (q : Queue T) (x : T)
      → Shows r q
      → q.listening ≡ true
      → is_full r ≡ true
      → r.unbounded ≡ true
      → length q.items < 2 ^ 63 - 1
      → SendRefines r q x
  unfolding try_send
  send_grow r q x v e f u h =
      let (g, grown, held, room, unb, cnt, alive) = grow_lem r q.items v.holds u f h in
      let (s, stored, keeps, size, unb', cnt', alive') = store_lem g q.items x held room in
      let accepted = push_accepts q x e (ground arith) in
      (
        s,
        ground (
          arith,
          check_magic_lem r q.items v.holds,
          grown,
          not_full_of_room g q.items held room,
          stored,
          accepted,
        ),
        rw accepted (record {
          holds = keeps;
          limited = ground arith;
          counted = ground arith;
          heard = ground arith;
        }),
      )

  -- While fewer than 2 ^ 63 - 1 values wait, `Sender::try_send` answers as `push` does on the
  -- queue that the channel shows, and leaves the channel showing the queue that `push` leaves.
  pub try_send-SendRefines :
      (r : Inner T) (q : Queue T) (x : T)
      → Shows r q
      → length q.items < 2 ^ 63 - 1
      → SendRefines r q x
  try_send-SendRefines r q x v h = elim (Bool-cases q.listening) [
    | inr e ↦ send_deaf r q x v e
    | inl e ↦ elim (Bool-cases (is_full r)) [
      | inr f ↦ send_room r q x v e f
      | inl f ↦ elim (Bool-cases r.unbounded) [
        | inr u ↦ send_full r q x v e f u
        | inl u ↦ send_grow r q x v e f u h
      ]
    ]
  ]
