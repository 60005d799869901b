-- ===== src/Spsc.antt =====
-- pluvio_runtime/src/executor/spsc.rs: the single-thread channel over a growing ring buffer.
-- `Inner` is the state that the two halves share; each method returns the state that it leaves.
-- A slot of the buffer (`MaybeUninit<T>`) is an option, `none` where nothing has been written or
-- the value has been moved out.
pub mod Queue
pub mod Window
pub mod Shape
pub mod Refine
pub mod Receive
pub mod Traces
pub mod Lives
pub mod Waiting
mod Tests
use Prim.Native.Nat.{◌%◌}
use pluvio.Base.{
  ℕ, zero, suc, ◌+◌, ◌-◌, ◌*◌, ◌^◌, min, max, Bool, true, false, not, ◌||◌, Option, none, some,
  List, [], ◌∷◌, ◌++◌, ltb, leb, ◌==◌, if◌then◌else◌, length, get_elem?, set, replicate, Result, ok,
  err, Run, done, fault, panic, abort, uninit, ◌>>=◌,
}

abbrev pub usize_max : ℕ
usize_max = 2 ^ 64 - 1

abbrev pub inner_magic_start : ℕ
inner_magic_start = 0x5350_5343_4D41_4748

abbrev pub inner_magic_end : ℕ
inner_magic_end = 0x5350_5343_4D41_4754

pub data TrySendError {ℓ} (T : Type ℓ) : Type ℓ where
  full : T → TrySendError T
  disconnected : T → TrySendError T

pub data TryRecvError : Type 0 where
  empty gone : TryRecvError

pub data RecvTimeoutError : Type 0 where
  timeout hung_up : RecvTimeoutError

pub record Inner {ℓ} (T : Type ℓ) : Type ℓ where
  pub magic_start : ℕ
  pub buf : List (Option T)
  pub buf_len : ℕ
  pub head : ℕ
  pub tail : ℕ
  pub unbounded : Bool
  pub sender_count : ℕ
  pub receiver_alive : Bool
  pub magic_end : ℕ

-- `buf[i].assume_init_read()`
abbrev pub read_slot {ℓ} : {T : Type ℓ} → Option (Option T) → Run T
read_slot none = fault panic
read_slot (some none) = fault uninit
read_slot (some (some v)) = done v

-- `inc` with the buffer's length `m` read.
pub inc_mod : ℕ → ℕ → ℕ
inc_mod m i = if m == 0 then 0 else if i % m + 1 == m then 0 else i % m + 1

abbrev pub grown_cap : ℕ → ℕ
grown_cap old_cap = max (min (old_cap * 2) usize_max) 2

module _ {ℓ} {T : Type ℓ} where
  -- The struct literal of both constructors.
  pub fresh : ℕ → Bool → Inner T
  fresh cap unbounded = record {
    magic_start = inner_magic_start;
    buf = replicate (cap + 1) none;
    buf_len = cap + 1;
    head = 0;
    tail = 0;
    unbounded = unbounded;
    sender_count = 1;
    receiver_alive = true;
    magic_end = inner_magic_end;
  }

  pub new_bounded : ℕ → Run (Inner T)
  unfolding fresh
  new_bounded cap = if ltb 0 cap then done (fresh cap false) else fault panic

  pub new_unbounded : ℕ → Inner T
  unfolding fresh
  new_unbounded initial_cap = fresh (max initial_cap 1) true

  pub any_sender_alive : Inner T → Bool
  any_sender_alive r = ltb 0 r.sender_count

  pub inc_sender : Inner T → Inner T
  inc_sender r = record r { sender_count = r.sender_count + 1 }

  -- `saturating_sub`; the `debug_assert` above it is not compiled into a release build.
  pub dec_sender : Inner T → Inner T
  dec_sender r = record r { sender_count = r.sender_count - 1 }

  pub check_magic : Inner T → Run (Inner T)
  check_magic r =
      if not (r.magic_start == inner_magic_start) || not (r.magic_end == inner_magic_end)
      then fault abort
      else done r

  abbrev pub blen : Inner T → ℕ
  blen r = length r.buf

  pub inc : Inner T → ℕ → ℕ
  unfolding inc_mod
  inc r i = inc_mod (blen r) i

  pub is_empty : Inner T → Bool
  is_empty r = r.head == r.tail

  pub is_full : Inner T → Bool
  unfolding inc
  is_full r = inc r r.head == r.tail

  pub cap : Inner T → ℕ
  cap r = blen r - 1

  pub len : Inner T → ℕ
  len r =
      let m = blen r in
      let h = r.head % m in
      let t = r.tail % m in if m == 0 then 0 else if leb t h then h - t else m - t + h

  -- The loop of `try_grow`: `count` rounds from round `i`, reading at `t` and writing at `i`.
  pub move_out : List (Option T) → ℕ → ℕ → ℕ → List (Option T) → Run (List (Option T))
  unfolding inc_mod
  move_out buf zero i t new_buf = done new_buf
  move_out buf (suc count) i t new_buf = do
    v ← read_slot (get_elem? buf t)
    move_out buf count (i + 1) (inc_mod (length buf) t) (set new_buf i (some v))

  pub try_grow : Inner T → Run (Inner T)
  try_grow r =
      let new_len = grown_cap (blen r - 1) + 1 in
      if not r.unbounded || not (is_full r) then done r else do
        new_buf ← move_out r.buf (len r) 0 r.tail (replicate new_len none)
        done (record r { tail = 0; head = len r; buf = new_buf; buf_len = new_len })

  -- `idx % 0` panics.
  pub write_at : Inner T → ℕ → T → Run (Inner T)
  write_at r idx val =
      if blen r == 0
      then fault panic
      else done (record r { buf = set r.buf (idx % blen r) (some val) })

  -- The value is moved out of its slot.
  pub read_at : Inner T → ℕ → Run (T × Inner T)
  read_at r idx = if blen r == 0 then fault panic else do
    v ← read_slot (get_elem? r.buf (idx % blen r))
    done (v, record r { buf = set r.buf (idx % blen r) none })

  -- `Sender::try_send` from `let h = head` on.
  store : Inner T → T → Run (Inner T × Result (Unit {0}) (TrySendError T))
  store r msg = do s ← write_at r r.head msg; done (record s { head = inc s r.head }, ok tt)

  pub try_send : Inner T → T → Run (Inner T × Result (Unit {0}) (TrySendError T))
  try_send r msg = do
    r ← check_magic r
    if not r.receiver_alive then done (r, err (disconnected msg)) else do
      s ← if is_full r then try_grow r else done r
      if is_full s then done (s, err (full msg)) else store s msg

  abbrev given_back : Result (Unit {0}) (TrySendError T) → Result (Unit {0}) T
  given_back (ok u) = ok u
  given_back (err (disconnected m)) = err m
  given_back (err (full m)) = err m

  pub send : Inner T → T → Run (Inner T × Result (Unit {0}) T)
  send r msg = do (s, res) ← try_send r msg; done (s, given_back res)

  pub try_recv : Inner T → Run (Inner T × Result T TryRecvError)
  try_recv r = do
    r ← check_magic r
    if is_empty r
        then done (r, err (if any_sender_alive r then empty else gone))
        else do (v, s) ← read_at r r.tail; done (record s { tail = inc s r.tail }, ok v)

  -- `recv_deadline` on fuel: `clock k` is what the k-th `Instant::now()` reads, and `yielded k` what the
  -- senders do to the channel in the `thread::yield_now()` after that reading. `none` means that the
  -- fuel ran out.
  pub recv_deadline :
      ℕ
      → (ℕ → ℕ)
      → (ℕ → Inner T → Run (Inner T))
      → ℕ
      → ℕ
      → Inner T
      → Run (Option (Inner T × Result T RecvTimeoutError))
  recv_deadline zero clock yielded k deadline r = done none
  recv_deadline (suc fuel) clock yielded k deadline r =
      let again = recv_deadline fuel clock yielded (k + 1) deadline in
      do
        (s, res) ← try_recv r
        elim res [
          | ok v ↦ done (some (s, ok v))
          | err e ↦ elim e [
            | gone ↦ done (some (s, err hung_up))
            | empty ↦
                if leb deadline (clock k)
                then done (some (s, err timeout))
                else yielded k s >>= again
          ]
        ]

  -- The loop of `Drop for Inner` with the values that it drops, in order.
  pub drop_from : ℕ → List (Option T) → ℕ → ℕ → List T → Run (Option (List T))
  drop_from zero buf head tail dropped = done none
  drop_from (suc fuel) buf head tail dropped =
      let rest = drop_from fuel buf head ((tail + 1) % length buf) in
      if tail == head
      then done (some dropped)
      else do v ← read_slot (get_elem? buf tail); rest (dropped ++ v ∷ [])

  pub drop_inner : ℕ → Inner T → Run (Option (List T))
  drop_inner fuel r =
      if blen r == 0
      then done (some [])
      else drop_from fuel r.buf (r.head % blen r) (r.tail % blen r) []

  pub drop_receiver : Inner T → Inner T
  drop_receiver r = record r { receiver_alive = false }
