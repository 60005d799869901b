-- ===== src/AmRouter.antt =====
-- pluvio_collective/src/ucx_backend/am_router.rs: the router of active messages, `dispatcher_loop` and
-- `RecvFuture`. A target buffer, a `done` flag and a waker go by number; what they hold is state beside
-- the slots. The HashMap of slots is an association list.
pub mod Header
mod Slots
mod Delivery
mod Dispatch
mod Tests
use pluvio.Base.{
  ℕ, zero, suc, ◌+◌, ◌≡◌, Bool, true, false, not, ◌&&◌, Option, none, some, List, [], ◌∷◌, ◌++◌,
  length, take, drop, min, ltb, ◌==◌, if◌then◌else◌, Result, ok, err, Run, done, fault, panic,
  ◌>>=◌, Poll, ready, pending,
}
use Header.{AmHeader, CollectiveError, RecvKey, recv_key, decode}
use Slots.{find, remove, insert}

pub record PendingRecv : Type 0 where
  pub target : ℕ
  pub len : ℕ
  pub flag : ℕ
  pub waker : Option ℕ

pub data Slot : Type 0 where
  waiting : PendingRecv → Slot
  early : List ℕ → Slot

-- `slots` is the router's; `woken` lists the wakers called.
pub record State : Type 0 where
  pub slots : List (RecvKey × Slot)
  pub buffers : ℕ → List ℕ
  pub is_done : ℕ → Bool
  pub woken : List ℕ

-- A write at one number of a store.
abbrev pub put {ℓ} : {A : Type ℓ} → ℕ → A → (ℕ → A) → ℕ → A
put i a f j = if j == i then a else f j

-- `copy_nonoverlapping` of the first `min bytes.len() len` bytes.
abbrev pub copy_into : List ℕ → ℕ → List ℕ → List ℕ
copy_into bytes len buf = take (min (length bytes) len) bytes ++ drop (min (length bytes) len) buf

unfoldable pub take_early : RecvKey → State → State × Option (List ℕ)
take_early key s = elim (find key s.slots) [
  | none ↦ (s, none)
  | some slot ↦ elim slot [
    | waiting p ↦ (s, none)
    | early bytes ↦ (record s { slots = remove key s.slots }, some bytes)
  ]
]

-- The `debug_assert` is on.
unfoldable pub register_pending : RecvKey → PendingRecv → State → Run State
register_pending key p s = elim (find key s.slots) [
  | none ↦ done (record s { slots = insert key (waiting p) s.slots })
  | some slot ↦ fault panic
]

unfoldable pub update_waker : RecvKey → ℕ → State → State
update_waker key w s = elim (find key s.slots) [
  | none ↦ s
  | some slot ↦ elim slot [
    | waiting p ↦ record s { slots = insert key (waiting (record p { waker = some w })) s.slots }
    | early bytes ↦ s
  ]
]

unfoldable pub cancel_pending : RecvKey → State → State
cancel_pending key s = record s { slots = remove key s.slots }

abbrev pub wake : Option ℕ → List ℕ → List ℕ
wake none ws = ws
wake (some w) ws = ws ++ w ∷ []

unfoldable pub complete : PendingRecv → List ℕ → State → State
complete p bytes s = record s {
  buffers = put p.target (copy_into bytes p.len (s.buffers p.target)) s.buffers;
  is_done = put p.flag true s.is_done;
  woken = wake p.waker s.woken;
}

-- An early message at a key that has one already takes its place with it: both are gone.
unfoldable pub deliver : RecvKey → List ℕ → State → State
deliver key bytes s = elim (find key s.slots) [
  | none ↦ record s { slots = insert key (early bytes) s.slots }
  | some slot ↦ elim slot [
    | waiting p ↦ complete p bytes (record s { slots = remove key s.slots })
    | early old ↦ record s { slots = remove key s.slots }
  ]
]

abbrev is_waiting : Slot → Bool
is_waiting (waiting p) = true
is_waiting (early bytes) = false

pub pending_count : List (RecvKey × Slot) → ℕ
pending_count [] = 0
pending_count ((k, slot) ∷ m) = if is_waiting slot then suc (pending_count m) else pending_count m

-- A message of the stream: its header, and the bytes that `recv_data_single` gives, if it does.
pub record Message : Type 0 where
  pub header : List ℕ
  pub payload : Option (List ℕ)

dispatch : Message → State → State
dispatch m s = elim (decode m.header) [
  | err e ↦ s
  | ok h ↦ elim m.payload [ none ↦ s | some bytes ↦ deliver (recv_key h) bytes s ]
]

-- `dispatcher_loop`, until the stream closes.
pub dispatcher_loop : List Message → State → State
dispatcher_loop [] s = s
dispatcher_loop (m ∷ later) s = dispatcher_loop later (dispatch m s)

pub record RecvFuture : Type 0 where
  pub key : RecvKey
  pub flag : ℕ
  pub registered : Bool
  pub target : ℕ
  pub len : ℕ

-- `RecvFuture::new`: `flag` is a new cell.
unfoldable pub recv_future : RecvKey → (flag target len : ℕ) → RecvFuture
recv_future key flag target len = record {
  key = key;
  flag = flag;
  registered = false;
  target = target;
  len = len;
}

-- The first poll, once `take_early` has answered.
unfoldable pub first_poll :
    ℕ → RecvFuture → State × Option (List ℕ) → Run (State × RecvFuture × Poll (Unit {0}))
first_poll w f (s, some bytes) = done (
  record s {
    buffers = put f.target (copy_into bytes f.len (s.buffers f.target)) s.buffers;
    is_done = put f.flag true s.is_done;
  },
  f,
  ready tt,
)
first_poll w f (s, none) = do
  s' ←
      register_pending f.key
        (record { target = f.target; len = f.len; flag = f.flag; waker = some w }) s
  done (s', record f { registered = true }, pending)

-- `RecvFuture::poll`; every `Ready` holds `Ok`.
unfoldable pub poll_recv : ℕ → RecvFuture → State → Run (State × RecvFuture × Poll (Unit {0}))
poll_recv w f s =
    if s.is_done f.flag
    then done (s, f, ready tt)
    else if not f.registered
    then first_poll w f (take_early f.key s)
    else done (update_waker f.key w s, f, pending)

-- `RecvFuture::drop`
unfoldable pub drop_recv : RecvFuture → State → State
drop_recv f s = if f.registered && not (s.is_done f.flag) then cancel_pending f.key s else s
