-- ===== src/Collective/Scatter.antt =====
-- pluvio_collective/src/ucx_backend/scatter.rs: the root sends every rank its part of a buffer. The sends of
-- the root are its rounds; every other rank waits in one.
pub mod Delivery
mod Waiting
mod Tests
use pluvio.Base.{
  ℕ, ◌*◌, Bool, not, ◌&&◌, Option, none, some, List, [], ◌∷◌, length, leb, ◌==◌, if◌then◌else◌,
  Result, ok, err, slice, write,
}
use pluvio.AmRouter.Header.{RecvKey, same_key, CollectiveError, bad_shape, protocol}
use pluvio.Collective.Keys.{round_key}
use pluvio.Collective.Network.{Protocol}

abbrev pub phase_scatter : ℕ
phase_scatter = 2

-- The arguments of a rank.
pub record Parts (T : Type 0) : Type 0 where
  pub send_buf : Option (List T)
  pub recv_buf : List T

-- In round `k` the root sends to rank `k`, itself left out.
unfoldable pub recipient : ℕ → ℕ → ℕ → Option ℕ
recipient root k rank = if rank == root && not (k == root) then some k else none

-- The one message that a rank waits for.
unfoldable pub awaited : ℕ → ℕ → ℕ → Option ℕ
awaited root k rank = if not (rank == root) && k == rank then some root else none

-- The part of a rank.
unfoldable pub part : {T : Type 0} → ℕ → ℕ → Parts T → List T
part chunk r b = elim b.send_buf as (λ x. List _) [
  | none ↦ []
  | some sb ↦ slice (r * chunk) chunk sb
]

-- All messages have one header, with the root as its source and as its step.
unfoldable pub fan_out : {T : Type 0} → (n root chunk : ℕ) → Protocol (Parts T) (List T) RecvKey
fan_out n root chunk = record {
  size = n;
  rounds = n;
  dest = recipient root;
  source = awaited root;
  key = λ k rank. round_key phase_scatter rank rank;
  same = same_key;
  payload = λ k rank b. part chunk k b;
  absorb = λ k rank b m. record b { recv_buf = write 0 m b.recv_buf };
}

-- What a call comes to: the state in which communication begins, and the program of it, if there is any.
abbrev pub Call : Type 0 → Type 0
Call T = Result (Parts T × Option (Protocol (Parts T) (List T) RecvKey)) CollectiveError

-- The one rank copies its buffer.
unfoldable pub of_one : {T : Type 0} → Parts T → Option (List T) → Call T
of_one b none = err protocol
of_one b (some sb) =
    if length sb == length b.recv_buf then ok (record b { recv_buf = sb }, none) else err bad_shape

-- The root copies its own part, and sends the others'.
unfoldable pub of_root : {T : Type 0} → ℕ → ℕ → Parts T → Option (List T) → Call T
of_root n root b none = err protocol
of_root n root b (some sb) =
    let chunk = length b.recv_buf in
    if length sb == chunk * n
    then ok (record b { recv_buf = slice (root * chunk) chunk sb }, some (fan_out n root chunk))
    else err bad_shape

-- A rank's call, with its guards.
unfoldable pub scatter : {T : Type 0} → (n rank root : ℕ) → Parts T → Call T
scatter n rank root b =
    if leb n root
    then err protocol
    else (if n == 1
        then of_one b b.send_buf
        else (if rank == root
            then of_root n root b b.send_buf
            else ok (b, some (fan_out n root (length b.recv_buf)))))
