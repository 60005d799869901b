-- ===== src/Collective/Bruck.antt =====
-- pluvio_collective/src/ucx_backend/bruck.rs: Bruck's allgather.
pub mod Rounds
pub mod Slots
pub mod Allgather
use pluvio.Base.{
  ℕ, zero, suc, ◌+◌, ◌-◌, ◌*◌, ◌%◌, ◌^◌, min, Bool, true, false, not, Option, none, some, List, [],
  ◌∷◌, length, replicate, ltb, ◌==◌, if◌then◌else◌, Result, ok, err, Run, done, fault, panic, slice,
  write,
}
use pluvio.AmRouter.Header.{RecvKey, same_key, CollectiveError, bad_shape}
use pluvio.Collective.Keys.{round_key}
use pluvio.Collective.Network.{Protocol}

abbrev pub phase_bruck : ℕ
phase_bruck = 4

module _ (n : ℕ) where
  -- How many contributions are sent of the `count` owned, and how many are owned then.
  unfoldable pub to_send : ℕ → ℕ
  to_send count = min count (n - count)

  -- The variable `count` at the head of a round.
  unfoldable pub count : ℕ → ℕ
  count zero = 1
  count (suc k) = let c = count k in c + to_send c

  -- The rounds that the loop `while count < n` has left, on fuel.
  unfoldable pub rounds_from : ℕ → ℕ → ℕ
  rounds_from zero k = 0
  rounds_from (suc fuel) k =
      let rest = rounds_from fuel (suc k) in if ltb (count k) n then suc rest else 0

  -- The loop gains a contribution in every round, so that `n` is fuel enough.
  unfoldable pub rounds : ℕ
  rounds = rounds_from n 0

  -- `l` is the length of one contribution.
  module _ {T : Type 0} (l : ℕ) where
    unfoldable pub exchange : Protocol (List T) (List T) RecvKey
    exchange = record {
      size = n;
      rounds = rounds;
      dest = λ k rank. some ((rank + n - count k) % n);
      source = λ k rank. some ((rank + count k) % n);
      key = round_key phase_bruck;
      same = same_key;
      payload = λ k rank buf. slice 0 (to_send (count k) * l) buf;
      absorb = λ k rank buf m. write (count k * l) m buf;
    }

    -- The last loop, over the slots `0` to `k` of the working set.
    unfoldable pub rotate_loop : ℕ → ℕ → List T → List T → List T
    rotate_loop zero rank recv rotated = rotated
    rotate_loop (suc k) rank recv rotated =
        write ((rank + k) % n * l) (slice (k * l) l recv) (rotate_loop k rank recv rotated)

-- `vec![send_buf[0]; recv_buf.len()]` indexes out of bounds where a contribution is empty.
unfoldable pub rotate : {T : Type 0} → ℕ → ℕ → List T → List T → Run (List T)
rotate n rank [] recv = fault panic
rotate n rank (x ∷ xs) recv =
    done (rotate_loop n (length (x ∷ xs)) n rank recv (replicate (length recv) x))

-- The guards: the receive buffer is to have room for all contributions, and one rank copies its own.
unfoldable pub bruck_allgather :
    {T : Type 0}
    → ℕ
    → List T
    → List T
    → Result (Option (Protocol (List T) (List T) RecvKey)) CollectiveError
bruck_allgather n send recv =
    if length recv == length send * n
    then (if n == 1 then ok none else ok (some (exchange n (length send))))
    else err bad_shape

-- The working set at first: the rank's own contribution in slot 0.
unfoldable pub begin : {T : Type 0} → List T → List T → List T
begin send recv = write 0 send recv
