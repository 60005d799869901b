-- ===== src/Collective/Broadcast.antt =====
-- pluvio_collective/src/ucx_backend/broadcast.rs: the broadcast along a binomial tree.
pub mod Tree
use pluvio.Base.{
  ℕ, zero, suc, ◌+◌, ◌-◌, ◌%◌, ◌^◌, max, Bool, true, false, not, ◌&&◌, Option, none, some, List,
  ltb, leb, ◌==◌, if◌then◌else◌, Result, ok, err, write,
}
use pluvio.AmRouter.Header.{RecvKey, same_key, CollectiveError, protocol}
use pluvio.Collective.Bits.{set_bit, clear_bit, logical_highest_bit, bit_length}
use pluvio.Collective.Keys.{round_key}
use pluvio.Collective.Network.{Protocol}

abbrev pub phase_bcast : ℕ
phase_bcast = 5

module _ (n root : ℕ) where
  -- The rank, with the root at 0, and back.
  unfoldable pub logical : ℕ → ℕ
  logical rank = (rank + n - root) % n

  unfoldable pub physical : ℕ → ℕ
  physical l = (l + root) % n

  -- The variable `have_data` at the head of a round: a rank has the data once the round of its highest bit
  -- is over.
  unfoldable pub have_data : ℕ → ℕ → Bool
  have_data zero rank = logical rank == 0
  have_data (suc k) rank =
      let before = have_data k rank in
      if before then true else k == logical_highest_bit (logical rank)

  unfoldable pub dest : ℕ → ℕ → Option ℕ
  dest k rank =
      let peer_logical = set_bit (logical rank) k in
      if have_data k rank && not (peer_logical == logical rank) && ltb peer_logical n
      then some (physical peer_logical)
      else none

  unfoldable pub source : ℕ → ℕ → Option ℕ
  source k rank =
      if have_data k rank
      then none
      else (if k == logical_highest_bit (logical rank)
          then some (physical (clear_bit (logical rank) k))
          else none)

  -- A rank that has the data sends its buffer; the one that waits takes the message as its buffer.
  unfoldable pub tree : {T : Type 0} → Protocol (List T) (List T) RecvKey
  tree = record {
    size = n;
    rounds = max (bit_length (n - 1)) 1;
    dest = dest;
    source = source;
    key = round_key phase_bcast;
    same = same_key;
    payload = λ k rank buf. buf;
    absorb = λ k rank buf m. write 0 m buf;
  }

-- The guards. With one rank the root is not looked at.
unfoldable pub broadcast :
    {T : Type 0} → ℕ → ℕ → Result (Option (Protocol (List T) (List T) RecvKey)) CollectiveError
broadcast n root =
    if n == 1 then ok none else (if leb n root then err protocol else ok (some (tree n root)))
