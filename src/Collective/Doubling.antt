-- ===== src/Collective/Doubling.antt =====
-- pluvio_collective/src/ucx_backend/recursive_doubling.rs: the allreduce by recursive doubling.
pub mod Cube
use pluvio.Base.{
  ℕ, zero, suc, ◌^◌, ◌%◌, ◌/◌, Bool, true, false, Option, some, none, List, leb, ◌==◌,
  if◌then◌else◌, Result, ok, err,
}
use pluvio.AmRouter.Header.{CollectiveError}
use pluvio.Collective.Bits.{flip_bit, logical_highest_bit}
use pluvio.Collective.Ops.{Op, reduce_in_place}
use pluvio.Collective.Tags.{encode_tag}
use pluvio.Collective.Network.{Protocol}
use pluvio.Collective.Ring.{ring_allreduce}

abbrev pub phase_rd : ℕ
phase_rd = 3

-- `usize::is_power_of_two`: the highest bit is the only one.
unfoldable pub is_power_of_two : ℕ → Bool
is_power_of_two x = x == 2 ^ logical_highest_bit x

-- `usize::trailing_zeros`, of a number of at most `w` bits.
unfoldable pub trailing_zeros : ℕ → ℕ → ℕ
trailing_zeros zero x = 0
trailing_zeros (suc w) x = let rest = trailing_zeros w (x / 2) in if x % 2 == 0 then suc rest else 0

unfoldable pub tag_rd : ℕ → ℕ → ℕ
tag_rd k rank = encode_tag rank (k % 2 ^ 16) phase_rd 0

-- In every round a rank exchanges its buffer with the partner that differs in one bit, and reduces.
unfoldable pub cube : {T : Type 0} → Op T → ℕ → Protocol (List T) (List T) ℕ
cube op n = record {
  size = n;
  rounds = trailing_zeros 64 n;
  dest = λ k rank. some (flip_bit rank k);
  source = λ k rank. some (flip_bit rank k);
  key = tag_rd;
  same = λ a b. a == b;
  payload = λ k rank buf. buf;
  absorb = λ k rank buf tmp. reduce_in_place op buf tmp;
}

-- Where the number of ranks is no power of two, the ring does it.
unfoldable pub recursive_doubling :
    {T : Type 0} → Op T → ℕ → ℕ → Result (Option (Protocol (List T) (List T) ℕ)) CollectiveError
recursive_doubling op n len =
    if leb n 1
    then ok none
    else (if is_power_of_two n then ok (some (cube op n)) else ring_allreduce op n len)
