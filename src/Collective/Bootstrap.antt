-- ===== src/Collective/Bootstrap.antt =====
-- pluvio_collective/src/ucx_backend/bootstrap.rs: the exchange of worker addresses through rank 0, over TCP.
-- A TCP connection is the bytes that are written to it, in order; a read that finds too few of them is an
-- I/O error.
pub mod Streams
pub mod Exchange
mod Tests
use pluvio.Base.{
  ℕ, zero, suc, ◌+◌, ◌*◌, ◌/◌, ◌%◌, ◌^◌, Option, none, some, List, [], ◌∷◌, ◌++◌, length, take,
  drop, ltb, leb, ◌==◌, if◌then◌else◌,
}
use pluvio.Collective.Network.{put}

-- How a call ends: with a result, with an error of the connection, with the protocol's own error, or in a
-- panic.
pub data Outcome {ℓ} (A : Type ℓ) : Type ℓ where
  returned : A → Outcome A
  io_error size_mismatch panicked : Outcome A

abbrev pub Bytes : Type 0
Bytes = List ℕ

-- `to_le_bytes` and `from_le_bytes` of a u32.
unfoldable pub to_le_bytes : ℕ → Bytes
to_le_bytes n = n % 256 ∷ n / 256 % 256 ∷ n / 65536 % 256 ∷ n / 16777216 % 256 ∷ []

unfoldable pub from_le_bytes : Bytes → ℕ
from_le_bytes (b0 ∷ b1 ∷ b2 ∷ b3 ∷ rest) = b0 + 256 * b1 + 65536 * b2 + 16777216 * b3
from_le_bytes bytes = 0

-- `read_exact`: what is read, and what is left.
unfoldable pub read_exact : ℕ → Bytes → Outcome (Bytes × Bytes)
read_exact n stream =
    if leb n (length stream) then returned (take n stream, drop n stream) else io_error

unfoldable pub write_u32_len_prefixed : Bytes → Bytes
write_u32_len_prefixed buf = to_le_bytes (length buf) ++ buf

-- What comes after a step that succeeds.
abbrev pub and_then : {A B : Type 0} → Outcome A → (A → Outcome B) → Outcome B
and_then (returned a) f = f a
and_then io_error f = io_error
and_then size_mismatch f = size_mismatch
and_then panicked f = panicked

unfoldable pub read_u32 : Bytes → Outcome (ℕ × Bytes)
read_u32 stream =
    and_then (read_exact 4 stream) (λ (p : Bytes × Bytes). returned (from_le_bytes p.0, p.1))

unfoldable pub read_u32_len_prefixed : Bytes → Outcome (Bytes × Bytes)
read_u32_len_prefixed stream = and_then (read_u32 stream) (λ (p : ℕ × Bytes). read_exact p.0 p.1)

-- What a rank sends to rank 0.
unfoldable pub hello : ℕ → Bytes → Bytes
hello rank my_addr = to_le_bytes rank ++ write_u32_len_prefixed my_addr

-- What rank 0 knows: the address of each rank, and the connection of each rank, which go by the order in
-- which they are accepted.
pub record Known : Type 0 where
  pub addresses : ℕ → Bytes
  pub conns : ℕ → Option ℕ

-- One connection: the vector has `size` places.
unfoldable pub admit : ℕ → ℕ → Bytes → Known → Outcome Known
admit size i stream s = and_then (read_u32 stream) (λ (p : ℕ × Bytes).
    and_then (read_u32_len_prefixed p.1) (λ (q : Bytes × Bytes).
      if ltb p.0 size
      then returned
          (record { addresses = put p.0 q.0 s.addresses; conns = put p.0 (some i) s.conns })
      else panicked))

-- The first `k` connections.
unfoldable pub accept : ℕ → (ℕ → Bytes) → ℕ → Known → Outcome Known
accept size streams zero s = returned s
accept size streams (suc k) s = and_then (accept size streams k s) (admit size k (streams k))

-- The addresses, one after another.
unfoldable pub listed : ℕ → (ℕ → Bytes) → List Bytes
listed zero addresses = []
listed (suc n) addresses = listed n addresses ++ addresses n ∷ []

unfoldable pub write_all : List Bytes → Bytes
write_all [] = []
write_all (a ∷ rest) = write_u32_len_prefixed a ++ write_all rest

-- What rank 0 writes to each rank.
unfoldable pub catalog : ℕ → (ℕ → Bytes) → Bytes
catalog size addresses = to_le_bytes size ++ write_all (listed size addresses)

-- The second loop, over the ranks from 1 up to `1 + k`: `conns.remove(&rank).expect(..)`.
unfoldable pub reply : ℕ → Known → ℕ → (ℕ → Bytes) → Outcome (ℕ → Bytes)
reply size s zero out = returned out
reply size s (suc k) out = and_then (reply size s k out) (λ (out : ℕ → Bytes).
    elim (s.conns (suc k)) as (λ x. Outcome (ℕ → Bytes)) [
      | none ↦ panicked
      | some i ↦ returned (put i (out i ++ catalog size s.addresses) out)
    ])

-- `exchange_addresses` of rank 0: its result, and what it wrote to each connection. With no ranks there is
-- no place for its own address.
unfoldable pub serve : ℕ → (ℕ → Bytes) → Bytes → Outcome (List Bytes × (ℕ → Bytes))
serve zero streams my_addr = panicked
serve (suc others) streams my_addr =
    and_then
      (accept (suc others) streams others
        (record { addresses = put 0 my_addr (λ r. []); conns = λ r. none }))
      (λ (s : Known).
        and_then (reply (suc others) s others (λ i. []))
          (λ (out : ℕ → Bytes). returned (listed (suc others) s.addresses, out)))

-- As many addresses as were announced.
unfoldable pub read_addresses : ℕ → Bytes → Outcome (List Bytes)
read_addresses zero stream = returned []
read_addresses (suc n) stream = and_then (read_u32_len_prefixed stream) (λ (p : Bytes × Bytes).
    and_then (read_addresses n p.1) (λ (rest : List Bytes). returned (p.0 ∷ rest)))

-- `exchange_addresses` of another rank, once it is connected: what it makes of what it reads.
unfoldable pub receive : ℕ → Bytes → Outcome (List Bytes)
receive size stream =
    and_then (read_u32 stream)
      (λ (p : ℕ × Bytes). if p.0 == size then read_addresses p.0 p.1 else size_mismatch)
