-- ===== src/Collective/Bootstrap/Tests.antt =====
-- An exchange among three ranks, and the theorem at it.
use pluvio.Base.{ℕ, zero, suc, ◌<◌, ◌^◌, ◌≡◌, refl, [], ◌∷◌, length, arith}
use pluvio.Collective.Bootstrap.{
  returned, io_error, size_mismatch, panicked, Bytes, to_le_bytes, from_le_bytes, read_exact,
  write_u32_len_prefixed, read_u32, read_u32_len_prefixed, hello, admit, accept, listed, reply,
  serve, receive,
}
use pluvio.Collective.Bootstrap.Exchange.{greetings, exchange-agrees}

abbrev address : ℕ → Bytes
address zero = 10 ∷ []
address (suc zero) = 20 ∷ 21 ∷ []
address (suc (suc r)) = 30 ∷ []

-- Rank 2 comes first.
abbrev arrival : ℕ → ℕ
arrival zero = 2
arrival (suc i) = 1

too_short : receive 3 (3 ∷ 0 ∷ []) ≡ io_error
unfolding receive read_u32 read_exact
too_short = refl

other_size : receive 3 (2 ∷ 0 ∷ 0 ∷ 0 ∷ []) ≡ size_mismatch
unfolding receive read_u32 read_exact from_le_bytes
other_size = refl

-- Two connections of one rank leave another without one.
twice_the_same : serve 3 (λ i. hello 1 (5 ∷ [])) (10 ∷ []) ≡ panicked
unfolding serve accept admit hello reply read_u32 read_u32_len_prefixed read_exact
    write_u32_len_prefixed to_le_bytes from_le_bytes
twice_the_same = refl

short_address : (r : ℕ) → r < 3 → length (address r) < 2 ^ 32
short_address zero h = ground arith
short_address (suc zero) h = ground arith
short_address (suc (suc r)) h = ground arith

arrival_ranks : (i : ℕ) → i < 2 → (0 < arrival i) × (arrival i < 3)
arrival_ranks zero h = (ground arith, ground arith)
arrival_ranks (suc i) h = (ground arith, ground arith)

arrival_met : (r : ℕ) → 0 < r → r < 3 → (i : ℕ) × (i < 2) × (arrival i ≡ r)
arrival_met zero h l = absurd (ground (arith, h))
arrival_met (suc zero) h l = (1, ground arith, refl)
arrival_met (suc (suc zero)) h l = (0, ground arith, refl)
arrival_met (suc (suc (suc r))) h l = absurd (ground (arith, l))

arrival_once : (i j : ℕ) → i < 2 → j < 2 → arrival i ≡ arrival j → i ≡ j
arrival_once zero zero h l e = refl
arrival_once zero (suc j) h l e = absurd (ground (arith, e))
arrival_once (suc i) zero h l e = absurd (ground (arith, e))
arrival_once (suc i) (suc j) h l e = omega (arith, h, l)

exchange-agrees_example :
    (out : ℕ → Bytes) × (serve 3 (greetings address arrival) (address 0)
      ≡ returned (listed 3 address, out))
    × ((i : ℕ) → i < 2 → receive 3 (out i) ≡ returned (listed 3 address))
exchange-agrees_example =
    exchange-agrees 2 address arrival (ground arith) short_address arrival_ranks arrival_met
      arrival_once
