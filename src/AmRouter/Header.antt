-- ===== src/AmRouter/Header.antt =====
-- pluvio_collective/src/ucx_backend/am_router.rs: `AmHeader`, its eight bytes, and `RecvKey`.
use pluvio.Base.{
  ℕ, ◌+◌, ◌*◌, ◌/◌, ◌%◌, ◌≡◌, Bool, true, ◌&&◌, List, [], ◌∷◌, length, ◌==◌, Result, ok, err, arith,
}

pub record AmHeader : Type 0 where
  pub src : ℕ
  pub step : ℕ
  pub phase : ℕ
  pub micro_chunk : ℕ

-- `CollectiveError::BadHeader`, `CollectiveError::BadShape` and `CollectiveError::Protocol`, without its text; the other kinds do not arise here.
pub data CollectiveError : Type 0 where
  bad_shape protocol : CollectiveError
  bad_header : (got expected : ℕ) → CollectiveError

abbrev pub bytes_of_header : ℕ
bytes_of_header = 8

-- `u16::to_le_bytes` gives the two bytes in this order.
unfoldable pub encode : AmHeader → List ℕ
encode h =
    h.src % 256 ∷ h.src / 256 ∷ h.step % 256 ∷ h.step / 256 ∷ h.phase ∷ h.micro_chunk ∷ 0 ∷ 0 ∷ []

unfoldable pub decode : List ℕ → Result AmHeader CollectiveError
decode (b0 ∷ b1 ∷ b2 ∷ b3 ∷ b4 ∷ b5 ∷ b6 ∷ b7 ∷ rest) =
    ok (record { src = b0 + 256 * b1; step = b2 + 256 * b3; phase = b4; micro_chunk = b5 })
decode bytes = err (bad_header (length bytes) bytes_of_header)

pub record RecvKey : Type 0 where
  pub src : ℕ
  pub step : ℕ
  pub phase : ℕ
  pub micro_chunk : ℕ

-- `RecvKey::from`.
abbrev pub recv_key : AmHeader → RecvKey
recv_key h = record { src = h.src; step = h.step; phase = h.phase; micro_chunk = h.micro_chunk }

-- The derived `PartialEq`.
unfoldable pub same_key : RecvKey → RecvKey → Bool
same_key a b =
    a.src == b.src && a.step == b.step && a.phase == b.phase && a.micro_chunk == b.micro_chunk

pub same_key_refl : (a : RecvKey) → same_key a a ≡ true
unfolding same_key
same_key_refl a = ground arith

pub same_key→≡ : (a b : RecvKey) → same_key a b ≡ true → a ≡ b
unfolding same_key
same_key→≡ a b h = ground arith
