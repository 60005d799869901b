-- ===== src/Collective/Tags.antt =====
-- pluvio_collective/src/ucx_backend/tag.rs: the 64-bit tags of UCX's tag matching.
use pluvio.Base.{ℕ, ◌+◌, ◌*◌, ◌%◌, ◌^◌, ◌<◌, ◌≡◌, arith}
use native.Mathlib.Nat.{mod-eq_of_lt}

-- The fields do not overlap, so that `|` is `+`. `step` is a `u16`, `phase` and `micro_chunk` are `u8`.
unfoldable pub encode_tag : ℕ → ℕ → ℕ → ℕ → ℕ
encode_tag src step phase micro_chunk =
    src % 2 ^ 16 + step * 2 ^ 16 + phase * 2 ^ 32 + micro_chunk * 2 ^ 40

-- The reserved bits of a tag are 0.
pub encode_tag-lt :
    (src step phase micro_chunk : ℕ)
    → step < 2 ^ 16
    → phase < 2 ^ 8
    → micro_chunk < 2 ^ 8
    → encode_tag src step phase micro_chunk < 2 ^ 48
unfolding encode_tag
encode_tag-lt src step phase micro_chunk a b c = omega arith

-- Tags of ranks below 65536 are equal only where all their fields are.
pub encode_tag_inj :
    (s t k j p q m l : ℕ)
    → s < 2 ^ 16
    → t < 2 ^ 16
    → k < 2 ^ 16
    → j < 2 ^ 16
    → p < 2 ^ 8
    → q < 2 ^ 8
    → encode_tag s k p m ≡ encode_tag t j q l
    → (s ≡ t) × (k ≡ j) × (p ≡ q) × (m ≡ l)
unfolding encode_tag
encode_tag_inj s t k j p q m l a b c d e f h =
    omega (arith, mod-eq_of_lt {n = s} {m = 2 ^ 16} a, mod-eq_of_lt {n = t} {m = 2 ^ 16} b)
