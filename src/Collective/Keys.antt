-- ===== src/Collective/Keys.antt =====
-- pluvio_collective/src/ucx_backend: the headers that the collectives over active messages send and wait
-- for, one of a rank in a round of a phase, as `AmHeader { src: rank as u16, .. }` makes it.
use native.Mathlib.Nat.{mod-eq_of_lt}
use pluvio.Base.{ℕ, ◌%◌, ◌^◌, ◌<◌, ◌≡◌, sym, ap, ◌∙◌, true}
use pluvio.AmRouter.Header.{RecvKey, recv_key, same_key, same_key→≡}

unfoldable pub round_key : ℕ → ℕ → ℕ → RecvKey
round_key phase k rank =
    recv_key (record { src = rank % 2 ^ 16; step = k % 2 ^ 16; phase = phase; micro_chunk = 0 })

-- Keys that both match one header are one rank's in one round, of up to 65536 ranks.
pub round_key_inj :
    (l : RecvKey) (phase j k r s : ℕ)
    → j < 2 ^ 16
    → k < 2 ^ 16
    → r < 2 ^ 16
    → s < 2 ^ 16
    → same_key l (round_key phase j r) ≡ true
    → same_key l (round_key phase k s) ≡ true
    → (j ≡ k) × (r ≡ s)
unfolding round_key
round_key_inj l phase j k r s a b c d e f =
    let q = sym (same_key→≡ l (round_key phase j r) e) ∙ same_key→≡ l (round_key phase k s) f in
    (
      sym (mod-eq_of_lt a) ∙ ap (λ h. h.step) q ∙ mod-eq_of_lt b,
      sym (mod-eq_of_lt c) ∙ ap (λ h. h.src) q ∙ mod-eq_of_lt d,
    )
