-- ===== src/Collective/Pipelined/Matched.antt =====
-- The ranks of a chain fit together, and a chain alone is a plain ring of micro-chunks.
use native.Mathlib.Nat.{mod-eq_of_lt}
use pluvio.Base.{
  ℕ, zero, suc, ◌+◌, ◌-◌, ◌*◌, ◌^◌, ◌≤◌, ◌<◌, ◌≡◌, refl, sym, ap, ap₂, ◌∙◌, true, some, List, arith,
}
use pluvio.AmRouter.Header.{RecvKey, same_key, same_key_refl, same_key→≡}
use pluvio.Collective.Ops.{Op}
use pluvio.Collective.Network.{IsMatched, sync}
use pluvio.Collective.Ring.{next, prev, phase, step, sends, receives, rounds_of}
use pluvio.Collective.Ring.Matched.{round_inj, step-lt}
use pluvio.Collective.Ring.Ranks.{prev_in, next-prev}
use pluvio.Collective.Lanes.Views.{alone}
use pluvio.Collective.Pipelined.{PipelineConfig, chain_key, micro_size, chain, chains}
use pluvio.Collective.Pipelined.Apart.{key_at}

module _ {T : Type 0} (op : Op T) (n chunk : ℕ) (config : PipelineConfig) (two : 2 ≤ n)
    (few : config.micro_chunks < 2 ^ 8)
    (even : config.micro_chunks * micro_size chunk config.micro_chunks ≡ chunk) where
  abbrev w : ℕ
  w = config.micro_chunks

  abbrev s : ℕ
  s = micro_size chunk w

  -- A chain's key is one rank's in one round.
  chain_key_inj :
      (l : RecvKey) (m j k r t : ℕ)
      → n ≤ 2 ^ 16
      → j < (n - 1) + (n - 1)
      → k < (n - 1) + (n - 1)
      → r < n
      → t < n
      → same_key l (chain_key m (phase n j) (step n j) r) ≡ true
      → same_key l (chain_key m (phase n k) (step n k) t) ≡ true
      → (j ≡ k) × (r ≡ t)
  unfolding chain_key
  chain_key_inj l m j k r t word a b c d e f =
      let q =
        sym (same_key→≡ l (chain_key m (phase n j) (step n j) r) e)
        ∙ same_key→≡ l (chain_key m (phase n k) (step n k) t) f in
      (
        round_inj n j k a b
            (sym (mod-eq_of_lt (step-lt n j word a))
              ∙ ap (λ key. key.step) q
              ∙ mod-eq_of_lt (step-lt n k word b))
            (ap (λ key. key.phase) q),
        sym (mod-eq_of_lt (omega (arith, c, word)))
            ∙ ap (λ key. key.src) q
            ∙ mod-eq_of_lt (omega (arith, d, word)),
      )

  -- The ranks of a chain fit together.
  pub chains-IsMatched :
      n ≤ 2 ^ 16
      → (m : ℕ) → m < w
      → IsMatched (alone (chains op n chunk config) (λ m. sends op n s) (λ m. receives op n s) m)
  unfolding chains alone chain
  chains-IsMatched word m h = record {
    waited = λ k r t a b e. (
      ground (arith, e, prev_in n r b),
      ap some (ap (next n) (ground (arith, e)) ∙ next-prev n r two b),
    );
    apart = λ l j k r t i a b c d _ _ e f.
        chain_key_inj l m j k r t word a b c d
          (ap (same_key l) (sym (key_at op n chunk config two few even m j r)) ∙ e)
          (ap (same_key l) (sym (key_at op n chunk config two few even m k t)) ∙ f);
    itself = λ k r. same_key_refl ((chain n chunk w op m).key k r);
  }

  -- A chain alone is a plain ring of micro-chunks.
  pub alone-rounds_of :
      (m : ℕ) (init : ℕ → List T) (k r : ℕ)
      → sync
          (alone (chains op n chunk config) (λ m. sends op n s) (λ m. receives op n s) m)
          init
          k
          r
        ≡ sync (rounds_of op n s) init k r
  unfolding chains alone chain sync rounds_of
  alone-rounds_of m init zero r = refl
  alone-rounds_of m init (suc k) r =
      ap₂ (λ mine theirs. receives op n s k r mine (sends op n s k (prev n r) theirs))
        (alone-rounds_of m init k r) (alone-rounds_of m init k (prev n r))
