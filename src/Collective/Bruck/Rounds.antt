-- ===== src/Collective/Bruck/Rounds.antt =====
-- The loop of Bruck's allgather: it ends with all contributions, and its ranks fit together.
use pluvio.Base.{
  ℕ, zero, suc, ◌+◌, ◌-◌, ◌%◌, ◌^◌, ◌≤◌, ◌<◌, ◌≡◌, refl, sym, ap, subst, ◌∙◌, inl, inr, some, ltb,
  ◌==◌, ==_iff, if_true, if_false, if◌then◌else◌, Bool-cases, arith,
}
use pluvio.AmRouter.Header.{same_key_refl}
use pluvio.Collective.Ranks.{once}
use pluvio.Collective.Keys.{round_key, round_key_inj}
use pluvio.Collective.Network.{IsMatched}
use pluvio.Collective.Bruck.{to_send, count, rounds_from, rounds, exchange}

module _ (n : ℕ) (h : 1 ≤ n) where
  pub count-le : (k : ℕ) → (1 ≤ count n k) × (count n k ≤ n)
  unfolding count to_send
  count-le zero = (omega arith, h)
  count-le (suc k) = (omega (arith, count-le k), omega (arith, count-le k))

  pub to_send-le :
      (k : ℕ) → (to_send n (count n k) ≤ count n k) × (count n k + to_send n (count n k) ≤ n)
  unfolding to_send
  to_send-le k = (omega arith, omega (arith, count-le k))

  count-grows : (k : ℕ) → count n k < n → count n k < count n (suc k)
  unfolding count to_send
  count-grows k a = omega (arith, a, count-le k)

  -- Whatever fuel is left over, the loop ends where it has all, and not before.
  rounds_from-all : (fuel k : ℕ) → n ≤ count n k + fuel → count n (k + rounds_from n fuel k) ≡ n
  unfolding rounds_from
  rounds_from-all zero k a =
      ap (count n) {x = k + 0} {y = k} (omega arith) ∙ omega (arith, a, count-le k)
  rounds_from-all (suc fuel) k a = elim (Bool-cases (ltb (count n k) n)) [
    | inl y ↦ rw (y) (
        ap (count n) {x = k + suc (rounds_from n fuel (suc k))}
          {y = suc k + rounds_from n fuel (suc k)} (omega arith)
        ∙ rounds_from-all fuel (suc k) (omega (arith, a, count-grows k (ground (arith, y)))))
    | inr y ↦
        rw (y) (ap (count n) {x = k + 0} {y = k} (omega arith) ∙ ground (arith, y, count-le k))
  ]

  rounds_from-suc :
      (fuel k : ℕ)
      → rounds_from n (suc fuel) k
        ≡ (if ltb (count n k) n then suc (rounds_from n fuel (suc k)) else 0)
  unfolding rounds_from
  rounds_from-suc fuel k = refl

  rounds_from-before : (fuel k j : ℕ) → k ≤ j → j < k + rounds_from n fuel k → count n j < n
  unfolding rounds_from
  rounds_from-before zero k j a b = absurd (omega (arith, a, b))
  rounds_from-before (suc fuel) k j a b = elim (Bool-cases (ltb (count n k) n)) [
    | inr y ↦ absurd (
        omega (
          arith,
          a,
          b,
          rounds_from-suc fuel k
              ∙ if_false (ltb (count n k) n) (suc (rounds_from n fuel (suc k))) 0 y,
        ))
    | inl y ↦ elim (Bool-cases (k == j)) [
      | inl z ↦ rw (sym ((==_iff k j).0 z)) (ground (arith, y))
      | inr z ↦ rounds_from-before fuel (suc k) j (ground (arith, a, z)) (
          omega (
            arith,
            b,
            rounds_from-suc fuel k
                ∙ if_true (ltb (count n k) n) (suc (rounds_from n fuel (suc k))) 0 y,
          ))
    ]
  ]

  rounds_from-le : (fuel k : ℕ) → rounds_from n fuel k ≤ fuel
  unfolding rounds_from
  rounds_from-le zero k = omega arith
  rounds_from-le (suc fuel) k = ground (arith, rounds_from-le fuel (suc k))

  -- After the last round a rank has all contributions.
  pub count-rounds : count n (rounds n) ≡ n
  unfolding rounds count
  count-rounds =
      ap (count n) {x = rounds n} {y = 0 + rounds n} (omega arith)
      ∙ rounds_from-all n 0 (omega arith)

  pub count-lt : (k : ℕ) → k < rounds n → count n k < n
  unfolding rounds
  count-lt k a = rounds_from-before n 0 k (omega arith) (omega (arith, a))

  pub source_in : (k r : ℕ) → r < n → (r + count n k) % n < n
  source_in k r a = ground (arith, once n (r + count n k) (omega (arith, a, count-le k)))

  back : (k r : ℕ) → r < n → k < rounds n → ((r + count n k) % n + n - count n k) % n ≡ r
  back k r a b =
      let c = count-lt k b in
      let o = once n (r + count n k) (omega (arith, a, c)) in
      ground (
        arith,
        c,
        o,
        once n ((r + count n k) % n + n - count n k) (omega (arith, c, source_in k r a)),
      )

  rounds-le : rounds n ≤ n
  unfolding rounds
  rounds-le = rounds_from-le n 0

  pub exchange-IsMatched : {T : Type 0} (l : ℕ) → n ≤ 2 ^ 16 → IsMatched (exchange n {T = T} l)
  unfolding exchange
  exchange-IsMatched l word = record {
    waited = λ k r s a b e.
        (let q : (r + count n k) % n ≡ s = ground (arith, e) in
          (
            subst (λ s. s < n) q (source_in k r b),
            ap some (ap (λ s. (s + n - count n k) % n) (sym q) ∙ back k r b a),
          ));
    apart = λ key j k r s t a b c d _ _.
        round_key_inj key 4 j k r s (omega (arith, a, rounds-le, word))
          (omega (arith, b, rounds-le, word)) (omega (arith, c, word)) (omega (arith, d, word));
    itself = λ k r. same_key_refl (round_key 4 k r);
  }
