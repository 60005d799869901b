-- ===== src/Collective/Ring/Matched.antt =====
-- The ranks of the ring fit together: neighbours wait for each other, and no two rounds share a tag.
use native.Mathlib.Nat.{mod-eq_of_lt}
use pluvio.Base.{ℕ, ◌+◌, ◌-◌, ◌%◌, ◌^◌, ◌≤◌, ◌<◌, ◌≡◌, sym, ap, ◌∙◌, some, ==_iff, ==_refl, arith}
use pluvio.Collective.Ops.{Op}
use pluvio.Collective.Tags.{encode_tag_inj}
use pluvio.Collective.Network.{IsMatched}
use pluvio.Collective.Ring.{next, phase, step, tag, rounds_of}
use pluvio.Collective.Ring.Ranks.{prev_in, next-prev}

phase-lt : (n k : ℕ) → phase n k < 2 ^ 8
unfolding phase
phase-lt n k = ground arith

pub step-lt : (n k : ℕ) → n ≤ 2 ^ 16 → k < (n - 1) + (n - 1) → step n k < 2 ^ 16
unfolding step
step-lt n k h a = ground arith

-- A round is known by its phase and its step.
pub round_inj :
    (n j k : ℕ)
    → j < (n - 1) + (n - 1)
    → k < (n - 1) + (n - 1)
    → step n j ≡ step n k
    → phase n j ≡ phase n k
    → j ≡ k
unfolding phase step
round_inj n j k a b e f = ground arith

-- Two messages of the ring among up to 65536 ranks have one tag only where they are one rank's in one round.
pub tag_inj :
    (n j k r s : ℕ)
    → n ≤ 2 ^ 16
    → j < (n - 1) + (n - 1)
    → k < (n - 1) + (n - 1)
    → r < n
    → s < n
    → tag n j r ≡ tag n k s
    → (j ≡ k) × (r ≡ s)
unfolding tag
tag_inj n j k r s h a b c d e =
    let u = step-lt n j h a in
    let v = step-lt n k h b in
    let mu = mod-eq_of_lt {n = step n j} {m = 2 ^ 16} u in
    let mv = mod-eq_of_lt {n = step n k} {m = 2 ^ 16} v in
    let (q, w, x, y) =
      encode_tag_inj r s (step n j % 2 ^ 16) (step n k % 2 ^ 16) (phase n j) (phase n k) 0 0
        (omega arith) (omega arith) (omega (arith, u, mu)) (omega (arith, v, mv)) (phase-lt n j)
        (phase-lt n k) e in
    (round_inj n j k a b (sym mu ∙ w ∙ mv) x, q)

pub rounds_of-IsMatched :
    {T : Type 0} (op : Op T) (n chunk : ℕ) → 2 ≤ n → n ≤ 2 ^ 16 → IsMatched (rounds_of op n chunk)
unfolding rounds_of
rounds_of-IsMatched op n chunk g h = record {
  waited = λ k r s a b e. (
    ground (arith, e, prev_in n r b),
    ap some (ap (next n) (ground (arith, e)) ∙ next-prev n r g b),
  );
  apart = λ l j k r s t a b c d _ _ e f.
      tag_inj n j k r s h a b c d (sym ((==_iff l (tag n j r)).0 e) ∙ (==_iff l (tag n k s)).0 f);
  itself = λ k r. ==_refl (tag n k r);
}
