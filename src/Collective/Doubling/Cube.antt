-- ===== src/Collective/Doubling/Cube.antt =====
-- What the ranks of the hypercube hold after each round of recursive doubling.
use native.Mathlib.Nat.{mod-eq_of_lt, div-eq_of_lt, div-one}
use pluvio.Base.{
  ℕ, zero, suc, ◌+◌, ◌*◌, ◌/◌, ◌%◌, ◌^◌, ◌≤◌, ◌<◌, ◌≡◌, refl, sym, ap, ap₂, subst, ◌∙◌, inl, inr,
  true, some, List, [], ◌∷◌, length, ◌==◌, ==_iff, ==_refl, if◌then◌else◌, if_true, arith,
}
use pluvio.Collective.Bits.{
  flip_bit, logical_highest_bit, logical_highest_bit-le, halves, flip_bit-lt, flip_bit-flip_bit,
  pow_double,
}
use pluvio.Collective.Ops.{Op, overlay, length-overlay, reduce_in_place, reduce_in_place_lem}
use pluvio.Collective.Tags.{encode_tag_inj}
use pluvio.Collective.Network.{IsMatched, sync, sync-takes}
use pluvio.Collective.Doubling.{is_power_of_two, trailing_zeros, tag_rd, cube}

pub tag_rd_inj :
    (j k r s : ℕ)
    → j < 2 ^ 16
    → k < 2 ^ 16
    → r < 2 ^ 16
    → s < 2 ^ 16
    → tag_rd j r ≡ tag_rd k s
    → (j ≡ k) × (r ≡ s)
unfolding tag_rd
tag_rd_inj j k r s a b c d e =
    let mj = mod-eq_of_lt {n = j} {m = 2 ^ 16} a in
    let mk = mod-eq_of_lt {n = k} {m = 2 ^ 16} b in
    let (q, w, x, y) =
      encode_tag_inj r s (j % 2 ^ 16) (k % 2 ^ 16) 3 3 0 0 c d (omega (arith, a, mj))
        (omega (arith, b, mk)) (omega arith) (omega arith) e in
    (sym mj ∙ w ∙ mk, q)

trailing_zeros-suc :
    (w x : ℕ)
    → trailing_zeros (suc w) x ≡ (if x % 2 == 0 then suc (trailing_zeros w (x / 2)) else 0)
unfolding trailing_zeros
trailing_zeros-suc w x = refl

trailing_zeros-pow : (w k : ℕ) → k ≤ w → trailing_zeros (suc w) (2 ^ k) ≡ k
trailing_zeros-pow w zero h = trailing_zeros-suc w 1
trailing_zeros-pow zero (suc k) h = absurd (omega (arith, h))
trailing_zeros-pow (suc w) (suc k) h =
    let x = 2 ^ suc k in
    let d : x ≡ 2 ^ k + 2 ^ k = pow_double k in
    trailing_zeros-suc (suc w) x
    ∙ if_true (x % 2 == 0) (suc (trailing_zeros (suc w) (x / 2))) 0 (ground (arith, d))
    ∙ ap suc
        (ap (trailing_zeros (suc w)) (omega (arith, d)) ∙ trailing_zeros-pow w k (omega (arith, h)))

module _ {T : Type 0} (op : Op T) (init : ℕ → List T) where
  -- The buffers of a block of `2 ^ k` ranks, reduced half with half.
  unfoldable pub paired : ℕ → ℕ → List T
  paired zero b = init b
  paired (suc k) b = overlay op.apply (paired k (2 * b)) (paired k (2 * b + 1))

module _ {T : Type 0} (op : Op T) (comm : (a b : T) → op.apply a b ≡ op.apply b a) where
  overlay_comm :
      (xs ys : List T) → length xs ≡ length ys → overlay op.apply xs ys ≡ overlay op.apply ys xs
  unfolding overlay
  overlay_comm [] [] h = refl
  overlay_comm [] (y ∷ ys) h = absurd (omega (arith, h))
  overlay_comm (x ∷ xs) [] h = absurd (omega (arith, h))
  overlay_comm (x ∷ xs) (y ∷ ys) h = ap₂ ◌∷◌ (comm x y) (overlay_comm xs ys (omega (arith, h)))

  module _ (init : ℕ → List T) where
    module _ (m n len : ℕ) (e : n ≡ 2 ^ m) (sized : (r : ℕ) → r < n → length (init r) ≡ len) where
      abbrev held : ℕ → ℕ → List T
      held k r = sync (cube op n) init k r

      partner-lt : (k r : ℕ) → k < m → r < n → flip_bit r k < n
      partner-lt k r a b =
          subst (λ n. flip_bit r k < n) (sym e) (flip_bit-lt r k m a (subst (λ n. r < n) e b))

      held-suc : (k r : ℕ) → held (suc k) r ≡ reduce_in_place op (held k r) (held k (flip_bit r k))
      unfolding cube
      held-suc k r = sync-takes (cube op n) init k r (flip_bit r k) refl

      length-held : (k r : ℕ) → k ≤ m → r < n → length (held k r) ≡ len
      unfolding sync
      length-held zero r a b = sized r b
      length-held (suc k) r a b =
          let x = length-held k r (omega (arith, a)) b in
          let y = length-held k (flip_bit r k) (omega (arith, a)) (partner-lt k r a b) in
          ap length
            (held-suc k r ∙ reduce_in_place_lem op (held k r) (held k (flip_bit r k)) (x ∙ sym y))
          ∙ length-overlay op.apply (held k r) (held k (flip_bit r k))
          ∙ x

      held_lem : (k r : ℕ) → k ≤ m → r < n → held k r ≡ paired op init k (r / 2 ^ k)
      unfolding sync paired
      held_lem zero r a b = ap init (sym (div-one r))
      held_lem (suc k) r a b =
          let c = partner-lt k r a b in
          let x = length-held k r (omega (arith, a)) b in
          let y = length-held k (flip_bit r k) (omega (arith, a)) c in
          held-suc k r
          ∙ reduce_in_place_lem op (held k r) (held k (flip_bit r k)) (x ∙ sym y)
          ∙ elim (halves r k) [
            | inl (f, g) ↦
                ap₂ (overlay op.apply) (held_lem k r (omega (arith, a)) b ∙ ap (paired op init k) f)
                  (held_lem k (flip_bit r k) (omega (arith, a)) c ∙ ap (paired op init k) g)
            | inr (f, g) ↦
                overlay_comm (held k r) (held k (flip_bit r k)) (x ∙ sym y)
                ∙ ap₂ (overlay op.apply)
                    (held_lem k (flip_bit r k) (omega (arith, a)) c ∙ ap (paired op init k) g)
                    (held_lem k r (omega (arith, a)) b ∙ ap (paired op init k) f)
          ]

      pub all_paired : (r : ℕ) → r < n → held m r ≡ paired op init m 0
      all_paired r b =
          held_lem m r (omega arith) b
          ∙ ap (paired op init m) (div-eq_of_lt (subst (λ n. r < n) e b))

pub power : (n : ℕ) → is_power_of_two n ≡ true → n ≡ 2 ^ logical_highest_bit n
unfolding is_power_of_two
power n e = (==_iff n (2 ^ logical_highest_bit n)).0 e

pub rounds_lem : (n : ℕ) → is_power_of_two n ≡ true → trailing_zeros 64 n ≡ logical_highest_bit n
rounds_lem n e =
    ap (trailing_zeros 64) (power n e)
    ∙ trailing_zeros-pow 63 (logical_highest_bit n) (logical_highest_bit-le n)

pub cube-IsMatched :
    {T : Type 0} (op : Op T) (n : ℕ) → is_power_of_two n ≡ true → n ≤ 2 ^ 16 → IsMatched (cube op n)
unfolding cube
cube-IsMatched op n e h = record {
  waited = λ k r s a b f.
      (let c = partner k r (omega (arith, a, rounds_lem n e)) b in
        let q : flip_bit r k ≡ s = ground (arith, f) in
        (subst (λ s. s < n) q c, ap some (ap (λ i. flip_bit i k) (sym q) ∙ flip_bit-flip_bit r k)));
  apart = λ l j k r s t a b c d _ _ f g.
      tag_rd_inj j k r s (omega (arith, a, small)) (omega (arith, b, small)) (omega (arith, c))
        (omega (arith, d)) (sym ((==_iff l (tag_rd j r)).0 f) ∙ (==_iff l (tag_rd k s)).0 g);
  itself = λ k r. ==_refl (tag_rd k r);
}
  where
    small : trailing_zeros 64 n ≤ 63
    small = omega (arith, rounds_lem n e, logical_highest_bit-le n)

    partner : (k r : ℕ) → k < logical_highest_bit n → r < n → flip_bit r k < n
    partner k r a b =
        let p = power n e in
        subst (λ n. flip_bit r k < n) (sym p)
          (flip_bit-lt r k (logical_highest_bit n) a (subst (λ n. r < n) p b))
