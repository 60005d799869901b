-- ===== src/Collective/Broadcast/Tree.antt =====
-- After `k` rounds of the broadcast the ranks whose logical rank is below `2 ^ k` have the data.
use pluvio.Base.{
  ℕ, zero, suc, ◌+◌, ◌-◌, ◌%◌, ◌^◌, ◌≤◌, ◌<◌, max, ◌≡◌, ◌≢◌, refl, sym, ap, ◌∙◌, inl, inr, true,
  not, ◌&&◌, none, some, List, length, ltb, leb, ◌==◌, if◌then◌else◌, ok, subst, write, write-whole,
  Bool-cases, Option-cases, if_true, if_false, arith,
}
use pluvio.AmRouter.Header.{RecvKey, same_key_refl}
use pluvio.Collective.Bits.{
  clear_bit, logical_highest_bit, bit_length, highest_at, bit_length-lt, bit_length-le, set_bit_lem,
  clear_bit_lem, bit-low, bit-top, pow_pos, pow_double,
}
use pluvio.Collective.Keys.{round_key, round_key_inj}
use pluvio.Collective.Network.{Protocol, IsMatched, sync, sync-rests, sync-takes, Ends, Ends-with}
use pluvio.Collective.Completion.{run-completes}
use pluvio.Collective.Ranks.{once}
use pluvio.Collective.Broadcast.{logical, physical, have_data, dest, source, tree, broadcast}

module _ (n root : ℕ) (two : 2 ≤ n) (h : root < n) where
  logical-lt : (r : ℕ) → r < n → logical n root r < n
  unfolding logical
  logical-lt r a = ground (arith, once n (r + n - root) (omega arith))

  physical-logical : (r : ℕ) → r < n → physical n root (logical n root r) ≡ r
  unfolding logical physical
  physical-logical r a = ground (
    arith,
    once n (r + n - root) (omega arith),
    once n (logical n root r + root) (omega (arith, logical-lt r a)),
  )

  logical-physical : (l : ℕ) → l < n → logical n root (physical n root l) ≡ l
  unfolding logical physical
  logical-physical l a = ground (
    arith,
    once n (l + root) (omega arith),
    once n ((l + root) % n + n - root) (ground (arith, once n (l + root) (omega arith))),
  )

  physical-lt : (l : ℕ) → l < n → physical n root l < n
  unfolding physical
  physical-lt l a = ground (arith, once n (l + root) (omega arith))

  module _ (word : n ≤ 2 ^ 16) where
    -- Who has the data.
    have_data-lt : (k r : ℕ) → r < n → have_data n root k r ≡ ltb (logical n root r) (2 ^ k)
    unfolding have_data
    have_data-lt zero r a = ground arith
    have_data-lt (suc k) r a =
        let l = logical n root r in
        rw (have_data-lt k r a) (elim (Bool-cases (ltb l (2 ^ k))) [
          | inl y ↦
              if_true (ltb l (2 ^ k)) true (k == logical_highest_bit l) y
              ∙ ground (arith, y, pow_double k)
          | inr y ↦
              if_false (ltb l (2 ^ k)) true (k == logical_highest_bit l) y
              ∙ highest_at k l (ground (arith, y)) (omega (arith, logical-lt r a))
        ])

    -- Who waits in a round: the ranks that have the data after it, and not before; and for whom.
    source_lem :
        (k r : ℕ)
        → r < n
        → let l = logical n root r in
          source n root k r ≡ (
            if ltb l (2 ^ k)
            then none
            else (if ltb l (2 ^ suc k) then some (physical n root (l - 2 ^ k)) else none))
    unfolding source
    source_lem k r a =
        let l = logical n root r in
        rw (have_data-lt k r a) (elim (Bool-cases (ltb l (2 ^ k))) [
          | inl y ↦ rw (y) refl
          | inr y ↦
              let up : 2 ^ k ≤ l = ground (arith, y) in
              rw (y, highest_at k l up (omega (arith, logical-lt r a)))
                (elim (Bool-cases (ltb l (2 ^ suc k))) [
                  | inl z ↦
                      rw (z)
                        (ap (λ i. some (physical n root i)) (cleared l k up (ground (arith, z))))
                  | inr z ↦ rw (z) refl
                ])
        ])
      where
        cleared : (l k : ℕ) → 2 ^ k ≤ l → l < 2 ^ suc k → clear_bit l k ≡ l - 2 ^ k
        cleared l k b c = clear_bit_lem l k (bit-top l k b c)

    source-waits :
        (k r s : ℕ)
        → r < n
        → source n root k r ≡ some s
        → let l = logical n root r in
          (2 ^ k ≤ l) × (l < 2 ^ suc k) × (s ≡ physical n root (l - 2 ^ k))
    source-waits k r s a e = (
      ground (arith, e, source_lem k r a),
      ground (arith, e, source_lem k r a),
      ground (arith, e, source_lem k r a),
    )

    dest-sends :
        (k s : ℕ)
        → s < n
        → logical n root s < 2 ^ k
        → logical n root s + 2 ^ k < n
        → dest n root k s ≡ some (physical n root (logical n root s + 2 ^ k))
    unfolding dest
    dest-sends k s a l b =
        let e = set_bit_lem (logical n root s) k (bit-low (logical n root s) k l) in
        rw (have_data-lt k s a, e)
          (if_true
            (ltb (logical n root s) (2 ^ k)
              && not (logical n root s + 2 ^ k == logical n root s)
              && ltb (logical n root s + 2 ^ k) n)
            (some (physical n root (logical n root s + 2 ^ k))) none
            (ground (arith, l, b, pow_pos k)))

    tree-IsMatched : {T : Type 0} → IsMatched (tree n root {T = T})
    unfolding tree
    tree-IsMatched = record {
      waited = λ k r s _ b e.
          (let (x, y, z) = source-waits k r s b e in
            let l = logical n root r in
            let small : l - 2 ^ k < n = omega (arith, logical-lt r b) in
            let q = logical-physical (l - 2 ^ k) small in
            rw (z) (
              physical-lt (l - 2 ^ k) small,
              dest-sends k (physical n root (l - 2 ^ k)) (physical-lt (l - 2 ^ k) small)
                    (omega (arith, q, x, y, pow_double k)) (omega (arith, q, x, logical-lt r b))
                  ∙ ap (λ i. some (physical n root i)) (omega (arith, q, x))
                  ∙ ap some (physical-logical r b),
            ));
      apart = λ l j k r s t a b c d _ _.
          round_key_inj l 5 j k r s (omega (arith, a, bit_length-le (n - 1)))
            (omega (arith, b, bit_length-le (n - 1))) (omega arith) (omega arith);
      itself = λ k r. same_key_refl (round_key 5 k r);
    }

    -- The root is the rank of logical rank 0.
    at_root : (r : ℕ) → r < n → logical n root r < 2 ^ 0 → r ≡ root
    unfolding logical
    at_root r a l = ground (arith, once n (r + n - root) (omega arith))

    module _ {T : Type 0} (len : ℕ) (init : ℕ → List T)
        (sized : (r : ℕ) → r < n → length (init r) ≡ len) where
      abbrev held : ℕ → ℕ → List T
      held k r = sync (tree n root) init k r

      held-rests : (k r : ℕ) → source n root k r ≡ none → held (suc k) r ≡ held k r
      unfolding tree
      held-rests k r e = sync-rests (tree n root) init k r e

      held-takes :
          (k r s : ℕ) → source n root k r ≡ some s → held (suc k) r ≡ write 0 (held k s) (held k r)
      unfolding tree
      held-takes k r s e = sync-takes (tree n root) init k r s e

      source-lt : (k r s : ℕ) → r < n → source n root k r ≡ some s → s < n
      source-lt k r s a e =
          let (x, y, z) = source-waits k r s a e in
          rw (z) (physical-lt (logical n root r - 2 ^ k) (omega (arith, logical-lt r a)))

      length-held : (k r : ℕ) → r < n → length (held k r) ≡ len
      unfolding sync
      length-held zero r a = sized r a
      length-held (suc k) r a = elim (Option-cases (source n root k r)) [
        | inl e ↦ ap length (held-rests k r e) ∙ length-held k r a
        | inr (s, e) ↦
            let b = length-held k s (source-lt k r s a e) in
            let c = length-held k r a in
            ap length (held-takes k r s e ∙ write-whole (held k s) (held k r) (b ∙ sym c)) ∙ b
      ]

      -- Who has the data has the root's.
      has_root : (k r : ℕ) → r < n → logical n root r < 2 ^ k → held k r ≡ init root
      unfolding sync
      has_root zero r a l = ap init (at_root r a l)
      has_root (suc k) r a l = elim (Option-cases (source n root k r)) [
        | inl e ↦ held-rests k r e ∙ has_root k r a (ground (arith, e, l, source_lem k r a))
        | inr (s, e) ↦
            let (x, y, z) = source-waits k r s a e in
            let q = logical-physical (logical n root r - 2 ^ k) (omega (arith, logical-lt r a)) in
            let b = source-lt k r s a e in
            held-takes k r s e
            ∙ write-whole (held k s) (held k r) (length-held k s b ∙ sym (length-held k r a))
            ∙ has_root k s b (omega (arith, ap (logical n root) z, q, y, x, pow_double k))
      ]

      pub everyone : (r : ℕ) → r < n → held (max (bit_length (n - 1)) 1) r ≡ init root
      everyone r a = has_root (max (bit_length (n - 1)) 1) r a (
          omega (
            arith,
            logical-lt r a,
            bit_length-lt (n - 1) (max (bit_length (n - 1)) 1) (omega (arith, word)) (omega arith),
          ))

-- The guards let pass what has a root, and ranks to send to.
accepted :
    {T : Type 0} (n root : ℕ) (p : Protocol (List T) (List T) RecvKey)
    → broadcast n root ≡ ok (some p)
    → (n ≢ 1) × (root < n) × (p ≡ tree n root)
unfolding broadcast
accepted n root p e = elim (Bool-cases (n == 1)) [
  | inl y ↦ absurd (ground (arith, y, e))
  | inr y ↦ elim (Bool-cases (leb n root)) [
    | inl z ↦ absurd (ground (arith, y, z, e))
    | inr z ↦ (ground (arith, y), ground (arith, z), ground (arith, y, z, e))
  ]
]

-- Where ranks, at most 65536, call the broadcast with one root, that is one of them, and buffers of one
-- length, no schedule leads them into a deadlock: each can be carried on until all ranks have done their
-- rounds, and then all of them hold what the root held.
pub broadcast-everyone :
    {T : Type 0} (n root len : ℕ) (p : Protocol (List T) (List T) RecvKey) (init : ℕ → List T)
    (rs : List ℕ)
    → n ≤ 2 ^ 16
    → ((r : ℕ) → r < n → length (init r) ≡ len)
    → broadcast n root ≡ ok (some p)
    → Ends p init rs (λ r. init root)
unfolding tree
broadcast-everyone n root len p init rs word sized e =
    let (one, h, q) = accepted n root p e in
    let two : 2 ≤ n = ground (arith, one, h) in
    let t = tree n root in
    subst (λ p. Ends p init rs (λ r. init root)) (sym q)
      (Ends-with t init rs (sync t init t.rounds) (λ r. init root)
        (run-completes t (tree-IsMatched n root two h word) init rs)
        (everyone n root two h word len init sized))
