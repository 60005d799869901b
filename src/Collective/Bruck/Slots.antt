-- ===== src/Collective/Bruck/Slots.antt =====
-- The slots of Bruck's working set, and the buffer after the last rotation.
use native.Mathlib.Nat.{mul-le-mul_right, mod-eq_of_lt, mod-add-mod}
use pluvio.Base.{
  ℕ, zero, suc, ◌+◌, ◌-◌, ◌*◌, ◌%◌, ◌≤◌, ◌<◌, ◌≡◌, refl, sym, ap, ◌∙◌, inl, inr, false, List,
  length, ltb, ◌==◌, ==_iff, if◌then◌else◌, slice, write, length-slice, length-write,
  slice-write_self, slice-write_before, slice-write_inside, slice-take, Bool-cases, if_true,
  if_false, arith,
}
use pluvio.Collective.Ranks.{once, dist, along, dist-along}
use pluvio.Collective.Network.{sync, sync-takes}
use pluvio.Collective.Ring.Chunks.{
  chunk_at, length-chunk_at, length-write_chunk, chunk_at-write, gather, of_chunks,
}
use pluvio.Collective.Bruck.{to_send, count, exchange, rotate_loop, begin}
use pluvio.Collective.Bruck.Rounds.{to_send-le, source_in}

split : (a b s : ℕ) → (a + b) * s ≡ a * s + b * s
split a b s = grind arith

module _ {T : Type 0} (n l : ℕ) (h : 1 ≤ n) (send recv : ℕ → List T)
    (sized : (r : ℕ) → r < n → length (send r) ≡ l)
    (room : (r : ℕ) → r < n → length (recv r) ≡ l * n) where
  abbrev held : ℕ → ℕ → List T
  held k r = sync (exchange n l) (λ r. begin (send r) (recv r)) k r

  -- The rank whose contribution stands in a slot.
  abbrev from : ℕ → ℕ → ℕ
  from r j = (r + j) % n

  abbrev message : ℕ → ℕ → List T
  message k r = slice 0 (to_send n (count n k) * l) (held k (from r (count n k)))

  held-suc : (k r : ℕ) → held (suc k) r ≡ write (count n k * l) (message k r) (held k r)
  unfolding exchange
  held-suc k r =
      sync-takes (exchange n l) (λ r. begin (send r) (recv r)) k r (from r (count n k)) refl

  fits : (k : ℕ) → count n k * l + to_send n (count n k) * l ≤ n * l
  fits k = omega (
    arith,
    mul-le-mul_right {m = count n k + to_send n (count n k)} {n = n} l (to_send-le n h k).1,
  )

  length-message :
      (k s : ℕ)
      → length (held k s) ≡ n * l
      → length (slice 0 (to_send n (count n k) * l) (held k s)) ≡ to_send n (count n k) * l
  length-message k s e =
      length-slice 0 (to_send n (count n k) * l) (held k s) (omega (arith, e, fits k))

  pub length-held : (k r : ℕ) → r < n → length (held k r) ≡ n * l
  unfolding sync begin
  length-held zero r a =
      length-write 0 (send r) (recv r)
        (omega (arith, sized r a, room r a, mul-le-mul_right {m = 1} {n = n} l h))
      ∙ room r a
      ∙ omega arith
  length-held (suc k) r a =
      let s = from r (count n k) in
      let e = length-message k s (length-held k s (source_in n h k r a)) in
      let g = length-held k r a in
      ap length (held-suc k r)
      ∙ length-write (count n k * l) (message k r) (held k r) (omega (arith, e, g, fits k))
      ∙ g

  -- After `k` rounds the slots below `count` hold the contributions of the ranks behind.
  pub slots : (k r j : ℕ) → r < n → j < count n k → chunk_at l j (held k r) ≡ send (from r j)
  unfolding sync begin count
  slots zero r j a b =
      let z : j ≡ 0 = omega (arith, b) in
      ap (λ i. slice (i * l) l (write 0 (send r) (recv r))) z
      ∙ ap (λ o. slice o l (write 0 (send r) (recv r))) {x = 0 * l} {y = 0} (omega arith)
      ∙ ap (λ q. slice 0 q (write 0 (send r) (recv r))) (sym (sized r a))
      ∙ slice-write_self 0 (send r) (recv r) (omega arith)
      ∙ ap send (sym (ap (λ q. q % n) (omega (arith, z)) ∙ mod-eq_of_lt a))
  slots (suc k) r j a b = elim (Bool-cases (ltb j (count n k))) [
    | inl y ↦
        ap (chunk_at l j) (held-suc k r)
        ∙ slice-write_before (j * l) l (count n k * l) (message k r) (held k r)
            (omega (arith, mul-le-mul_right {m = suc j} {n = count n k} l (ground (arith, y))))
            (omega (arith, length-held k r a, fits k))
        ∙ slots k r j a (ground (arith, y))
    | inr y ↦
        let i = j - count n k in
        let s = from r (count n k) in
        let t = to_send n (count n k) in
        let c = source_in n h k r a in
        let e = length-message k s (length-held k s c) in
        let less : i < t = ground (arith, y, b) in
        let in_it : i * l + l ≤ t * l =
          omega (arith, mul-le-mul_right {m = suc i} {n = t} l less) in
        let at : count n k * l + i * l ≡ j * l =
          sym (split (count n k) i l)
          ∙ ap (λ q. q * l) {x = count n k + i} {y = j} (ground (arith, y)) in
        ap (chunk_at l j) (held-suc k r)
        ∙ ap (λ o. slice o l (write (count n k * l) (message k r) (held k r))) (sym at)
        ∙ slice-write_inside (i * l) l (count n k * l) (message k r) (held k r)
            (omega (arith, length-held k r a, fits k)) (omega (arith, e, in_it))
        ∙ slice-take (i * l) l (t * l) (held k s) in_it
        ∙ slots k s i c (omega (arith, less, to_send-le n h k))
        ∙ ap send (mod-add-mod (r + count n k) n i ∙ ap (λ q. q % n) (ground (arith, y)))
  ]

-- The rotation puts the slots in the order of the ranks.
module _ {T : Type 0} (n l rank : ℕ) (a : rank < n) (recv : List T) (e : length recv ≡ n * l) where
  length-rotate_loop :
      (k : ℕ) (out : List T)
      → k ≤ n
      → length out ≡ n * l
      → length (rotate_loop n l k rank recv out) ≡ n * l
  unfolding rotate_loop
  length-rotate_loop zero out b o = o
  length-rotate_loop (suc k) out b o =
      length-write_chunk l n ((rank + k) % n) (chunk_at l k recv) (rotate_loop n l k rank recv out)
        (length-rotate_loop k out (omega (arith, b)) o) (length-chunk_at l n k recv e b)
        (ground (arith, once n (rank + k) (omega (arith, a, b))))

  placed :
      (k c : ℕ) (out : List T)
      → k ≤ n
      → c < n
      → length out ≡ n * l
      → chunk_at l c (rotate_loop n l k rank recv out)
        ≡ (if ltb (dist n c rank) k then chunk_at l (dist n c rank) recv else chunk_at l c out)
  unfolding rotate_loop
  placed zero c out b d o = sym (
      if_false (ltb (dist n c rank) 0) (chunk_at l (dist n c rank) recv) (chunk_at l c out)
        (ground arith))
  placed (suc k) c out b d o =
      let g = (rank + k) % n in
      let before = rotate_loop n l k rank recv out in
      chunk_at-write l n c g (chunk_at l k recv) before
        (length-rotate_loop k out (omega (arith, b)) o) (length-chunk_at l n k recv e b)
        (ground (arith, once n (rank + k) (omega (arith, a, b))))
      ∙ elim (Bool-cases (c == g)) [
        | inl y ↦
            let q = dist-along n c rank k a b ((==_iff c g).0 y) in
            if_true (c == g) (chunk_at l k recv) (chunk_at l c before) y
            ∙ sym (
                if_true (ltb (dist n c rank) (suc k)) (chunk_at l (dist n c rank) recv)
                  (chunk_at l c out) (ground (arith, q))
                ∙ ap (λ i. chunk_at l i recv) q)
        | inr y ↦
            if_false (c == g) (chunk_at l k recv) (chunk_at l c before) y
            ∙ placed k c out (omega (arith, b)) d o
            ∙ ap (λ t. if t then chunk_at l (dist n c rank) recv else chunk_at l c out)
                (still c k y d)
      ]
    where
      still :
          (c k : ℕ)
          → (c == (rank + k) % n) ≡ false
          → c < n
          → ltb (dist n c rank) k ≡ ltb (dist n c rank) (suc k)
      still c k y d = elim (Bool-cases (dist n c rank == k)) [
        | inl z ↦ absurd (
            ground (
              arith,
              y,
              sym (along n c rank d a) ∙ ap (λ i. (rank + i) % n) ((==_iff (dist n c rank) k).0 z),
            ))
        | inr z ↦ ground (arith, z)
      ]

  pub rotate_loop_lem :
      (out : List T)
      → length out ≡ n * l
      → rotate_loop n l n rank recv out ≡ gather l n (λ c. chunk_at l (dist n c rank) recv)
  rotate_loop_lem out o =
      of_chunks l n (rotate_loop n l n rank recv out) (λ c. chunk_at l (dist n c rank) recv)
        (length-rotate_loop n out (omega arith) o)
        (λ c d.
          placed n c out (omega arith) d o
          ∙ if_true (ltb (dist n c rank) n) (chunk_at l (dist n c rank) recv) (chunk_at l c out)
              (ground (arith, d, a)))
