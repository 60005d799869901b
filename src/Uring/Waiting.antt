-- ===== src/Uring/Waiting.antt =====
-- Completions reach the handles that wait for them.
use pluvio.Base.{
  ℕ, ◌+◌, ◌%◌, ◌^◌, ◌<◌, ◌≡◌, refl, sym, ap, ap₂, ◌∙◌, inl, inr, Bool, true, false, Option, none,
  some, List, [], ◌∷◌, ◌++◌, length, append_assoc, append-nil, ◌==◌, ==_iff, ==_refl, done, ◌>>=◌,
  Bool-cases, if_true, if_false, arith,
}
use native.Mathlib.Nat.{mod-eq_of_lt}
use pluvio.Uring.{
  ℤ, HandleState, IoUringReactor, put, holds, remove, outcome, complete_cqe, complete_all,
}
use pluvio.Uring.Balance.{
  Drains, AllBelow, Distinct, holds-remove, gone, length-remove, below-remove, distinct-remove,
}

-- The wakers of the completions, in order.
unfoldable pub wakers : (ℕ → HandleState) → List (ℕ × ℤ) → List ℕ
wakers f [] = []
wakers f ((u, x) ∷ cs) =
    let rest = wakers f cs in elim (f u).waker as (λ y. List ℕ) [ none ↦ rest | some w ↦ w ∷ rest ]

wakers-put :
    (u : ℕ) (h : HandleState) (f : ℕ → HandleState) (cs : List (ℕ × ℤ)) (us vs : List ℕ)
    → Drains cs us vs
    → holds u us ≡ false
    → wakers (put u h f) cs ≡ wakers f cs
unfolding wakers Drains
wakers-put u h f [] us vs d n = refl
wakers-put u h f ((k, x) ∷ cs) us vs (a, d) n =
    let e =
      wakers-put u h f cs (remove k us) vs d
        (out (holds u (remove k us)) (holds u us) (holds-remove u k us) n) in
    ap₂ (λ y rest. elim y as (λ y. List ℕ) [ none ↦ rest | some w ↦ w ∷ rest ])
      (ap (λ y. y.waker) (if_false (k == u) h (f k) (differ k u us a n))) e
  where
    out : (b c : Bool) → (b ≡ true → c ≡ true) → c ≡ false → b ≡ false
    out b c g e = elim (Bool-cases b) [ inl y ↦ absurd (ground (arith, g y, e)) | inr y ↦ y ]

    differ : (k u : ℕ) (us : List ℕ) → holds k us ≡ true → holds u us ≡ false → (k == u) ≡ false
    differ k u us a n = elim (Bool-cases (k == u)) [
      | inl y ↦ absurd (ground (arith, a, n, ap (λ i. holds i us) ((==_iff k u).0 y)))
      | inr y ↦ y
    ]

module _ {W : Type 0} where
  -- Every operation under way has a handle that waits for it.
  unfoldable pub AllAwaited : IoUringReactor W → Type 0
  AllAwaited s = (u : ℕ) → holds u s.completions ≡ true → (w : ℕ) × ((s.cells u).waker ≡ some w)

  -- The counts and keys, whatever the ring says.
  pub record IsConsistent (s : IoUringReactor W) : Type 0 where
    pub counted : s.completed_count + length s.completions ≡ s.user_data_counter
    pub below : AllBelow s.user_data_counter s.completions
    pub distinct : Distinct s.completions
    pub word : s.user_data_counter < 2 ^ 64

  -- The results of the completions, as the handles have them.
  unfoldable pub AllGot : List (ℕ × ℤ) → IoUringReactor W → Type 0
  AllGot [] s = Unit
  AllGot ((u, x) ∷ cs) s = ((s.cells u).result ≡ some (outcome x)) × AllGot cs s

  -- What one completion makes of the reactor.
  abbrev one : ℕ → ℤ → ℕ → IoUringReactor W → IoUringReactor W
  one u x w s = record s {
    completions = remove u s.completions;
    completed_count = (s.completed_count + 1) % 2 ^ 64;
    cells = put u (record { waker = none; result = some (outcome x) }) s.cells;
    woken = s.woken ++ w ∷ [];
  }

  one-IsConsistent :
      (u : ℕ) (x : ℤ) (w : ℕ) (s : IoUringReactor W)
      → IsConsistent s
      → holds u s.completions ≡ true
      → IsConsistent (one u x w s)
  one-IsConsistent u x w s c h =
      let l = length-remove u s.completions h in
      record {
        counted =
            ap (λ k. k + length (remove u s.completions))
              (mod-eq_of_lt {n = s.completed_count + 1} {m = 2 ^ 64}
                (omega (arith, l, c.counted, c.word)))
            ∙ omega (arith, l, c.counted);
        below = below-remove s.user_data_counter u s.completions c.below;
        distinct = distinct-remove u s.completions c.distinct;
        word = c.word;
      }

  one-AllAwaited :
      (u : ℕ) (x : ℤ) (w : ℕ) (s : IoUringReactor W)
      → IsConsistent s
      → AllAwaited s
      → AllAwaited (one u x w s)
  unfolding AllAwaited
  one-AllAwaited u x w s c a v h = elim (Bool-cases (v == u)) [
    | inl y ↦ absurd (
        ground (
          arith,
          h,
          gone u s.completions c.distinct,
          ap (λ i. holds i (remove u s.completions)) ((==_iff v u).0 y),
        ))
    | inr y ↦ rw (y) (a v (holds-remove v u s.completions h))
  ]

  complete_cqe-one :
      (u : ℕ) (x : ℤ) (w : ℕ) (s : IoUringReactor W)
      → holds u s.completions ≡ true
      → (s.cells u).waker ≡ some w
      → complete_cqe (u, x) s ≡ done (one u x w s)
  unfolding complete_cqe
  complete_cqe-one u x w s h e = rw (h, e) refl

  -- What a run of completions makes of the reactor.
  pub record Completed (cs : List (ℕ × ℤ)) (vs : List ℕ) (s t : IoUringReactor W) : Type 0 where
    pub consistent : IsConsistent t
    pub awaited : AllAwaited t
    pub left_over : t.completions ≡ vs
    pub same_ring : t.ring ≡ s.ring
    pub others : (u : ℕ) → holds u s.completions ≡ false → t.cells u ≡ s.cells u
    pub got : AllGot cs t
    pub called : t.woken ≡ s.woken ++ wakers s.cells cs

  -- The others, of two completions in turn.
  kept :
      (u : ℕ) (x : ℤ) (w v : ℕ) (s : IoUringReactor W)
      → holds u s.completions ≡ true
      → holds v s.completions ≡ false
      → (holds v (remove u s.completions) ≡ false) × ((one u x w s).cells v ≡ s.cells v)
  kept u x w v s h n = (
    lost,
    if_false (v == u) (record { waker = none; result = some (outcome x) }) (s.cells v) differ,
  )
    where
      lost : holds v (remove u s.completions) ≡ false
      lost = elim (Bool-cases (holds v (remove u s.completions))) [
        | inl y ↦ absurd (ground (arith, n, holds-remove v u s.completions y))
        | inr y ↦ y
      ]

      differ : (v == u) ≡ false
      differ = elim (Bool-cases (v == u)) [
        | inl y ↦ absurd (ground (arith, h, n, ap (λ i. holds i s.completions) ((==_iff v u).0 y)))
        | inr y ↦ y
      ]

  pub complete_all_lem :
      (cs : List (ℕ × ℤ)) (vs : List ℕ) (s : IoUringReactor W)
      → IsConsistent s
      → AllAwaited s
      → Drains cs s.completions vs
      → (t : IoUringReactor W) × (complete_all cs s ≡ done t) × Completed cs vs s t
  unfolding complete_all Drains AllGot wakers AllAwaited
  complete_all_lem [] vs s c a d = (
    s,
    refl,
    record {
      consistent = c;
      awaited = a;
      left_over = d;
      same_ring = refl;
      others = λ u h. refl;
      got = tt;
      called = sym (append-nil s.woken);
    },
  )
  complete_all_lem ((u, x) ∷ cs) vs s c a (h, d) =
      let (w, e) = awaits u s a h in
      let s1 = one u x w s in
      let (t, q, g) =
        complete_all_lem cs vs s1 (one-IsConsistent u x w s c h) (one-AllAwaited u x w s c a) d in
      let n = gone u s.completions c.distinct in
      (
        t,
        ap (λ y. y >>= complete_all cs) (complete_cqe-one u x w s h e) ∙ q,
        record {
          consistent = g.consistent;
          awaited = g.awaited;
          left_over = g.left_over;
          same_ring = g.same_ring;
          others = λ v m. (let (i, j) = kept u x w v s h m in g.others v i ∙ j);
          got = (
            ap (λ y. y.result)
                (g.others u n
                  ∙ if_true (u == u) (record { waker = none; result = some (outcome x) })
                      (s.cells u) (==_refl u)),
            g.got,
          );
          called =
              g.called
              ∙ ap (λ ws. s.woken ++ w ∷ [] ++ ws)
                  (wakers-put u (record { waker = none; result = some (outcome x) }) s.cells cs
                    (remove u s.completions) vs d n)
              ∙ append_assoc s.woken (w ∷ []) (wakers s.cells cs)
              ∙ ap (λ y. s.woken ++ y) (first w (s.cells u).waker (wakers s.cells cs) e);
        },
      )
    where
      awaits :
          (u : ℕ) (s : IoUringReactor W)
          → AllAwaited s
          → holds u s.completions ≡ true
          → (w : ℕ) × ((s.cells u).waker ≡ some w)
      awaits u s a h = a u h

      first :
          (w : ℕ) (y : Option ℕ) (ws : List ℕ)
          → y ≡ some w
          → w ∷ ws ≡ elim y as (λ y. List ℕ) [ none ↦ ws | some w ↦ w ∷ ws ]
      first w y ws e = rw (e) refl
