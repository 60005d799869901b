-- ===== src/Collective/Lanes/Completion.antt =====
-- Every order of the moves can be carried on until all ranks are through both phases.
use pluvio.Base.{
  ℕ, zero, suc, ◌+◌, ◌*◌, ◌<◌, ◌≤◌, ◌≡◌, ◌⊎◌, inl, inr, refl, sym, ap, subst, ◌∙◌, List, [], ◌∷◌,
  ◌++◌, ltb, ◌==◌, ==_iff, Bool-cases, arith,
}
use pluvio.Collective.Network.{IsMatched, sync}
use pluvio.Collective.Completion.{slowest, slowest-le, slowest_in, someone_moves}
use pluvio.Collective.Ring.Chunks.{mul_mono}
use pluvio.Collective.Lanes.{Pipeline, Pipes, Move, move, operate, fill}
use pluvio.Collective.Lanes.Views.{alone, Shares}
use pluvio.Collective.Lanes.Seen.{seen}
use pluvio.Collective.Lanes.Sound.{begins, IsSound, operate-IsSound, fill-IsSound}
use pluvio.Collective.Lanes.Progress.{total_work, Advances, loops-Advances, chain-Advances}

-- Between the begin of a phase and its end.
same_stage : (s b half pc : ℕ) → b ≤ s → s * half ≤ pc → pc < suc b * half → s ≡ b
same_stage s b half pc h k l = elim (Bool-cases (s == b)) [
  | inl y ↦ (==_iff s b).0 y
  | inr y ↦ absurd (omega (arith, k, l, mul_mono (suc b) s half (ground (arith, y, h))))
]

module _ {B X M K : Type 0} {p : Pipeline B M K} {send : ℕ → ℕ → ℕ → X → M}
    {take : ℕ → ℕ → ℕ → X → M → X} {view : ℕ → B → X} {lane_of : K → ℕ} {Good : B → Type 0}
    {Fine : M → Type 0} (apart : Shares p send take view lane_of Good Fine)
    (fit : (m : ℕ) → m < p.lanes → IsMatched (alone p send take m)) (init : ℕ → B)
    (limited : 0 < p.limit) where
  abbrev Forward : Pipes B M K → Type 0
  Forward t = Advances apart fit init limited t

  -- The first chains of all ranks have come to a round.
  abbrev Reached : Pipes B M K → ℕ → ℕ → Type 0
  Reached t bound l = (m r : ℕ) → m < l → r < p.ranks → bound ≤ t.pc m r

  module _ (t : Pipes B M K) (g : IsSound apart fit init limited t) where
    -- A chain that is not through phase `b`, while the chains before it are, moves, or the loops of a rank
    -- do.
    stuck_no_more :
        (b l r : ℕ)
        → b < 2
        → l < p.lanes
        → Reached t (b * p.half) p.lanes
        → Reached t (suc b * p.half) l
        → r < p.ranks
        → ((j : ℕ) → j < p.ranks → t.pc l r ≤ t.pc l j)
        → t.pc l r < suc b * p.half
        → Forward t
    unfolding alone
    stuck_no_more b l r two h before lower a least n =
        let (size, rounds) = apart.shape l in
        let far : suc b * p.half ≤ p.half + p.half = omega (arith, mul_mono (suc b) 2 p.half two) in
        let (j, c, level, w) =
          someone_moves (alone p send take l) (fit l h) r (seen apart l t) (g.moving l h)
            (omega (arith, a, size)) (omega (arith, n, far, rounds))
            (λ j c. least j (omega (arith, c, size))) in
        let d : j < p.ranks = omega (arith, c, size) in
        let s = t.stage j in
        elim (Bool-cases (ltb s b)) [
          | inl y ↦ loops-Advances apart fit init limited j t g d (ground (arith, y, two)) (λ m k.
              let k' : m < p.lanes = omega (arith, k, g.bounded j) in
              omega (arith, before m j k' d, mul_mono (suc s) b p.half (ground (arith, y))))
          | inr y ↦
              let e : s ≡ b =
                same_stage s b p.half (t.pc l j) (ground (arith, y)) (g.past l j h)
                  (omega (arith, n, level)) in
              elim (Bool-cases (ltb l (t.launched j))) [
                | inl z ↦
                    chain-Advances apart fit init limited j l t g h (omega (arith, e, two))
                      (ground (arith, z)) (omega (arith, level, n, ap (λ s. suc s * p.half) e)) w
                | inr z ↦
                    loops-Advances apart fit init limited j t g d (omega (arith, e, two)) (λ m k.
                      omega (arith, lower m j (ground (arith, k, z)) d, ap (λ s. suc s * p.half) e))
              ]
        ]

    -- All chains come through phase `b`, or something moves.
    reach :
        (b l : ℕ)
        → b < 2
        → l ≤ p.lanes
        → Reached t (b * p.half) p.lanes
        → Reached t (suc b * p.half) l ⊎ Forward t
    reach b zero two h before = inl (λ m r c. absurd (omega (arith, c)))
    reach b (suc l) two h before = elim (reach b l two (omega (arith, h)) before) [
      | inr f ↦ inr f
      | inl lower ↦
          let r = slowest p.ranks (t.pc l) in
          elim (Bool-cases (ltb 0 p.ranks)) [
            | inr z ↦ inl (λ m r c a. absurd (ground (arith, z, a)))
            | inl z ↦ elim (Bool-cases (ltb (t.pc l r) (suc b * p.half))) [
              | inl n ↦ inr (
                  stuck_no_more b l r two h before lower
                    (slowest_in p.ranks (t.pc l) (ground (arith, z))) (slowest-le p.ranks (t.pc l))
                    (ground (arith, n)))
              | inr n ↦ inl (λ m j c a. elim (Bool-cases (m == l)) [
                | inl y ↦
                    subst (λ m. suc b * p.half ≤ t.pc m j) (sym ((==_iff m l).0 y))
                      (ground (arith, n, slowest-le p.ranks (t.pc l) j a))
                | inr y ↦ lower m j (ground (arith, y, c)) a
              ])
            ]
          ]
    ]

    -- All of the first ranks are through, or the loops of one go on.
    leave :
        (n : ℕ)
        → n ≤ p.ranks
        → Reached t (2 * p.half) p.lanes
        → ((r : ℕ) → r < n → t.stage r ≡ 2) ⊎ Forward t
    leave zero h all = inl (λ r a. absurd (omega (arith, a)))
    leave (suc n) h all = elim (leave n (omega (arith, h)) all) [
      | inr f ↦ inr f
      | inl lower ↦ elim (Bool-cases (ltb (t.stage n) 2)) [
        | inl y ↦ inr (
            loops-Advances apart fit init limited n t g h (ground (arith, y)) (λ m k. omega (
              arith,
              all m n (omega (arith, k, g.bounded n)) h,
              mul_mono (suc (t.stage n)) 2 p.half (ground (arith, y)),
            )))
        | inr y ↦ inl (λ r a. elim (Bool-cases (r == n)) [
          | inl z ↦
              subst (λ r. t.stage r ≡ 2) (sym ((==_iff r n).0 z)) (ground (arith, y, g.staged n))
          | inr z ↦ lower r (ground (arith, z, a))
        ])
      ]
    ]

    advances : ((r : ℕ) → r < p.ranks → t.stage r ≡ 2) ⊎ Forward t
    advances = elim (reach 0 p.lanes (omega arith) (omega arith) (λ m r a b. omega arith)) [
      | inr f ↦ inr f
      | inl one ↦ elim (reach 1 p.lanes (omega arith) (omega arith) one) [
        | inr f ↦ inr f
        | inl both ↦ leave p.ranks (omega arith) both
      ]
    ]

  finishes :
      (fuel : ℕ) (t : Pipes B M K)
      → IsSound apart fit init limited t
      → total_work apart fit init limited t < fuel
      → (es : List Move) × ((r : ℕ) → r < p.ranks → (operate p es t).stage r ≡ 2)
  unfolding operate
  finishes zero t g h = elim h [ ]
  finishes (suc fuel) t g h = elim (advances t g) [
    | inl f ↦ ([], f)
    | inr (e, w) ↦
        let (es, f) =
          finishes fuel (move p e t) (operate-IsSound apart fit init limited (e ∷ []) t g)
            (omega (arith, h, w)) in
        (e ∷ es, f)
  ]

  operate-append :
      (es more : List Move) (t : Pipes B M K)
      → operate p (es ++ more) t ≡ operate p more (operate p es t)
  unfolding operate
  operate-append [] more t = refl
  operate-append (e ∷ es) more t = operate-append es more (move p e t)

  -- A rank that is through both phases holds, as each chain sees it, what the chain alone would hold
  -- after all its rounds, were all ranks in step.
  through :
      (t : Pipes B M K) (r m : ℕ)
      → IsSound apart fit init limited t
      → t.stage r ≡ 2
      → m < p.lanes
      → view m (t.held r)
        ≡ sync (alone p send take m) (begins apart fit init limited m) (p.half + p.half) r
  unfolding alone
  through t r m g e h =
      let at_end : t.pc m r ≡ p.half + p.half = omega (
        arith,
        g.past m r h,
        ap (λ s. s * p.half) e,
        (g.moving m h).bounded r,
        (apart.shape m).1,
      ) in
      (g.agree m h).state r
      ∙ ap (λ k. sync (alone p send take m) (begins apart fit init limited m) k r) at_end

  -- Every order of the moves can be carried on until all ranks are through; then each chain has done at
  -- every rank what it does alone.
  pub chains_complete :
      ((r : ℕ) → r < p.ranks → Good (init r))
      → (es : List Move)
      → (more : List Move) × ((r : ℕ)
          → r < p.ranks
          → let t = operate p (es ++ more) (fill p init) in
            (t.stage r ≡ 2)
            × Good (t.held r)
            × ((m : ℕ)
                → m < p.lanes
                → view m (t.held r)
                  ≡ sync
                      (alone p send take m)
                      (begins apart fit init limited m)
                      (p.half + p.half)
                      r))
  chains_complete good es =
      let sound = fill-IsSound apart fit init limited good in
      let t = operate p es (fill p init) in
      let s = operate-IsSound apart fit init limited es (fill p init) sound in
      let (more, f) = finishes (suc (total_work apart fit init limited t)) t s (omega arith) in
      let u = operate p (es ++ more) (fill p init) in
      let h = operate-IsSound apart fit init limited (es ++ more) (fill p init) sound in
      let e = operate-append es more (fill p init) in
      (
        more,
        λ r a.
            (let d : u.stage r ≡ 2 = ap (λ u. u.stage r) e ∙ f r a in
              (d, h.sized.buffers r a, λ m b. through u r m h d b)),
      )
