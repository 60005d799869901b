-- ===== src/Collective/Completion.antt =====
-- Every schedule can be carried on until all ranks have finished.
use pluvio.Base.{
  ℕ, zero, suc, ◌+◌, ◌-◌, ◌*◌, ◌<◌, ◌≤◌, ◌≡◌, ◌≢◌, ◌⊎◌, inl, inr, refl, sym, ap, ◌∙◌, true, false,
  none, some, List, [], ◌∷◌, ◌++◌, ltb, leb, lt→ltb, ◌==◌, ==_iff, if◌then◌else◌, Bool-cases,
  Option-cases, arith,
}
use pluvio.Collective.Network.{
  Protocol, Net, IsMatched, put, pick, post, finish, turn, run, start, sync, Ends,
}
use pluvio.Collective.Turns.{started, posted, ended, received}
use pluvio.Collective.Agreement.{put_other, run-sync}
use pluvio.Collective.Progress.{IsComplete, run-IsComplete, start-IsComplete}

-- A rank below `n` that has finished fewest rounds.
abbrev pub slowest : ℕ → (ℕ → ℕ) → ℕ
slowest zero f = 0
slowest (suc n) f = if leb (f n) (f (slowest n f)) then n else slowest n f

pub slowest-le : (n : ℕ) (f : ℕ → ℕ) (j : ℕ) → j < n → f (slowest n f) ≤ f j
slowest-le zero f j h = elim h [ ]
slowest-le (suc n) f j h = elim (Bool-cases (leb (f n) (f (slowest n f)))) [
  | inl e ↦ rw (e) (elim (Bool-cases (j == n)) [
    | inl y ↦ rw ((==_iff j n).0 y) (omega arith)
    | inr y ↦ ground (arith, e, slowest-le n f j (ground (arith, y, h)))
  ])
  | inr e ↦ rw (e) (elim (Bool-cases (j == n)) [
    | inl y ↦ rw ((==_iff j n).0 y) (ground (arith, e))
    | inr y ↦ slowest-le n f j (ground (arith, y, h))
  ])
]

slowest-lt : (n : ℕ) (f : ℕ → ℕ) → slowest (suc n) f < suc n
slowest-lt zero f = ground arith
slowest-lt (suc n) f = ground (arith, slowest-lt n f)

pub slowest_in : (n : ℕ) (f : ℕ → ℕ) → 0 < n → slowest n f < n
slowest_in zero f h = elim h [ ]
slowest_in (suc n) f h = slowest-lt n f

abbrev pub sum_to : ℕ → (ℕ → ℕ) → ℕ
sum_to zero f = 0
sum_to (suc n) f = f n + sum_to n f

pub sum_to-same :
    (n : ℕ) (f g : ℕ → ℕ) (r : ℕ) → n ≤ r → ((j : ℕ) → j ≢ r → g j ≡ f j) → sum_to n g ≡ sum_to n f
sum_to-same zero f g r l h = refl
sum_to-same (suc n) f g r l h =
    omega (arith, h n (omega arith), sum_to-same n f g r (omega arith) h)

pub sum_to-lt :
    (n : ℕ) (f g : ℕ → ℕ) (r : ℕ)
    → r < n
    → g r < f r
    → ((j : ℕ) → j ≢ r → g j ≡ f j)
    → sum_to n g < sum_to n f
sum_to-lt zero f g r l h s = elim l [ ]
sum_to-lt (suc n) f g r l h s = elim (Bool-cases (r == n)) [
  | inl e ↦
      let q = (==_iff r n).0 e in
      omega (arith, ap f q, ap g q, sum_to-same n f g r (omega (arith, q)) s)
  | inr e ↦ omega (arith, s n (ground (arith, e)), sum_to-lt n f g r (ground (arith, e, l)) h s)
]

-- What a rank has left to do, and all of them.
abbrev pub cost : {X M K : Type 0} → Protocol X M K → Net X M K → ℕ → ℕ
cost p t r = (p.rounds - t.pc r) * 2 + (if t.sent r then 0 else 1)

abbrev pub work : {X M K : Type 0} → Protocol X M K → Net X M K → ℕ
work p t = sum_to p.size (cost p t)

module _ {X M K : Type 0} (p : Protocol X M K) (fit : IsMatched p) where
  changed-work :
      (r : ℕ) (t u : Net X M K)
      → r < p.size
      → cost p u r < cost p t r
      → ((j : ℕ) → j ≢ r → (u.pc j ≡ t.pc j) × (u.sent j ≡ t.sent j))
      → work p u < work p t
  changed-work r t u a b same =
      sum_to-lt p.size (cost p t) (cost p u) r a b
        (λ j h. (let (x, y) = same j h in rw (x, y) refl))

  sending-work :
      (r : ℕ) (t u : Net X M K)
      → r < p.size
      → t.sent r ≡ false
      → u.pc ≡ t.pc
      → u.sent ≡ put r true t.sent
      → work p u < work p t
  sending-work r t u a c e f =
      changed-work r t u a (ground (arith, c, ap (λ h. h r) e, ap (λ h. h r) f))
        (λ j h. (ap (λ g. g j) e, ap (λ g. g j) f ∙ put_other r j true t.sent h))

  ending-work :
      (r : ℕ) (t u : Net X M K)
      → r < p.size
      → t.pc r < p.rounds
      → u.pc ≡ put r (suc (t.pc r)) t.pc
      → u.sent ≡ put r false t.sent
      → work p u < work p t
  ending-work r t u a b e f =
      changed-work r t u a (ground (arith, b, ap (λ h. h r) e, ap (λ h. h r) f)) (λ j h. (
        ap (λ g. g j) e ∙ put_other r j (suc (t.pc r)) t.pc h,
        ap (λ g. g j) f ∙ put_other r j false t.sent h,
      ))

  turn-post :
      (r : ℕ) (t : Net X M K)
      → r < p.size
      → t.pc r < p.rounds
      → t.sent r ≡ false
      → work p (turn p r t) < work p t
  unfolding turn post
  turn-post r t a b c =
      rw (lt→ltb r p.size a, lt→ltb (t.pc r) p.rounds b, c)
        (elim (Option-cases (p.dest (t.pc r) r)) [
          | inl e ↦ rw (e, post) (sending-work r t (started p r t) a c refl refl)
          | inr (d, e) ↦ rw (e, post) (sending-work r t (posted p r d t) a c refl refl)
        ])

  turn-ended :
      (r : ℕ) (t : Net X M K)
      → r < p.size
      → t.pc r < p.rounds
      → t.sent r ≡ true
      → p.source (t.pc r) r ≡ none
      → work p (turn p r t) < work p t
  unfolding turn finish
  turn-ended r t a b c e =
      rw (lt→ltb r p.size a, lt→ltb (t.pc r) p.rounds b, c)
        (rw (e, finish) (ending-work r t (ended p r t) a b refl refl))

  turn-received :
      (r s : ℕ) (m : M) (t : Net X M K)
      → r < p.size
      → t.pc r < p.rounds
      → t.sent r ≡ true
      → p.source (t.pc r) r ≡ some s
      → pick p r (p.key (t.pc r) s) t.mail ≡ some m
      → work p (turn p r t) < work p t
  unfolding turn finish
  turn-received r s m t a b c e f =
      rw (lt→ltb r p.size a, lt→ltb (t.pc r) p.rounds b, c)
        (rw (e, finish, f) (ending-work r t (received p r s m t) a b refl refl))

  -- All ranks have finished.
  pub Finished : Net X M K → Type 0
  Finished t = (r : ℕ) → r < p.size → t.pc r ≡ p.rounds

  -- A rank that is in the round of another has work p that it can do.
  abbrev pub Advance : ℕ → Net X M K → Type 0
  Advance r t = (j : ℕ) × (j < p.size) × (t.pc j ≡ t.pc r) × (work p (turn p j t) < work p t)

  -- Of ranks that are in one round, the one that waits has its message, or the one that it waits for
  -- is to send it.
  waits_no_more :
      (r : ℕ) (t : Net X M K)
      → IsComplete p fit t
      → r < p.size
      → t.pc r < p.rounds
      → ((j : ℕ) → j < p.size → t.pc r ≤ t.pc j)
      → t.sent r ≡ true
      → Advance r t
  waits_no_more r t g a b least c = elim (Option-cases (p.source (t.pc r) r)) [
    | inl e ↦ (r, a, refl, turn-ended r t a b c e)
    | inr (s, e) ↦
        let (cs, d) = fit.waited (t.pc r) r s b a e in
        elim (Bool-cases (t.pc r == t.pc s)) [
          | inr n ↦ there s e cs d (inl (ground (arith, n, least s cs)))
          | inl q ↦
              let level = (==_iff (t.pc r) (t.pc s)).0 q in
              elim (Bool-cases (t.sent s)) [
                | inl y ↦ there s e cs d (inr (level, y))
                | inr y ↦ (s, cs, sym level, turn-post s t cs (omega (arith, level)) y)
              ]
        ]
  ]
    where
      there :
          (s : ℕ)
          → p.source (t.pc r) r ≡ some s
          → s < p.size
          → p.dest (t.pc r) s ≡ some r
          → (t.pc r < t.pc s) ⊎ ((t.pc r ≡ t.pc s) × (t.sent s ≡ true))
          → Advance r t
      there s e cs d h =
          let (m, f) = g.arrives r (t.pc r) s b cs d h (omega arith) in
          (r, a, refl, turn-received r s m t a b c e f)

  pub someone_moves :
      (r : ℕ) (t : Net X M K)
      → IsComplete p fit t
      → r < p.size
      → t.pc r < p.rounds
      → ((j : ℕ) → j < p.size → t.pc r ≤ t.pc j)
      → Advance r t
  someone_moves r t g a b least = elim (Bool-cases (t.sent r)) [
    | inr c ↦ (r, a, refl, turn-post r t a b c)
    | inl c ↦ waits_no_more r t g a b least c
  ]

  -- While a rank is not done, some rank's turn does work.
  advances :
      (t : Net X M K)
      → IsComplete p fit t
      → Finished t ⊎ ((j : ℕ) × (work p (turn p j t) < work p t))
  unfolding Finished
  advances t g = elim (Bool-cases (ltb 0 p.size)) [
    | inr z ↦ inl (λ r h. absurd (ground (arith, z, h)))
    | inl z ↦
        let r = slowest p.size t.pc in
        let a : r < p.size = slowest_in p.size t.pc (ground (arith, z)) in
        elim (Bool-cases (ltb (t.pc r) p.rounds)) [
          | inr n ↦ inl (λ j h. ground (arith, n, slowest-le p.size t.pc j h, g.bounded j))
          | inl y ↦
              let (j, _, _, w) =
                someone_moves r t g a (ground (arith, y)) (λ j h. slowest-le p.size t.pc j h) in
              inr (j, w)
        ]
  ]

  finishes :
      (fuel : ℕ) (t : Net X M K)
      → IsComplete p fit t
      → work p t < fuel
      → (rs : List ℕ) × Finished (run p rs t)
  unfolding run
  finishes zero t g h = elim h [ ]
  finishes (suc fuel) t g h = elim (advances t g) [
    | inl f ↦ ([], f)
    | inr (j, w) ↦
        let (rs, f) =
          finishes fuel (turn p j t) (run-IsComplete p fit (j ∷ []) t g) (omega (arith, w)) in
        (j ∷ rs, f)
  ]

  run-append : (rs more : List ℕ) (t : Net X M K) → run p (rs ++ more) t ≡ run p more (run p rs t)
  unfolding run
  run-append [] more t = refl
  run-append (r ∷ rs) more t = run-append rs more (turn p r t)

  -- Where the ranks fit together, no schedule leads them into a deadlock: each can be carried on until all
  -- ranks have finished, and then every rank holds what it would hold, had all ranks been in step.
  pub run-completes : (init : ℕ → X) (rs : List ℕ) → Ends p init rs (sync p init p.rounds)
  unfolding Finished
  run-completes init rs =
      let t = run p rs (start p init) in
      let (more, f) =
        finishes (suc (work p t)) t
          (run-IsComplete p fit rs (start p init) (start-IsComplete p fit init)) (omega arith) in
      let e = run-append rs more (start p init) in
      (
        more,
        λ r h. (
          ap (λ u. u.pc r) e ∙ f r h,
          run-sync p fit init (rs ++ more) r
              ∙ ap (λ k. sync p init k r) (ap (λ u. u.pc r) e ∙ f r h),
        ),
      )
