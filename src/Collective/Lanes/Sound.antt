-- ===== src/Collective/Lanes/Sound.antt =====
-- What holds of all chains and loops, whatever the order of their moves.
use pluvio.Base.{
  ℕ, suc, ◌*◌, ◌<◌, ◌≤◌, ◌≡◌, inl, inr, refl, sym, ap, subst, ◌&&◌, List, [], ◌∷◌, ltb, ◌==◌,
  ==_iff, Bool-cases, arith,
}
use pluvio.Collective.Network.{Protocol, Net, IsMatched, put, turn, sync, start}
use pluvio.Collective.Turns.{Turn, idle, silent, sends, passes, takes, turn-Turn}
use pluvio.Collective.Agreement.{put_each, Agrees, AllHonest, Turn-Agrees}
use pluvio.Collective.Progress.{IsComplete, Turn-IsComplete, start-IsComplete}
use pluvio.Collective.Lanes.{
  Pipeline, Pipes, Move, loops, moves, net, set_net, arrived, chain_turn, pump, move, operate, fill,
}
use pluvio.Collective.Lanes.Letters.{mail_of}
use pluvio.Collective.Lanes.Views.{alone, Shares, AllFine}
use pluvio.Collective.Lanes.Seen.{seen, IsSized, Moved, turn-Moved}
use pluvio.Collective.Lanes.Pumps.{
  arrived_mono, arrived-suc, arrived-full, arrived-le, Pumped, rests, pushes, reaps, ends,
  pump-Pumped,
}

-- Nobody goes back.
later : (r j : ℕ) (f : ℕ → ℕ) → f j ≤ put r (suc (f r)) f j
later r j f = elim (Bool-cases (j == r)) [
  | inl e ↦ rw (e, (==_iff j r).0 e) (omega arith)
  | inr e ↦ rw (e) (omega arith)
]

Turn-pc :
    {X M K : Type 0} (p : Protocol X M K) (r j : ℕ) (t u : Net X M K)
    → Turn p r t u
    → t.pc j ≤ u.pc j
Turn-pc p r j t u (idle e) = omega (arith, ap (λ u. u.pc j) e)
Turn-pc p r j t u (silent a b c e) = omega (arith, ap (λ u. u.pc j) e)
Turn-pc p r j t u (sends d a b c e) = omega (arith, ap (λ u. u.pc j) e)
Turn-pc p r j t u (passes a b c n e) = omega (arith, ap (λ u. u.pc j) e, later r j t.pc)
Turn-pc p r j t u (takes s m a b c n f e) = omega (arith, ap (λ u. u.pc j) e, later r j t.pc)

set_net-pc :
    {B M K : Type 0} (p : Protocol B M K) (m r : ℕ) (t : Pipes B M K) (l j : ℕ)
    → t.pc l j ≤ (set_net m (turn p r (net m t)) t).pc l j
set_net-pc p m r t l j = elim (Bool-cases (l == m)) [
  | inl e ↦
      rw (e, (==_iff l m).0 e)
        (Turn-pc p r j (net m t) (turn p r (net m t)) (turn-Turn p r (net m t)))
  | inr e ↦ rw (e) (omega arith)
]

module _ {B X M K : Type 0} {p : Pipeline B M K} {send : ℕ → ℕ → ℕ → X → M}
    {take : ℕ → ℕ → ℕ → X → M → X} {view : ℕ → B → X} {lane_of : K → ℕ} {Good : B → Type 0}
    {Fine : M → Type 0} (apart : Shares p send take view lane_of Good Fine)
    (fit : (m : ℕ) → m < p.lanes → IsMatched (alone p send take m)) (init : ℕ → B)
    (limited : 0 < p.limit) where
  abbrev pub begins : ℕ → ℕ → X
  begins m r = view m (init r)

  pub record IsSound (t : Pipes B M K) : Type 0 where
    pub agree :
        (m : ℕ) (h : m < p.lanes)
        → Agrees (alone p send take m) (fit m h) (begins m) (seen apart m t)
    pub moving :
        (m : ℕ) (h : m < p.lanes) → IsComplete (alone p send take m) (fit m h) (seen apart m t)
    pub sized : IsSized apart t
    pub staged : (r : ℕ) → t.stage r ≤ 2
    pub bounded : (r : ℕ) → t.launched r ≤ p.lanes
    pub counted : (r : ℕ) → t.reaped r ≤ arrived t.pc r (suc (t.stage r) * p.half) (t.launched r)
    pub past : (m r : ℕ) → m < p.lanes → t.stage r * p.half ≤ t.pc m r

  -- A chain's turn, seen by all chains.
  each :
      (P : (j : ℕ) → j < p.lanes → Net X M K → Type 0) (m r : ℕ) (t : Pipes B M K) (h : m < p.lanes)
      (good : IsSized apart t)
      → ((b : m < p.lanes) → P m b (turn (alone p send take m) r (seen apart m t)))
      → ((j : ℕ) (b : j < p.lanes) → P j b (seen apart j t))
      → (j : ℕ) (b : j < p.lanes) → P j b (seen apart j (set_net m (turn (p.lane m) r (net m t)) t))
  each P m r t h good here all j = elim (Bool-cases (j == m)) [
    | inl y ↦
        subst
          (λ j.
            (b : j < p.lanes) → P j b (seen apart j (set_net m (turn (p.lane m) r (net m t)) t)))
          (sym ((==_iff j m).0 y)) (λ b. subst (P m b) (sym v.own) (here b))
    | inr n ↦ λ b. subst (P j b) (sym (v.others j b (ground (arith, n)))) (all j b)
  ]
    where
      v : Moved apart m r t h good (turn (p.lane m) r (net m t))
      v = turn-Moved apart m r t h good

  moved-IsSound :
      (r m : ℕ) (t : Pipes B M K)
      → IsSound t
      → m < t.launched r
      → IsSound (set_net m (turn (p.lane m) r (net m t)) t)
  moved-IsSound r m t g a =
      let h : m < p.lanes = omega (arith, a, g.bounded r) in
      let turned = turn-Turn (alone p send take m) r (seen apart m t) in
      let u = turn (alone p send take m) r (seen apart m t) in
      record {
        agree =
            each (λ j b. Agrees (alone p send take j) (fit j b) (begins j)) m r t h g.sized
              (λ b.
                Turn-Agrees (alone p send take m) (fit m b) (begins m) r (seen apart m t) u turned
                  (g.agree m b))
              g.agree;
        moving =
            each (λ j b. IsComplete (alone p send take j) (fit j b)) m r t h g.sized
              (λ b.
                Turn-IsComplete (alone p send take m) (fit m b) r (seen apart m t) u turned
                  (g.moving m b))
              g.moving;
        sized = (turn-Moved apart m r t h g.sized).sized;
        staged = g.staged;
        bounded = g.bounded;
        counted = λ j. omega (
          arith,
          g.counted j,
          arrived_mono t.pc (set_net m (turn (p.lane m) r (net m t)) t).pc j
              (suc (t.stage j) * p.half) (t.launched j) (λ l. set_net-pc (p.lane m) m r t l j),
        );
        past = λ l j b. omega (arith, g.past l j b, set_net-pc (p.lane m) m r t l j);
      }

  chain_turn-IsSound : (r m : ℕ) (t : Pipes B M K) → IsSound t → IsSound (chain_turn p r m t)
  unfolding chain_turn
  chain_turn-IsSound r m t g =
      elim (Bool-cases
        (ltb (t.stage r) 2 && ltb m (t.launched r) && ltb (t.pc m r) (suc (t.stage r) * p.half))) [
          | inr e ↦ rw (e) g
          | inl e ↦ rw (e) (moved-IsSound r m t g (ground (arith, e)))
        ]

  -- Where the loops end a phase, all chains of the rank have.
  all_past :
      (r : ℕ) (t : Pipes B M K)
      → IsSound t
      → p.lanes ≤ t.launched r
      → t.launched r ≤ t.reaped r
      → (m : ℕ) → m < p.lanes
      → suc (t.stage r) * p.half ≤ t.pc m r
  all_past r t g b c m h =
      let n = suc (t.stage r) * p.half in
      let e : arrived t.pc r n (t.launched r) ≡ t.launched r =
        omega (arith, c, g.counted r, arrived-le t.pc r n (t.launched r)) in
      arrived-full t.pc r n (t.launched r) e m (omega (arith, h, b))

  Pumped-IsSound : (r : ℕ) (t u : Pipes B M K) → Pumped p r t u → IsSound t → IsSound u
  Pumped-IsSound r t u (rests e) g = subst IsSound (sym e) g
  Pumped-IsSound r t u (pushes a b e) g = subst IsSound (sym e) (record {
    agree = g.agree;
    moving = g.moving;
    sized = record { buffers = g.sized.buffers; letters = g.sized.letters };
    staged = g.staged;
    bounded =
        put_each (λ j l. l ≤ p.lanes) r (suc (t.launched r)) t.launched (omega (arith, b))
          g.bounded;
    counted =
        put_each (λ j l. t.reaped j ≤ arrived t.pc j (suc (t.stage j) * p.half) l) r
          (suc (t.launched r)) t.launched
          (omega (arith, g.counted r, arrived-suc t.pc r (suc (t.stage r) * p.half) (t.launched r)))
          g.counted;
    past = g.past;
  })
  Pumped-IsSound r t u (reaps a b e) g = subst IsSound (sym e) (record {
    agree = g.agree;
    moving = g.moving;
    sized = record { buffers = g.sized.buffers; letters = g.sized.letters };
    staged = g.staged;
    bounded = g.bounded;
    counted =
        put_each (λ j d. d ≤ arrived t.pc j (suc (t.stage j) * p.half) (t.launched j)) r
          (suc (t.reaped r)) t.reaped (omega (arith, b)) g.counted;
    past = g.past;
  })
  Pumped-IsSound r t u (ends a b c e) g = subst IsSound (sym e) (record {
    agree = g.agree;
    moving = g.moving;
    sized = record { buffers = g.sized.buffers; letters = g.sized.letters };
    staged = put_each (λ j s. s ≤ 2) r (suc (t.stage r)) t.stage (omega (arith, a)) g.staged;
    bounded = put_each (λ j l. l ≤ p.lanes) r 0 t.launched (omega arith) g.bounded;
    counted = λ j. elim (Bool-cases (j == r)) [
      | inl y ↦ rw (y) (omega arith)
      | inr n ↦ rw (n) (g.counted j)
    ];
    past = λ m j h.
        put_each (λ j s. s * p.half ≤ t.pc m j) r (suc (t.stage r)) t.stage (all_past r t g b c m h)
          (λ j. g.past m j h) j;
  })

  move-IsSound : (e : Move) (t : Pipes B M K) → IsSound t → IsSound (move p e t)
  unfolding move
  move-IsSound (loops r) t g = Pumped-IsSound r t (pump p r t) (pump-Pumped p r t limited) g
  move-IsSound (moves r m) t g = chain_turn-IsSound r m t g

  pub operate-IsSound : (es : List Move) (t : Pipes B M K) → IsSound t → IsSound (operate p es t)
  unfolding operate
  operate-IsSound [] t g = g
  operate-IsSound (e ∷ es) t g = operate-IsSound es (move p e t) (move-IsSound e t g)

  pub fill-IsSound : ((r : ℕ) → r < p.ranks → Good (init r)) → IsSound (fill p init)
  unfolding fill AllFine AllHonest mail_of start sync
  fill-IsSound h = record {
    agree = λ m a. record { state = λ r. refl; honest = tt };
    moving = λ m a. start-IsComplete (alone p send take m) (fit m a) (begins m);
    sized = record { buffers = h; letters = tt };
    staged = λ r. omega arith;
    bounded = λ r. omega arith;
    counted = λ r. omega arith;
    past = λ m r a. omega arith;
  }
