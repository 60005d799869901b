-- ===== src/Collective/Lanes/Progress.antt =====
-- No order of the moves leads the chains and the loops that launch them into a deadlock.
use pluvio.Base.{ℕ, suc, ◌+◌, ◌*◌, ◌<◌, ◌≤◌, ◌≡◌, ap, ap₂, lt→ltb, arith}
use pluvio.Collective.Network.{IsMatched, turn}
use pluvio.Collective.Agreement.{put_other}
use pluvio.Collective.Completion.{sum_to, sum_to-lt, work}
use pluvio.Collective.Lanes.{
  Pipeline, Pipes, Move, loops, moves, net, set_net, chain_turn, pump, move,
}
use pluvio.Collective.Lanes.Views.{alone, Shares}
use pluvio.Collective.Lanes.Seen.{seen, turn-Moved}
use pluvio.Collective.Lanes.Pumps.{
  arrived-all, Pumped, rests, pushes, reaps, ends, pump-Pumped, left, pump-left, Pumped-elsewhere,
}
use pluvio.Collective.Lanes.Sound.{IsSound}

Pumped-pc :
    {B M K : Type 0} (p : Pipeline B M K) (r : ℕ) (t u : Pipes B M K)
    → Pumped p r t u
    → (u.pc ≡ t.pc) × (u.sent ≡ t.sent)
Pumped-pc p r t u (rests e) = (ap (λ u. u.pc) e, ap (λ u. u.sent) e)
Pumped-pc p r t u (pushes a b e) = (ap (λ u. u.pc) e, ap (λ u. u.sent) e)
Pumped-pc p r t u (reaps a b e) = (ap (λ u. u.pc) e, ap (λ u. u.sent) e)
Pumped-pc p r t u (ends a b c e) = (ap (λ u. u.pc) e, ap (λ u. u.sent) e)

module _ {B X M K : Type 0} {p : Pipeline B M K} {send : ℕ → ℕ → ℕ → X → M}
    {take : ℕ → ℕ → ℕ → X → M → X} {view : ℕ → B → X} {lane_of : K → ℕ} {Good : B → Type 0}
    {Fine : M → Type 0} (apart : Shares p send take view lane_of Good Fine)
    (fit : (m : ℕ) → m < p.lanes → IsMatched (alone p send take m)) (init : ℕ → B)
    (limited : 0 < p.limit) where
  abbrev load : Pipes B M K → ℕ → ℕ
  load t m = work (alone p send take m) (seen apart m t)

  -- What all have left to do.
  abbrev pub total_work : Pipes B M K → ℕ
  total_work t = sum_to p.lanes (load t) + sum_to p.ranks (left p t)

  load_same :
      (t u : Pipes B M K) (m : ℕ) → u.pc m ≡ t.pc m → u.sent m ≡ t.sent m → load u m ≡ load t m
  load_same t u m a b =
      ap₂ (λ pc sent. work (alone p send take m) (record (seen apart m t) { pc = pc; sent = sent }))
        a b

  abbrev pub Advances : Pipes B M K → Type 0
  Advances t = (e : Move) × (total_work (move p e t) < total_work t)

  -- The loops of a rank go on where all that it launched has arrived.
  pub loops-Advances :
      (r : ℕ) (t : Pipes B M K)
      → IsSound apart fit init limited t
      → r < p.ranks
      → t.stage r < 2
      → ((m : ℕ) → m < t.launched r → suc (t.stage r) * p.half ≤ t.pc m r)
      → Advances t
  unfolding move
  loops-Advances r t g a s all =
      let u = pump p r t in
      let e = arrived-all t.pc r (suc (t.stage r) * p.half) (t.launched r) all in
      let (pc, sent) = Pumped-pc p r t u (pump-Pumped p r t limited) in
      let same : sum_to p.lanes (load u) ≡ sum_to p.lanes (load t) =
        ap (sum_to p.lanes) (λ i m. load_same t u m (ap (λ f. f m) pc) (ap (λ f. f m) sent) i) in
      let less : sum_to p.ranks (left p u) < sum_to p.ranks (left p t) =
        sum_to-lt p.ranks (left p t) (left p u) r a
          (pump-left p r t limited s e (g.bounded r) (omega (arith, e, g.counted r)))
          (λ j h. Pumped-elsewhere p r j t u (pump-Pumped p r t limited) h) in
      (loops r, omega (arith, same, less))

  -- A chain that may move and has work to do.
  pub chain-Advances :
      (r m : ℕ) (t : Pipes B M K)
      → IsSound apart fit init limited t
      → m < p.lanes
      → t.stage r < 2
      → m < t.launched r
      → t.pc m r < suc (t.stage r) * p.half
      → work (alone p send take m) (turn (alone p send take m) r (seen apart m t)) < load t m
      → Advances t
  unfolding move chain_turn
  chain-Advances r m t g a s l b w =
      let u = set_net m (turn (p.lane m) r (net m t)) t in
      let now : load u m
          ≡ work (alone p send take m) (turn (alone p send take m) r (seen apart m t)) =
        ap (work (alone p send take m)) (turn-Moved apart m r t a g.sized).own in
      let less : sum_to p.lanes (load u) < sum_to p.lanes (load t) =
        sum_to-lt p.lanes (load t) (load u) m a (omega (arith, now, w)) (λ j h.
          load_same t u j (put_other m j (turn (p.lane m) r (net m t)).pc t.pc h)
            (put_other m j (turn (p.lane m) r (net m t)).sent t.sent h)) in
      (
        moves r m,
        rw
            (
              lt→ltb (t.stage r) 2 s,
              lt→ltb m (t.launched r) l,
              lt→ltb (t.pc m r) (suc (t.stage r) * p.half) b,
            )
            (omega (arith, less)),
      )
