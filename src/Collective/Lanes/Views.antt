-- ===== src/Collective/Lanes/Views.antt =====
-- Chains that share a buffer, each seen alone: what it holds of the buffer, and its letters. So seen a chain
-- is a program on a network of its own.
use pluvio.Base.{
  ℕ, ◌+◌, ◌<◌, ◌≡◌, inl, inr, refl, subst, Bool, true, false, ◌&&◌, none, some, List, [], ◌∷◌, ◌++◌,
  ltb, ◌==◌, if◌then◌else◌, Bool-cases, arith,
}
use pluvio.Collective.Network.{Protocol, Letter, Net, addressed, pick, discard, post, finish, turn}
use pluvio.Collective.Turns.{started, posted, ended, received}
use pluvio.Collective.Lanes.{Pipeline}

-- Networks are equal part by part.
pub net_ext :
    {X M K : Type 0} (t u : Net X M K)
    → ((r : ℕ) → t.held r ≡ u.held r)
    → t.pc ≡ u.pc
    → t.sent ≡ u.sent
    → t.mail ≡ u.mail
    → t ≡ u
net_ext t u a b c d = λ i. record { held = λ r. a r i; pc = b i; sent = c i; mail = d i }

-- A turn, case by case.
module _ {X M K : Type 0} (p : Protocol X M K) (r : ℕ) (t : Net X M K) where
  abbrev pub able : Bool
  able = ltb r p.size && ltb (t.pc r) p.rounds

  pub turn_idle : able ≡ false → turn p r t ≡ t
  unfolding turn
  turn_idle e = rw (e) refl

  pub turn_silent :
      able ≡ true → t.sent r ≡ false → p.dest (t.pc r) r ≡ none → turn p r t ≡ started p r t
  unfolding turn post
  turn_silent e f g = rw (e, f) (rw (g, post) refl)

  pub turn_sends :
      (d : ℕ)
      → able ≡ true
      → t.sent r ≡ false
      → p.dest (t.pc r) r ≡ some d
      → turn p r t ≡ posted p r d t
  unfolding turn post
  turn_sends d e f g = rw (e, f) (rw (g, post) refl)

  pub turn_passes :
      able ≡ true → t.sent r ≡ true → p.source (t.pc r) r ≡ none → turn p r t ≡ ended p r t
  unfolding turn finish
  turn_passes e f g = rw (e, f) (rw (g, finish) refl)

  pub turn_waits :
      (s : ℕ)
      → able ≡ true
      → t.sent r ≡ true
      → p.source (t.pc r) r ≡ some s
      → pick p r (p.key (t.pc r) s) t.mail ≡ none
      → turn p r t ≡ t
  unfolding turn finish
  turn_waits s e f g h = rw (e, f) (rw (g, finish, h) refl)

  pub turn_takes :
      (s : ℕ) (m : M)
      → able ≡ true
      → t.sent r ≡ true
      → p.source (t.pc r) r ≡ some s
      → pick p r (p.key (t.pc r) s) t.mail ≡ some m
      → turn p r t ≡ received p r s m t
  unfolding turn finish
  turn_takes s m e f g h = rw (e, f) (rw (g, finish, h) refl)

-- A chain by itself: what it sends of its view, and what it makes of its view.
unfoldable pub alone :
    {B X M K : Type 0}
    → Pipeline B M K
    → (send : ℕ → ℕ → ℕ → X → M) → (take : ℕ → ℕ → ℕ → X → M → X) → ℕ
    → Protocol X M K
alone p send take m =
    let c = p.lane m in
    record {
      size = c.size;
      rounds = c.rounds;
      dest = c.dest;
      source = c.source;
      key = c.key;
      same = c.same;
      payload = send m;
      absorb = take m;
    }

-- The chains' shares of a buffer are apart; `Good` buffers and `Fine` messages have the right lengths.
pub record Shares {B X M K : Type 0} (p : Pipeline B M K) (send : ℕ → ℕ → ℕ → X → M)
    (take : ℕ → ℕ → ℕ → X → M → X) (view : ℕ → B → X) (lane_of : K → ℕ) (Good : B → Type 0)
    (Fine : M → Type 0) : Type 1 where
  pub sends_view :
      (m k r : ℕ) (b : B)
      → m < p.lanes
      → r < p.ranks
      → k < p.half + p.half
      → Good b
      → ((p.lane m).payload k r b ≡ send m k r (view m b)) × Fine ((p.lane m).payload k r b)
  pub takes_view :
      (m k r : ℕ) (b : B) (x : M)
      → m < p.lanes
      → r < p.ranks
      → k < p.half + p.half
      → Good b
      → Fine x
      → Good ((p.lane m).absorb k r b x)
        × ((j : ℕ)
            → j < p.lanes
            → view j ((p.lane m).absorb k r b x)
              ≡ (if j == m then take m k r (view j b) x else view j b))
  pub known :
      (l : K) (m k r : ℕ)
      → m < p.lanes
      → (p.lane m).same l ((p.lane m).key k r) ≡ true
      → lane_of l ≡ m
  pub named : (m k r : ℕ) → m < p.lanes → lane_of ((p.lane m).key k r) ≡ m
  pub shape : (m : ℕ) → ((p.lane m).size ≡ p.ranks) × ((p.lane m).rounds ≡ p.half + p.half)

-- All letters carry what they may.
unfoldable pub AllFine : {M K : Type 0} → (M → Type 0) → List (Letter M K) → Type 0
AllFine Fine [] = Unit
AllFine Fine (l ∷ ls) = Fine l.content × AllFine Fine ls

module _ {X M K : Type 0} (p : Protocol X M K) (Fine : M → Type 0) where
  pub AllFine-append :
      (ls : List (Letter M K)) (l : Letter M K)
      → AllFine Fine ls
      → Fine l.content
      → AllFine Fine (ls ++ l ∷ [])
  unfolding AllFine
  AllFine-append [] l h k = (k, tt)
  AllFine-append (x ∷ ls) l (a, h) k = (a, AllFine-append ls l h k)

  pub AllFine-discard :
      (r : ℕ) (q : K) (ls : List (Letter M K)) → AllFine Fine ls → AllFine Fine (discard p r q ls)
  unfolding AllFine
  AllFine-discard r q [] h = tt
  AllFine-discard r q (l ∷ ls) (a, h) = elim (Bool-cases (addressed p r q l)) [
    | inl e ↦ rw (e) h
    | inr e ↦ rw (e) (a, AllFine-discard r q ls h)
  ]

  pub pick-fine :
      (r : ℕ) (q : K) (ls : List (Letter M K)) (m : M)
      → AllFine Fine ls
      → pick p r q ls ≡ some m
      → Fine m
  unfolding AllFine
  pick-fine r q [] m h e = absurd (ground (arith, e))
  pick-fine r q (l ∷ ls) m (a, h) e = elim (Bool-cases (addressed p r q l)) [
    | inl y ↦ subst Fine {x = l.content} {y = m} (ground (arith, e, y)) a
    | inr n ↦ pick-fine r q ls m h (ground (arith, e, n))
  ]
