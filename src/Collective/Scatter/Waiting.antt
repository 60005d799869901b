-- ===== src/Collective/Scatter/Waiting.antt =====
-- What becomes of a scatter's ranks whose root takes no part.
use pluvio.Base.{ℕ, suc, ◌≤◌, ◌≡◌, ◌≢◌, refl, sym, ap, subst, ◌∙◌, none, some, List, [], ◌∷◌, arith}
use pluvio.AmRouter.Header.{RecvKey}
use pluvio.Collective.Network.{Protocol, Letter, Net, pick, turn, run, start}
use pluvio.Collective.Turns.{Turn, idle, silent, sends, passes, takes, turn-Turn}
use pluvio.Collective.Agreement.{put_each}
use pluvio.Collective.Scatter.{Parts, recipient, awaited, fan_out}

-- All turns are those of other ranks.
unfoldable pub AllOthers : ℕ → List ℕ → Type 0
AllOthers root [] = Unit
AllOthers root (r ∷ rs) = (r ≢ root) × AllOthers root rs

nothing :
    {X M K : Type 0} (p : Protocol X M K) (r : ℕ) (k : K) (ls : List (Letter M K)) (m : M)
    → ls ≡ []
    → pick p r k ls ≡ some m
    → none ≡ some m
nothing p r k ls m z y = ap (pick p r k) (sym z) ∙ y

module _ {T : Type 0} (n root chunk : ℕ) where
  -- While the root sends nothing, no message is there, and a rank has not come past its round.
  record Waits (t : Net (Parts T) (List T) RecvKey) : Type 0 where
    empty : t.mail ≡ []
    early : (r : ℕ) → r ≢ root → t.pc r ≤ r

  Turn-Waits :
      (r : ℕ) (t u : Net (Parts T) (List T) RecvKey)
      → r ≢ root
      → Turn (fan_out n root chunk) r t u
      → Waits t
      → Waits u
  unfolding fan_out awaited recipient
  Turn-Waits r t u h (idle e) g = subst Waits (sym e) g
  Turn-Waits r t u h (silent a b c e) g =
      subst Waits (sym e) (record { empty = g.empty; early = g.early })
  Turn-Waits r t u h (sends d a b c e) g = absurd (ground (arith, h, c))
  Turn-Waits r t u h (passes a b c f e) g = subst Waits (sym e) (record {
    empty = g.empty;
    early =
        put_each (λ j k. j ≢ root → k ≤ j) r (suc (t.pc r)) t.pc
          (λ z. ground (arith, f, z, g.early r z)) g.early;
  })
  Turn-Waits r t u h (takes s m a b c f q e) g = absurd (
      ground (
        arith,
        nothing (fan_out n root chunk) r ((fan_out n root chunk).key (t.pc r) s) t.mail m g.empty q,
      ))

  run-Waits :
      (rs : List ℕ) (t : Net (Parts T) (List T) RecvKey)
      → AllOthers root rs
      → Waits t
      → Waits (run (fan_out n root chunk) rs t)
  unfolding run AllOthers
  run-Waits [] t h g = g
  run-Waits (r ∷ rs) t (a, h) g =
      let f = fan_out n root chunk in
      run-Waits rs (turn f r t) h (Turn-Waits r t (turn f r t) a (turn-Turn f r t) g)

  -- Where the root takes no turn, as one whose call was refused does not, no other rank comes past the
  -- round in which it waits, however long the others go on.
  pub scatter-waits :
      (init : ℕ → Parts T) (rs : List ℕ)
      → AllOthers root rs
      → (r : ℕ) → r ≢ root
      → (run (fan_out n root chunk) rs (start (fan_out n root chunk) init)).pc r ≤ r
  unfolding start
  scatter-waits init rs h r a =
      (run-Waits rs (start (fan_out n root chunk) init) h
          (record { empty = refl; early = λ j b. omega arith })).early
        r a
