-- ===== src/Collective/Lanes/Pumps.antt =====
-- The loops of one rank that launch its chains: when they go on, and that this comes to an end.
use pluvio.Base.{
  ℕ, zero, suc, ◌+◌, ◌-◌, ◌*◌, ◌<◌, ◌≤◌, ◌≡◌, inl, inr, refl, ◌&&◌, ◌||◌, ltb, ◌==◌, ◌≢◌, lt→ltb,
  Bool-cases, arith,
}
use pluvio.Collective.Network.{put}
use pluvio.Collective.Agreement.{put_self, put_other}
use pluvio.Collective.Lanes.{Pipeline, Pipes, arrived, pump}

pub arrived-le : (f : ℕ → ℕ → ℕ) (r bound l : ℕ) → arrived f r bound l ≤ l
unfolding arrived
arrived-le f r bound zero = omega arith
arrived-le f r bound (suc l) = ground (arith, arrived-le f r bound l)

-- All have arrived, and are counted.
pub arrived-all :
    (f : ℕ → ℕ → ℕ) (r bound l : ℕ) → ((m : ℕ) → m < l → bound ≤ f m r) → arrived f r bound l ≡ l
unfolding arrived
arrived-all f r bound zero h = refl
arrived-all f r bound (suc l) h =
    ground (arith, arrived-all f r bound l (λ m a. h m (omega (arith, a))), h l (omega arith))

pub arrived-full :
    (f : ℕ → ℕ → ℕ) (r bound l : ℕ) → arrived f r bound l ≡ l → (m : ℕ) → m < l → bound ≤ f m r
unfolding arrived
arrived-full f r bound zero e m h = elim h [ ]
arrived-full f r bound (suc l) e m h = elim (Bool-cases (m == l)) [
  | inl y ↦ ground (arith, e, y, arrived-le f r bound l)
  | inr y ↦
      arrived-full f r bound l (ground (arith, e, arrived-le f r bound l)) m (ground (arith, y, h))
]

pub arrived_mono :
    (f g : ℕ → ℕ → ℕ) (r bound l : ℕ)
    → ((m : ℕ) → f m r ≤ g m r)
    → arrived f r bound l ≤ arrived g r bound l
unfolding arrived
arrived_mono f g r bound zero h = omega arith
arrived_mono f g r bound (suc l) h = ground (arith, arrived_mono f g r bound l h, h l)

-- The count stays when a chain that is not launched is put to it.
pub arrived-suc : (f : ℕ → ℕ → ℕ) (r bound l : ℕ) → arrived f r bound l ≤ arrived f r bound (suc l)
unfolding arrived
arrived-suc f r bound l = omega arith

module _ {B M K : Type 0} where
  module _ (p : Pipeline B M K) where
    -- What the loops of a rank do.
    pub data Pumped (r : ℕ) (t u : Pipes B M K) : Type 0 where
      rests : u ≡ t → Pumped r t u
      pushes :
          t.stage r < 2
          → t.launched r < p.lanes
          → u ≡ record t { launched = put r (suc (t.launched r)) t.launched }
          → Pumped r t u
      reaps :
          t.stage r < 2
          → t.reaped r < arrived t.pc r (suc (t.stage r) * p.half) (t.launched r)
          → u ≡ record t { reaped = put r (suc (t.reaped r)) t.reaped }
          → Pumped r t u
      ends :
          t.stage r < 2
          → p.lanes ≤ t.launched r
          → t.launched r ≤ t.reaped r
          → u ≡ record t {
            stage = put r (suc (t.stage r)) t.stage;
            launched = put r 0 t.launched;
            reaped = put r 0 t.reaped;
          }
          → Pumped r t u

    -- What the loops of a rank have left to do.
    abbrev pub left : Pipes B M K → ℕ → ℕ
    left t r = (2 - t.stage r) * (2 * p.lanes + 1) - (t.launched r + t.reaped r)

    module _ (r : ℕ) (t : Pipes B M K) (some_limit : 0 < p.limit) where
      abbrev ready : ℕ
      ready = arrived t.pc r (suc (t.stage r) * p.half) (t.launched r)

      pub pump-Pumped : Pumped r t (pump p r t)
      unfolding pump
      pump-Pumped = elim (Bool-cases (ltb (t.stage r) 2)) [
        | inr e ↦ rests (rw (e) refl)
        | inl e ↦
            let l = t.launched r in
            let d = t.reaped r in
            let a : t.stage r < 2 = ground (arith, e) in
            elim (Bool-cases (ltb l p.lanes && (ltb l p.limit || ltb (l - p.limit) d))) [
              | inl f ↦ pushes a (ground (arith, f)) (rw (e, f) refl)
              | inr f ↦ elim (Bool-cases (ltb d l)) [
                | inl g ↦ elim (Bool-cases (ltb d ready)) [
                  | inl h ↦ reaps a (ground (arith, h)) (rw (e, f, g, h) refl)
                  | inr h ↦ rests (rw (e, f, g, h) refl)
                ]
                | inr g ↦
                    ends a (ground (arith, f, g, some_limit)) (ground (arith, g))
                      (rw (e, f, g) refl)
              ]
            ]
      ]

      one_phase :
          t.stage r < 2
          → (2 - t.stage r) * (2 * p.lanes + 1)
            ≡ (2 * p.lanes + 1) + (2 - suc (t.stage r)) * (2 * p.lanes + 1)
      one_phase a = elim (Bool-cases (t.stage r == 0)) [
        | inl e ↦ ground (arith, e)
        | inr e ↦ ground (arith, e, a)
      ]

      -- The loops go on where all that is launched has arrived.
      pub pump-left :
          t.stage r < 2
          → ready ≡ t.launched r
          → t.launched r ≤ p.lanes
          → t.reaped r ≤ t.launched r
          → left (pump p r t) r < left t r
      unfolding pump
      pump-left a e b c =
          let l = t.launched r in
          let d = t.reaped r in
          let w = one_phase a in
          elim (Bool-cases (ltb l p.lanes && (ltb l p.limit || ltb (l - p.limit) d))) [
            | inl f ↦
                rw (lt→ltb (t.stage r) 2 a, f, put_self r (suc l) t.launched)
                  (ground (arith, w, f, c))
            | inr f ↦ elim (Bool-cases (ltb d l)) [
              | inl g ↦
                  rw
                    (
                      lt→ltb (t.stage r) 2 a,
                      f,
                      g,
                      lt→ltb d ready (ground (arith, g, e)),
                      put_self r (suc d) t.reaped,
                    )
                    (ground (arith, w, g, b))
              | inr g ↦
                  rw
                    (
                      lt→ltb (t.stage r) 2 a,
                      f,
                      g,
                      put_self r 0 t.reaped,
                      put_self r 0 t.launched,
                      put_self r (suc (t.stage r)) t.stage,
                    )
                    (ground (arith, w, g, b, c))
            ]
          ]

    -- They touch nothing of another rank.
    pub Pumped-elsewhere :
        (r j : ℕ) (t u : Pipes B M K) → Pumped r t u → j ≢ r → left u j ≡ left t j
    Pumped-elsewhere r j t u (rests e) h = rw (e) refl
    Pumped-elsewhere r j t u (pushes a b e) h =
        rw (e, put_other r j (suc (t.launched r)) t.launched h) refl
    Pumped-elsewhere r j t u (reaps a b e) h =
        rw (e, put_other r j (suc (t.reaped r)) t.reaped h) refl
    Pumped-elsewhere r j t u (ends a b c e) h =
        rw
          (
            e,
            put_other r j (suc (t.stage r)) t.stage h,
            put_other r j 0 t.launched h,
            put_other r j 0 t.reaped h,
          )
          refl
