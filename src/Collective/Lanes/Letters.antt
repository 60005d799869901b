-- ===== src/Collective/Lanes/Letters.antt =====
-- The letters of one chain in the mail that all chains share.
use pluvio.Base.{
  ℕ, ◌≡◌, ◌≢◌, inl, inr, refl, ap, true, false, List, [], ◌∷◌, ◌++◌, ◌==◌, ==_iff, if◌then◌else◌,
  Bool-cases, arith,
}
use pluvio.Collective.Network.{Protocol, Letter, addressed, pick, discard}

-- `lane_of` tells the chain of a key.
module _ {M K : Type 0} (lane_of : K → ℕ) where
  unfoldable pub mail_of : ℕ → List (Letter M K) → List (Letter M K)
  mail_of m [] = []
  mail_of m (l ∷ ls) = (let rest = mail_of m ls in if lane_of l.label == m then l ∷ rest else rest)

  pub mail_of-append_own :
      (m : ℕ) (ls : List (Letter M K)) (l : Letter M K)
      → lane_of l.label ≡ m
      → mail_of m (ls ++ l ∷ []) ≡ mail_of m ls ++ l ∷ []
  unfolding mail_of
  mail_of-append_own m [] l h = ground (arith, h)
  mail_of-append_own m (x ∷ ls) l h = elim (Bool-cases (lane_of x.label == m)) [
    | inl e ↦ rw (e) (ap (◌∷◌ x) (mail_of-append_own m ls l h))
    | inr e ↦ rw (e) (mail_of-append_own m ls l h)
  ]

  pub mail_of-append_other :
      (m : ℕ) (ls : List (Letter M K)) (l : Letter M K)
      → lane_of l.label ≢ m
      → mail_of m (ls ++ l ∷ []) ≡ mail_of m ls
  unfolding mail_of
  mail_of-append_other m [] l h = ground (arith, h)
  mail_of-append_other m (x ∷ ls) l h = elim (Bool-cases (lane_of x.label == m)) [
    | inl e ↦ rw (e) (ap (◌∷◌ x) (mail_of-append_other m ls l h))
    | inr e ↦ rw (e) (mail_of-append_other m ls l h)
  ]

  module _ {X : Type 0} (p : Protocol X M K) (m r : ℕ) (q : K)
      (known : (l : Letter M K) → addressed p r q l ≡ true → lane_of l.label ≡ m) where
    -- A chain finds the same letter among all and among its own.
    pub pick-mail_of : (ls : List (Letter M K)) → pick p r q (mail_of m ls) ≡ pick p r q ls
    unfolding mail_of
    pick-mail_of [] = refl
    pick-mail_of (l ∷ ls) = elim (Bool-cases (lane_of l.label == m)) [
      | inl e ↦ rw (e) (elim (Bool-cases (addressed p r q l)) [
        | inl y ↦ rw (y) refl
        | inr y ↦ rw (y) (pick-mail_of ls)
      ])
      | inr e ↦ rw (e) (elim (Bool-cases (addressed p r q l)) [
        | inl y ↦ absurd (ground (arith, e, known l y))
        | inr y ↦ rw (y) (pick-mail_of ls)
      ])
    ]

    pub mail_of-discard :
        (ls : List (Letter M K)) → mail_of m (discard p r q ls) ≡ discard p r q (mail_of m ls)
    unfolding mail_of
    mail_of-discard [] = refl
    mail_of-discard (l ∷ ls) = elim (Bool-cases (addressed p r q l)) [
      | inl y ↦
          let e : (lane_of l.label == m) ≡ true = (==_iff (lane_of l.label) m).1 (known l y) in
          rw (y, e) (rw (y) refl)
      | inr y ↦ rw (y) (elim (Bool-cases (lane_of l.label == m)) [
        | inl e ↦ rw (e) (rw (y) (ap (◌∷◌ l) (mail_of-discard ls)))
        | inr e ↦ rw (e) (mail_of-discard ls)
      ])
    ]

    pub mail_of-discard_other :
        (j : ℕ) (ls : List (Letter M K)) → j ≢ m → mail_of j (discard p r q ls) ≡ mail_of j ls
    unfolding mail_of
    mail_of-discard_other j [] h = refl
    mail_of-discard_other j (l ∷ ls) h = elim (Bool-cases (addressed p r q l)) [
      | inl y ↦
          let e : (lane_of l.label == j) ≡ false = ground (arith, h, known l y) in rw (y, e) refl
      | inr y ↦ rw (y) (elim (Bool-cases (lane_of l.label == j)) [
        | inl e ↦ rw (e) (ap (◌∷◌ l) (mail_of-discard_other j ls h))
        | inr e ↦ rw (e) (mail_of-discard_other j ls h)
      ])
    ]
