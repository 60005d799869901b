-- ===== src/Uring/Balance.antt =====
-- The completions that the reactor waits for are the entries that the ring has not given back.
use pluvio.Base.{
  ℕ, suc, ◌+◌, ◌^◌, ◌<◌, ◌≡◌, ◌≢◌, refl, sym, ap, subst, inl, inr, true, false, some, List, [], ◌∷◌,
  ◌++◌, length, ◌==◌, ==_iff, Bool-cases, arith,
}
use pluvio.Uring.{ℤ, Ring, IoUringReactor, holds, remove}

-- Entries of the completion queue, each of an operation that is under way, lead from the operations `us` to `vs`.
unfoldable pub Drains : List (ℕ × ℤ) → List ℕ → List ℕ → Type 0
Drains [] us vs = us ≡ vs
Drains ((u, x) ∷ cs) us vs = (holds u us ≡ true) × Drains cs (remove u us) vs

-- What the io_uring crate documents: an entry that is pushed is under way until its completion is taken
-- from the queue, once, under its `user_data`; a submission that succeeds leaves it so.
pub record Laws {W : Type 0} (r : Ring W) (under_way : W → List ℕ) : Type 0 where
  pub pushed : (u : ℕ) (w v : W) → r.push u w ≡ some v → under_way v ≡ under_way w ++ u ∷ []
  pub submit_keeps : (w v : W) → r.submit w ≡ some v → under_way v ≡ under_way w
  pub sync_keeps : (w : W) → under_way (r.sync w) ≡ under_way w
  pub wait_keeps : (n : ℕ) (w v : W) → r.submit_and_wait n w ≡ some v → under_way v ≡ under_way w
  pub drained : (w : W) → let (cs, v) = r.completion w in Drains cs (under_way w) (under_way v)

unfoldable pub AllBelow : ℕ → List ℕ → Type 0
AllBelow n [] = Unit
AllBelow n (u ∷ us) = (u < n) × AllBelow n us

unfoldable pub Distinct : List ℕ → Type 0
Distinct [] = Unit
Distinct (u ∷ us) = (holds u us ≡ false) × Distinct us

-- No `user_data` is used twice, and the counts differ by what is under way.
pub record IsBalanced {W : Type 0} (under_way : W → List ℕ) (s : IoUringReactor W) : Type 0 where
  pub tracked : s.completions ≡ under_way s.ring
  pub counted : s.completed_count + length s.completions ≡ s.user_data_counter
  pub below : AllBelow s.user_data_counter s.completions
  pub distinct : Distinct s.completions
  pub word : s.user_data_counter < 2 ^ 64

pub unused_key : (n : ℕ) (us : List ℕ) → AllBelow n us → holds n us ≡ false
unfolding AllBelow
unused_key n [] h = refl
unused_key n (u ∷ us) (a, h) = ground (arith, a, unused_key n us h)

pub below-append : (n : ℕ) (us : List ℕ) → AllBelow n us → AllBelow (n + 1) (us ++ n ∷ [])
unfolding AllBelow
below-append n [] h = (omega arith, tt)
below-append n (u ∷ us) (a, h) = (omega (arith, a), below-append n us h)

holds-append : (u n : ℕ) (us : List ℕ) → holds u us ≡ false → u ≢ n → holds u (us ++ n ∷ []) ≡ false
holds-append u n [] h e = ground (arith, e)
holds-append u n (v ∷ us) h e = elim (Bool-cases (u == v)) [
  | inl y ↦ absurd (ground (arith, y, h))
  | inr y ↦ rw (y) (holds-append u n us (ground (arith, y, h)) e)
]

pub distinct-append : (n : ℕ) (us : List ℕ) → AllBelow n us → Distinct us → Distinct (us ++ n ∷ [])
unfolding AllBelow Distinct
distinct-append n [] a d = (refl, tt)
distinct-append n (u ∷ us) (a, b) (c, d) =
    (holds-append u n us c (λ e. absurd (omega (arith, a, e))), distinct-append n us b d)

pub holds-remove : (u v : ℕ) (us : List ℕ) → holds u (remove v us) ≡ true → holds u us ≡ true
holds-remove u v [] h = h
holds-remove u v (x ∷ us) h = elim (Bool-cases (v == x)) [
  | inl y ↦ elim (Bool-cases (u == x)) [ inl z ↦ rw (z) refl | inr z ↦ ground (arith, y, z, h) ]
  | inr y ↦ elim (Bool-cases (u == x)) [
    | inl z ↦ rw (z) refl
    | inr z ↦ rw (z) (holds-remove u v us (ground (arith, y, z, h)))
  ]
]

pub gone : (u : ℕ) (us : List ℕ) → Distinct us → holds u (remove u us) ≡ false
unfolding Distinct
gone u [] d = refl
gone u (x ∷ us) (c, d) = elim (Bool-cases (u == x)) [
  | inl y ↦ rw (y) (subst (λ v. holds v us ≡ false) (sym ((==_iff u x).0 y)) c)
  | inr y ↦ rw (y, y) (gone u us d)
]

pub length-remove :
    (u : ℕ) (us : List ℕ) → holds u us ≡ true → suc (length (remove u us)) ≡ length us
length-remove u [] h = ground (arith, h)
length-remove u (x ∷ us) h = elim (Bool-cases (u == x)) [
  | inl y ↦ rw (y) refl
  | inr y ↦ rw (y) (ap suc (length-remove u us (ground (arith, y, h))))
]

pub below-remove : (n u : ℕ) (us : List ℕ) → AllBelow n us → AllBelow n (remove u us)
unfolding AllBelow
below-remove n u [] h = tt
below-remove n u (x ∷ us) (a, h) = elim (Bool-cases (u == x)) [
  | inl y ↦ rw (y) h
  | inr y ↦ rw (y) (a, below-remove n u us h)
]

pub distinct-remove : (u : ℕ) (us : List ℕ) → Distinct us → Distinct (remove u us)
unfolding Distinct
distinct-remove u [] d = tt
distinct-remove u (x ∷ us) (c, d) = elim (Bool-cases (u == x)) [
  | inl y ↦ rw (y) d
  | inr y ↦ rw (y) (still x u us c, distinct-remove u us d)
]
  where
    still : (x u : ℕ) (us : List ℕ) → holds x us ≡ false → holds x (remove u us) ≡ false
    still x u us c = elim (Bool-cases (holds x (remove u us))) [
      | inl z ↦ absurd (ground (arith, c, holds-remove x u us z))
      | inr z ↦ z
    ]
