-- ===== src/Track/Ids.antt =====
-- Lists of track ids that are different from each other, and given out already.
use pluvio.Base.{ℕ, ◌+◌, ◌<◌, ◌≢◌, sym, List, [], ◌∷◌, ◌++◌, arith}

-- An id is on no place of a list; ids are different, and given out already.
unfoldable pub Avoids : ℕ → List ℕ → Type 0
Avoids a [] = Unit
Avoids a (b ∷ bs) = (a ≢ b) × Avoids a bs

unfoldable pub Distinct : List ℕ → Type 0
Distinct [] = Unit
Distinct (a ∷ xs) = Avoids a xs × Distinct xs

unfoldable pub Given : ℕ → List ℕ → Type 0
Given n [] = Unit
Given n (a ∷ xs) = ((0 < a) × (a < n)) × Given n xs

pub Given-Avoids : (n : ℕ) (xs : List ℕ) → Given n xs → Avoids n xs
unfolding Given Avoids
Given-Avoids n [] h = tt
Given-Avoids n (a ∷ xs) ((_, l), h) = ((λ e. omega (arith, e, l)), Given-Avoids n xs h)

pub Given-suc : (n : ℕ) (xs : List ℕ) → Given n xs → Given (n + 1) xs
unfolding Given
Given-suc n [] h = tt
Given-suc n (a ∷ xs) ((p, l), h) = ((p, omega (arith, l)), Given-suc n xs h)

pub Given-append : (n a : ℕ) (xs : List ℕ) → Given n xs → 0 < a → a < n → Given n (xs ++ a ∷ [])
unfolding Given
Given-append n a [] h p l = ((p, l), tt)
Given-append n a (b ∷ bs) (g, h) p l = (g, Given-append n a bs h p l)

pub Avoids-append : (a b : ℕ) (xs : List ℕ) → Avoids a xs → a ≢ b → Avoids a (xs ++ b ∷ [])
unfolding Avoids
Avoids-append a b [] h n = (n, tt)
Avoids-append a b (c ∷ cs) (g, h) n = (g, Avoids-append a b cs h n)

pub Distinct-append : (a : ℕ) (xs : List ℕ) → Distinct xs → Avoids a xs → Distinct (xs ++ a ∷ [])
unfolding Distinct Avoids
Distinct-append a [] h k = (tt, tt)
Distinct-append a (b ∷ bs) (g, h) (n, k) =
    (Avoids-append b a bs g (λ e. n (sym e)), Distinct-append a bs h k)
