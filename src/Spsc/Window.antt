-- ===== src/Spsc/Window.antt =====
-- The slots of a ring from an index on, as they go round at the end of the buffer.
use native.Mathlib.Nat.{
  mod-lt, add-zero, zero-add, mod-add-mod, mod-eq_of_lt, mod-eq-sub-mod, mod_self,
}
use native.Mathlib.Decide.{dec_lt}
use Prim.Native.Nat.{◌%◌}
use pluvio.Base.{
  ℕ, suc, ◌+◌, ◌-◌, ◌≤◌, ◌<◌, ◌≡◌, refl, sym, ap, ◌∙◌, ◌≢◌, Option, none, some, List, [], ◌∷◌, ◌++◌,
  length, get_elem?, set, replicate, length-set, length-replicate, get_elem?-set_self,
  get_elem?-set_ne, subst, done, arith, append_assoc, append-nil, length-append,
}
use pluvio.Spsc.{inc_mod, move_out}

wraps : (m n : ℕ) → n ≡ m → n % m ≡ 0
wraps m n e = rw e (mod_self m)

-- `inc` steps round the ring.
pub inc_mod_lem : (m i : ℕ) → i < m → inc_mod m i ≡ (i + 1) % m
unfolding inc_mod
inc_mod_lem m i h = elim (dec_lt (i + 1) m) [
  | yes p ↦ ground (arith, mod-eq_of_lt h, mod-eq_of_lt p)
  | no p ↦ ground (arith, mod-eq_of_lt h, wraps m (i + 1) (omega arith))
]

pub inc_mod-lt : (m i : ℕ) → i < m → inc_mod m i < m
inc_mod-lt m i h = omega (arith, inc_mod_lem m i h)

-- Fewer than `m` steps round do not come back.
pub round-ne : (m t k : ℕ) → t < m → suc k < m → (t + suc k) % m ≢ t
round-ne m t k ht hk = elim (dec_lt (t + suc k) m) [
  | yes p ↦ omega (arith, mod-eq_of_lt p)
  | no p ↦ omega (
    arith,
    mod-eq-sub-mod {n = t + suc k} {m = m} (omega arith),
    mod-eq_of_lt {n = t + suc k - m} {m = m} (omega arith),
  )
]

pub round-suc : (m t k : ℕ) → t < m → (inc_mod m t + k) % m ≡ (t + suc k) % m
round-suc m t k h = rw (inc_mod_lem m t h, mod-add-mod) (ap (λ n. n % m) (omega arith))

module _ {ℓ} {T : Type ℓ} where
  get_elem?-set-at :
      (b : List (Option T)) (t p : ℕ) (v : Option T)
      → t < length b
      → p ≡ t
      → get_elem? (set b p v) t ≡ some v
  get_elem?-set-at b t p v h e = rw e (get_elem?-set_self b t v h)

  -- The values `xs` stand in the slots from `t` on.
  abbrev pub Window : List (Option T) → ℕ → List T → Type ℓ
  Window b t [] = Unit
  Window b t (x ∷ xs) = (get_elem? b t ≡ some (some x)) × Window b (inc_mod (length b) t) xs

  -- Writing the slot past a window extends it.
  pub Window-snoc :
      (b : List (Option T)) (t p : ℕ) (xs : List T) (v : T)
      → t < length b
      → length xs < length b
      → p ≡ (t + length xs) % length b
      → Window b t xs
      → Window (set b p (some v)) t (xs ++ v ∷ [])
  Window-snoc b t p [] v ht hn e w = (get_elem?-set-at b t p (some v) ht here, tt)
    where
      here : p ≡ t
      here = e ∙ rw add-zero (mod-eq_of_lt ht)
  Window-snoc b t p (x ∷ xs) v ht hn e w = (
    get_elem?-set_ne b p t (some v) apart ∙ w.0,
    rw (length-set b p (some v)) (
        Window-snoc b (inc_mod (length b) t) p xs v (inc_mod-lt (length b) t ht) (omega arith)
          (e ∙ sym (round-suc (length b) t (length xs) ht)) w.1),
  )
    where
      apart : p ≢ t
      apart = rw e (round-ne (length b) t (length xs) ht hn)

  -- The slots that `move_out` writes.
  written : List (Option T) → ℕ → List T → List (Option T)
  written b i [] = b
  written b i (x ∷ xs) = written (set b i (some x)) (i + 1) xs

  length-written : (b : List (Option T)) (i : ℕ) (xs : List T) → length (written b i xs) ≡ length b
  unfolding written
  length-written b i [] = refl
  length-written b i (x ∷ xs) =
      length-written (set b i (some x)) (i + 1) xs ∙ length-set b i (some x)

  move_out-eq-written :
      (b : List (Option T)) (i t : ℕ) (new_buf : List (Option T)) (xs : List T)
      → Window b t xs
      → move_out b (length xs) i t new_buf ≡ done (written new_buf i xs)
  unfolding move_out written
  move_out-eq-written b i t new_buf [] w = refl
  move_out-eq-written b i t new_buf (x ∷ xs) w =
      rw (w.0, move_out)
        (move_out-eq-written b (i + 1) (inc_mod (length b) t) (set new_buf i (some x)) xs w.1)

  written-Window :
      (b : List (Option T)) (pre xs : List T)
      → length pre + length xs < length b
      → Window b 0 pre
      → Window (written b (length pre) xs) 0 (pre ++ xs)
  unfolding written
  written-Window b pre [] h w = rw (append-nil pre) w
  written-Window b pre (x ∷ xs) h w =
      subst (λ k. Window (written (set b (length pre) (some x)) k xs) 0 (pre ++ x ∷ xs)) longer
        (rw (← append_assoc pre (x ∷ []) xs)
          (written-Window (set b (length pre) (some x)) (pre ++ x ∷ []) xs room snoc))
    where
      longer : length (pre ++ x ∷ []) ≡ length pre + 1
      longer = length-append pre (x ∷ [])

      room : length (pre ++ x ∷ []) + length xs < length (set b (length pre) (some x))
      room = rw length-set (omega (arith, length-append pre (x ∷ [])))

      snoc : Window (set b (length pre) (some x)) 0 (pre ++ x ∷ [])
      snoc =
          Window-snoc b 0 (length pre) pre x (omega arith) (omega arith)
            (sym (rw zero-add (mod-eq_of_lt (omega arith)))) w

  -- Moving a window out into a larger buffer puts it at the start, in order.
  pub move_out-Window :
      (b : List (Option T)) (t n : ℕ) (xs : List T)
      → length xs < n
      → Window b t xs
      → (b' : List (Option T)) × (move_out b (length xs) 0 t (replicate n none) ≡ done b')
        × (length b' ≡ n)
        × Window b' 0 xs
  move_out-Window b t n xs h w = (
    written (replicate n none) 0 xs,
    move_out-eq-written b 0 t (replicate n none) xs w,
    length-written (replicate n none) 0 xs ∙ length-replicate n none,
    written-Window (replicate n none) [] xs (rw (length-replicate n) (omega arith)) tt,
  )

  Window-set_out :
      (b : List (Option T)) (p s k : ℕ) (v : Option T) (xs : List T)
      → p < length b
      → suc k + length xs ≤ length b
      → s ≡ (p + suc k) % length b
      → Window b s xs
      → Window (set b p v) s xs
  Window-set_out b p s k v [] hp hn e w = tt
  Window-set_out b p s k v (x ∷ xs) hp hn e w = (
    get_elem?-set_ne b p s v apart ∙ w.0,
    rw (length-set b p v)
        (Window-set_out b p (inc_mod (length b) s) (suc k) v xs hp (omega arith) onward w.1),
  )
    where
      apart : p ≢ s
      apart h = round-ne (length b) p k hp (omega arith) (sym e ∙ sym h)

      in_range : s < length b
      in_range = rw e (mod-lt (p + suc k) (omega arith))

      onward : inc_mod (length b) s ≡ (p + suc (suc k)) % length b
      onward =
          inc_mod_lem (length b) s in_range
          ∙ rw (e, mod-add-mod) (ap (λ n. n % length b) (omega arith))

  -- Moving the front value out of its slot leaves the rest of the window.
  pub Window-uncons :
      (b : List (Option T)) (t : ℕ) (x : T) (xs : List T)
      → t < length b
      → suc (length xs) < length b
      → Window b t (x ∷ xs)
      → Window (set b t none) (inc_mod (length b) t) xs
  Window-uncons b t x xs ht hn w =
      Window-set_out b t (inc_mod (length b) t) 0 none xs ht (omega arith)
        (inc_mod_lem (length b) t ht) w.1
