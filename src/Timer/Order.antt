-- ===== src/Timer/Order.antt =====
-- Laws of the handle map: look-up after insertion and removal, and that the keys stay in order.
use pluvio.Base.{
  ℕ, suc, ◌≤◌, ◌<◌, ◌≡◌, refl, ap, true, false, none, some, List, [], ◌∷◌, length, if◌then◌else◌,
  Bool-cases, inl, inr, arith,
}
use pluvio.Timer.Handle.{TimerHandle, Entry, lt_handle, eq_handle, insert, lookup, delete}

-- The first key of a list comes after `h`.
abbrev pub Above : TimerHandle → List Entry → Type 0
Above h [] = Unit
Above h ((k, v) ∷ m) = lt_handle h k ≡ true

abbrev pub Sorted : List Entry → Type 0
Sorted [] = Unit
Sorted ((k, v) ∷ m) = Above k m × Sorted m

-- Every id lies below the counter.
abbrev pub IdsBelow : ℕ → List Entry → Type 0
IdsBelow n [] = Unit
IdsBelow n ((k, v) ∷ m) = (k.id < n) × IdsBelow n m

pub lt_trans_handle :
    (a b c : TimerHandle) → lt_handle a b ≡ true → lt_handle b c ≡ true → lt_handle a c ≡ true
unfolding lt_handle
lt_trans_handle a b c h k = ground arith

pub eq_handle_refl : (a : TimerHandle) → eq_handle a a ≡ true
unfolding eq_handle
eq_handle_refl a = ground arith

pub lt-ne_handle : (a b : TimerHandle) → lt_handle a b ≡ true → eq_handle a b ≡ false
unfolding lt_handle eq_handle
lt-ne_handle a b h = ground arith

flip_handle :
    (a b : TimerHandle) → eq_handle a b ≡ false → lt_handle a b ≡ false → lt_handle b a ≡ true
unfolding lt_handle eq_handle
flip_handle a b h k = ground arith

eq_handle_trans :
    (a b c : TimerHandle) → eq_handle a b ≡ true → eq_handle a c ≡ true → eq_handle b c ≡ true
unfolding eq_handle
eq_handle_trans a b c h k = ground arith

eq_handle_sym : (a b : TimerHandle) → eq_handle a b ≡ eq_handle b a
unfolding eq_handle
eq_handle_sym a b = ground arith

eq_of_eq_handle : (a b : TimerHandle) → eq_handle a b ≡ true → a ≡ b
unfolding eq_handle
eq_of_eq_handle a b h = ground arith

pub lookup-Above : (h : TimerHandle) (m : List Entry) → Above h m → Sorted m → lookup h m ≡ none
unfolding lookup
lookup-Above h [] a s = refl
lookup-Above h ((k, v) ∷ []) a s = ground (arith, lt-ne_handle h k a)
lookup-Above h ((k, v) ∷ (j, w) ∷ m) a s =
    ground
      (arith, lt-ne_handle h k a, lookup-Above h ((j, w) ∷ m) (lt_trans_handle h k j a s.0) s.1)

pub lookup_same :
    (j h : TimerHandle) (m : List Entry) → eq_handle j h ≡ true → lookup j m ≡ lookup h m
lookup_same j h m e = ap (λ k. lookup k m) (eq_of_eq_handle j h e)

-- A key equal to one before the list is not in the list.
lookup_equal :
    (j k : TimerHandle) (m : List Entry)
    → eq_handle j k ≡ true
    → Above k m
    → Sorted m
    → lookup j m ≡ none
lookup_equal j k m e a s = rw (eq_of_eq_handle j k e) (lookup-Above k m a s)

-- A new id is in no entry.
pub lookup_fresh :
    (h : TimerHandle) (n : ℕ) (m : List Entry) → IdsBelow n m → n ≤ h.id → lookup h m ≡ none
unfolding lookup eq_handle
lookup_fresh h n [] b e = refl
lookup_fresh h n ((k, v) ∷ m) b e = ground (arith, lookup_fresh h n m b.1)

Above-insert :
    (j h : TimerHandle) (w : ℕ) (m : List Entry)
    → lt_handle j h ≡ true
    → Above j m
    → Above j (insert h w m)
unfolding insert
Above-insert j h w [] l a = l
Above-insert j h w ((k, v) ∷ m) l a = ground arith

pub Sorted-insert : (h : TimerHandle) (w : ℕ) (m : List Entry) → Sorted m → Sorted (insert h w m)
unfolding insert
Sorted-insert h w [] s = (tt, tt)
Sorted-insert h w ((k, v) ∷ m) s = elim (Bool-cases (eq_handle h k)) [
  | inl e ↦ rw e s
  | inr e ↦ elim (Bool-cases (lt_handle h k)) [
    | inl l ↦ rw (e, l) (l, s)
    | inr l ↦ rw (e, l) (Above-insert k h w m (flip_handle h k e l) s.0, Sorted-insert h w m s.1)
  ]
]

pub IdsBelow-insert :
    (n : ℕ) (h : TimerHandle) (w : ℕ) (m : List Entry)
    → h.id < n
    → IdsBelow n m
    → IdsBelow n (insert h w m)
unfolding insert
IdsBelow-insert n h w [] l b = (l, tt)
IdsBelow-insert n h w ((k, v) ∷ m) l b = ground (arith, IdsBelow-insert n h w m l b.1)

pub IdsBelow-mono : (n n' : ℕ) (m : List Entry) → n ≤ n' → IdsBelow n m → IdsBelow n' m
IdsBelow-mono n n' [] l b = tt
IdsBelow-mono n n' ((k, v) ∷ m) l b = (omega arith, IdsBelow-mono n n' m l b.1)

pub length-insert :
    (h : TimerHandle) (w : ℕ) (m : List Entry)
    → lookup h m ≡ none
    → length (insert h w m) ≡ suc (length m)
unfolding insert lookup
length-insert h w [] e = refl
length-insert h w ((k, v) ∷ m) e = ground (arith, length-insert h w m)

pub lookup-insert :
    (j h : TimerHandle) (w : ℕ) (m : List Entry)
    → lookup j (insert h w m) ≡ (if eq_handle j h then some w else lookup j m)
unfolding insert lookup
lookup-insert j h w [] = refl
lookup-insert j h w ((k, v) ∷ m) = ground (
  arith,
  lookup-insert j h w m,
  eq_handle_trans h j k,
  eq_handle_trans j h k,
  eq_handle_trans k h j,
  eq_handle_sym h k,
  eq_handle_sym h j,
  eq_handle_sym k j,
)

pub delete-insert :
    (h : TimerHandle) (w : ℕ) (m : List Entry) → lookup h m ≡ none → delete h (insert h w m) ≡ m
unfolding insert delete lookup
delete-insert h w [] e = ground (arith, eq_handle_refl h)
delete-insert h w ((k, v) ∷ m) e = ground (arith, eq_handle_refl h, delete-insert h w m)

pub lookup-delete :
    (j h : TimerHandle) (m : List Entry)
    → Sorted m
    → lookup j (delete h m) ≡ (if eq_handle j h then none else lookup j m)
unfolding delete lookup
lookup-delete j h [] s = ground arith
lookup-delete j h ((k, v) ∷ m) s = ground (
  arith,
  lookup-delete j h m s.1,
  lookup_equal j k m,
  eq_handle_trans h j k,
  eq_handle_trans j h k,
  eq_handle_trans k h j,
  eq_handle_sym h k,
  eq_handle_sym h j,
  eq_handle_sym k j,
)

Above-delete : (j h : TimerHandle) (m : List Entry) → Above j m → Sorted m → Above j (delete h m)
unfolding delete
Above-delete j h [] a s = tt
Above-delete j h ((k, v) ∷ []) a s = ground arith
Above-delete j h ((k, v) ∷ (i, w) ∷ m) a s = ground (arith, lt_trans_handle j k i a s.0)

pub Sorted-delete : (h : TimerHandle) (m : List Entry) → Sorted m → Sorted (delete h m)
unfolding delete
Sorted-delete h [] s = tt
Sorted-delete h ((k, v) ∷ m) s = elim (Bool-cases (eq_handle h k)) [
  | inl e ↦ rw e s.1
  | inr e ↦ rw e (Above-delete k h m s.0 s.1, Sorted-delete h m s.1)
]

pub IdsBelow-delete :
    (n : ℕ) (h : TimerHandle) (m : List Entry) → IdsBelow n m → IdsBelow n (delete h m)
unfolding delete
IdsBelow-delete n h [] b = tt
IdsBelow-delete n h ((k, v) ∷ m) b = ground (arith, IdsBelow-delete n h m b.1)

pub length-delete :
    (h : TimerHandle) (w : ℕ) (m : List Entry)
    → lookup h m ≡ some w
    → suc (length (delete h m)) ≡ length m
unfolding delete lookup
length-delete h w [] e = cc
length-delete h w ((k, v) ∷ m) e = ground (arith, length-delete h w m)
