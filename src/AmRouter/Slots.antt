-- ===== src/AmRouter/Slots.antt =====
-- The HashMap of pluvio_collective/src/ucx_backend/am_router.rs: an association list with one entry of a
-- key.
use pluvio.Base.{
  ◌≡◌, refl, ap, inl, inr, Option, none, some, List, [], ◌∷◌, if◌then◌else◌, Bool-cases, arith,
}
use pluvio.AmRouter.Header.{RecvKey, same_key, same_key_refl, same_key→≡}

module _ {ℓ} {V : Type ℓ} where
  abbrev pub find : RecvKey → List (RecvKey × V) → Option V
  find k [] = none
  find k ((j, v) ∷ m) = if same_key k j then some v else find k m

  abbrev pub remove : RecvKey → List (RecvKey × V) → List (RecvKey × V)
  remove k [] = []
  remove k ((j, v) ∷ m) = if same_key k j then remove k m else (j, v) ∷ remove k m

  abbrev pub insert : RecvKey → V → List (RecvKey × V) → List (RecvKey × V)
  insert k v m = (k, v) ∷ remove k m

  pub find-remove :
      (j k : RecvKey) (m : List (RecvKey × V))
      → find j (remove k m) ≡ (if same_key j k then none else find j m)
  find-remove j k [] = ground arith
  find-remove j k ((i, v) ∷ m) =
      ground
        (arith, find-remove j k m, same_key→≡ k i, same_key→≡ j i, same_key→≡ j k, same_key_refl j)

  pub find-insert :
      (j k : RecvKey) (v : V) (m : List (RecvKey × V))
      → find j (insert k v m) ≡ (if same_key j k then some v else find j m)
  find-insert j k v m = ground (arith, find-remove j k m)

  pub find-insert_self :
      (k : RecvKey) (v : V) (m : List (RecvKey × V)) → find k (insert k v m) ≡ some v
  find-insert_self k v m = rw (same_key_refl k) refl

  -- Removing what was inserted at a new key leaves the map as it was.
  pub remove_absent : (k : RecvKey) (m : List (RecvKey × V)) → find k m ≡ none → remove k m ≡ m
  remove_absent k [] h = refl
  remove_absent k ((i, v) ∷ m) h = elim (Bool-cases (same_key k i)) [
    | inl e ↦ ground (arith, e, h)
    | inr e ↦ rw (e) (ap (λ x. (i, v) ∷ x) (remove_absent k m (ground (arith, e, h))))
  ]

  pub remove-insert :
      (k : RecvKey) (v : V) (m : List (RecvKey × V)) → find k m ≡ none → remove k (insert k v m) ≡ m
  remove-insert k v m h = rw (same_key_refl k, remove_absent k m h, remove_absent k m h) refl
