-- ===== src/Timer/Handle.antt =====
-- Timer handles of pluvio_timer/src/lib.rs and the `BTreeMap<TimerHandle, Waker>` over them: the list
-- of its entries in the order of their keys. An `Instant` is a number, a waker is the id of the task
-- that it wakes.
use pluvio.Base.{
  ℕ, ◌-◌, ◌^◌, Bool, ◌&&◌, ◌||◌, Option, none, some, List, [], ◌∷◌, ltb, ◌==◌, if◌then◌else◌,
}

pub record TimerHandle : Type 0 where
  pub deadline : ℕ
  pub id : ℕ

abbrev pub u64_max : ℕ
u64_max = 2 ^ 64 - 1

-- The derived order: by deadline, then by id.
unfoldable pub lt_handle : TimerHandle → TimerHandle → Bool
lt_handle a b = ltb a.deadline b.deadline || a.deadline == b.deadline && ltb a.id b.id

unfoldable pub eq_handle : TimerHandle → TimerHandle → Bool
eq_handle a b = a.deadline == b.deadline && a.id == b.id

unfoldable pub max_at : ℕ → TimerHandle
max_at deadline = record { deadline = deadline; id = u64_max }

abbrev pub Entry : Type 0
Entry = TimerHandle × ℕ

-- The methods of `BTreeMap` that the source calls.
unfoldable pub insert : TimerHandle → ℕ → List Entry → List Entry
insert h w [] = (h, w) ∷ []
insert h w ((k, v) ∷ m) =
    if eq_handle h k
    then (k, w) ∷ m
    else if lt_handle h k
    then (h, w) ∷ (k, v) ∷ m
    else (k, v) ∷ insert h w m

unfoldable pub lookup : TimerHandle → List Entry → Option ℕ
lookup h [] = none
lookup h ((k, v) ∷ m) = if eq_handle h k then some v else lookup h m

unfoldable pub delete : TimerHandle → List Entry → List Entry
delete h [] = []
delete h ((k, v) ∷ m) = if eq_handle h k then m else (k, v) ∷ delete h m

-- The keys of `range(..=h)`.
unfoldable pub range_to : TimerHandle → List Entry → List TimerHandle
range_to h [] = []
range_to h ((k, v) ∷ m) = if lt_handle k h || eq_handle k h then k ∷ range_to h m else range_to h m
