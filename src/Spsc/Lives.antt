-- ===== src/Spsc/Lives.antt =====
-- The two ends of a channel's life: its constructors, and the `Drop` of the shared state.
use pluvio.Base.{
  ℕ, zero, suc, ◌+◌, ◌<◌, max, ◌≡◌, refl, ap, ◌∙◌, sym, ◌%◌, true, false, Option, none, some, List,
  [], ◌∷◌, ◌++◌, append-nil, append_assoc, length, length-replicate, done, arith,
}
use native.Mathlib.Nat.{mod-eq_of_lt, add-zero}
use pluvio.Spsc.{
  Inner, usize_max, inc_mod, drop_from, drop_inner, new_bounded, new_unbounded, fresh,
}
use pluvio.Spsc.Window.{Window, inc_mod_lem, inc_mod-lt, round-suc, round-ne}
use pluvio.Spsc.Shape.{Holds, head_in, fresh-Holds}
use pluvio.Spsc.Refine.{Shows}

module _ {ℓ} {T : Type ℓ} where
  drop_from_lem :
      (fuel : ℕ) (b : List (Option T)) (head t : ℕ) (xs dropped : List T)
      → length xs < fuel
      → length xs < length b
      → t < length b
      → head ≡ (t + length xs) % length b
      → Window b t xs
      → drop_from fuel b head t dropped ≡ done (some (dropped ++ xs))
  unfolding drop_from
  drop_from_lem zero b head t xs dropped hf hb ht e w = elim hf [ ]
  drop_from_lem (suc fuel) b head t [] dropped hf hb ht e w =
      let home : t ≡ head = sym (e ∙ rw add-zero (mod-eq_of_lt ht)) in
      rw append-nil (ground (arith, home))
  drop_from_lem (suc fuel) b head t (x ∷ xs) dropped hf hb ht e w = ground (
    arith,
    round-ne (length b) t (length xs) ht hb,
    w.0,
    drop_from_lem fuel b head (inc_mod (length b) t) xs (dropped ++ x ∷ []) (omega arith)
        (omega arith) (inc_mod-lt (length b) t ht) (e ∙ sym (round-suc (length b) t (length xs) ht))
        w.1,
    inc_mod_lem (length b) t ht,
    append_assoc dropped (x ∷ []) xs,
  )

  -- `Drop for Inner` drops exactly the values still held, oldest first, each once: as many rounds as
  -- the buffer has slots are enough.
  pub drop_inner_lem :
      (r : Inner T) (xs : List T) → Holds r xs → drop_inner (length r.buf) r ≡ done (some xs)
  unfolding drop_inner
  drop_inner_lem r xs v = ground (
    arith,
    mod-eq_of_lt (head_in r xs v),
    mod-eq_of_lt v.tail_in,
    drop_from_lem (length r.buf) r.buf r.head r.tail xs [] v.room v.room v.tail_in v.head_at
        v.window,
  )

  -- `bounded(cap)`, with a capacity that is not zero and below the largest word, shows the empty
  -- queue of limit `cap`, one sender, and a receiver.
  pub new_bounded-Shows :
      (cap : ℕ)
      → 0 < cap
      → cap < usize_max
      → (r : Inner T) × (new_bounded cap ≡ done r)
        × Shows r (record { items = []; limit = some cap; senders = 1; listening = true })
  unfolding new_bounded
  new_bounded-Shows cap h k = (
    fresh cap false,
    ground arith,
    record {
      holds = fresh-Holds cap false h k;
      limited = ap (λ n. some n) (sym (rw length-replicate (omega arith)));
      counted = refl;
      heard = refl;
    },
  )

  -- `unbounded()`, with an initial capacity below the largest word, shows the empty queue with no
  -- limit.
  pub new_unbounded-Shows :
      (initial_cap : ℕ)
      → initial_cap < usize_max
      → Shows
          (new_unbounded {T = T} initial_cap)
          (record { items = []; limit = none; senders = 1; listening = true })
  unfolding new_unbounded
  new_unbounded-Shows initial_cap k = record {
    holds = fresh-Holds (max initial_cap 1) true (omega arith) (omega arith);
    limited = refl;
    counted = refl;
    heard = refl;
  }
