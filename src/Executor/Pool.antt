-- ===== src/Executor/Pool.antt =====
-- The `slab` crate as pluvio_runtime/src/executor/mod.rs uses it: its operations and documented laws
-- are given. `replace` is a write through `get_mut`.
use pluvio.Base.{ℕ, suc, ◌≡◌, Option, none, some, ◌==◌, if◌then◌else◌}

pub record Slab (S E : Type 0) : Type 0 where
  pub insert : S → E → S × ℕ
  pub get : S → ℕ → Option E
  pub replace : S → ℕ → E → S
  pub remove : S → ℕ → S
  pub size : S → ℕ
  -- A new key was vacant.
  pub insert_vacant : (s : S) (e : E) → get s (insert s e).1 ≡ none
  pub get-insert :
      (s : S) (e : E) (j : ℕ)
      → get (insert s e).0 j ≡ (if j == (insert s e).1 then some e else get s j)
  pub get-replace :
      (s : S) (i : ℕ) (e e' : E) (j : ℕ)
      → get s i ≡ some e
      → get (replace s i e') j ≡ (if j == i then some e' else get s j)
  pub get-remove : (s : S) (i j : ℕ) → get (remove s i) j ≡ (if j == i then none else get s j)
  pub size-insert : (s : S) (e : E) → size (insert s e).0 ≡ suc (size s)
  pub size-replace : (s : S) (i : ℕ) (e e' : E) → get s i ≡ some e → size (replace s i e') ≡ size s
  pub size-remove : (s : S) (i : ℕ) (e : E) → get s i ≡ some e → suc (size (remove s i)) ≡ size s
