-- ===== src/Collective/Scatter/Tests.antt =====
-- A scatter among three ranks, and the theorems at it.
use pluvio.Base.{
  ℕ, zero, suc, ◌≤◌, ◌<◌, ◌≡◌, refl, [], ◌∷◌, length, none, some, ok, err, slice, ◌*◌, arith,
}
use pluvio.AmRouter.Header.{same_key, bad_shape, protocol}
use pluvio.Collective.Keys.{round_key}
use pluvio.Collective.Network.{post, finish, turn, run, start, Ends}
use pluvio.Collective.Scatter.{Parts, recipient, awaited, part, fan_out, of_root, scatter}
use pluvio.Collective.Scatter.Delivery.{scatter-delivers}
use pluvio.Collective.Scatter.Waiting.{AllOthers, scatter-waits}

-- Rank 1 is the root.
abbrev arguments : ℕ → Parts ℕ
arguments zero = record { send_buf = none; recv_buf = 0 ∷ [] }
arguments (suc zero) = record { send_buf = some (5 ∷ 6 ∷ 7 ∷ []); recv_buf = 0 ∷ [] }
arguments (suc (suc r)) = record { send_buf = none; recv_buf = 0 ∷ [] }

abbrev opening : ℕ → Parts ℕ
opening zero = record { send_buf = none; recv_buf = 0 ∷ [] }
opening (suc zero) = record { send_buf = some (5 ∷ 6 ∷ 7 ∷ []); recv_buf = 6 ∷ [] }
opening (suc (suc r)) = record { send_buf = none; recv_buf = 0 ∷ [] }

all_call : (r : ℕ) → r < 3 → scatter 3 r 1 (arguments r) ≡ ok (opening r, some (fan_out 3 1 1))
unfolding scatter of_root
all_call zero h = refl
all_call (suc zero) h = refl
all_call (suc (suc zero)) h = refl
all_call (suc (suc (suc r))) h = absurd (ground (arith, h))

length-arguments : (r : ℕ) → r < 3 → length (arguments r).recv_buf ≡ 1
length-arguments zero h = refl
length-arguments (suc zero) h = refl
length-arguments (suc (suc r)) h = refl

scatter_run :
    (run
        (fan_out 3 1 1)
        (0 ∷ 1 ∷ 1 ∷ 1 ∷ 1 ∷ 1 ∷ 0 ∷ 2 ∷ 2 ∷ 2 ∷ 2 ∷ 2 ∷ 2 ∷ [])
        (start (fan_out 3 1 1) opening)).held
      2
    ≡ record { send_buf = none; recv_buf = 7 ∷ [] }
unfolding run start turn post finish fan_out recipient awaited part round_key same_key
scatter_run = refl

no_root : scatter 3 0 3 (arguments 0) ≡ err protocol
unfolding scatter
no_root = refl

wrong_size : scatter 4 1 1 (arguments 1) ≡ err bad_shape
unfolding scatter of_root
wrong_size = refl

scatter-delivers_example :
    Ends
      (fan_out 3 1 1)
      opening
      (2 ∷ 2 ∷ 1 ∷ [])
      (λ r. record (arguments r) { recv_buf = slice (r * 1) 1 (5 ∷ 6 ∷ 7 ∷ []) })
scatter-delivers_example =
    scatter-delivers 3 1 1 arguments opening (fan_out 3 1 1) (5 ∷ 6 ∷ 7 ∷ []) (2 ∷ 2 ∷ 1 ∷ [])
      (ground arith) refl length-arguments all_call

scatter-waits_example :
    (run (fan_out 3 1 1) (0 ∷ 2 ∷ 0 ∷ 2 ∷ 2 ∷ []) (start (fan_out 3 1 1) arguments)).pc 2 ≤ 2
unfolding AllOthers
scatter-waits_example =
    scatter-waits 3 1 1 arguments (0 ∷ 2 ∷ 0 ∷ 2 ∷ 2 ∷ [])
      (
        (λ e. ground (arith, e)),
        (
          (λ e. ground (arith, e)),
          ((λ e. ground (arith, e)), ((λ e. ground (arith, e)), ((λ e. ground (arith, e)), tt))),
        ),
      )
      2 (λ e. ground (arith, e))
