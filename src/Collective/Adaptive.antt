-- ===== src/Collective/Adaptive.antt =====
-- pluvio_collective/src/ucx_backend/adaptive.rs: the choice of an algorithm for an allreduce by the size of
-- the message and the number of ranks.
use pluvio.Base.{
  ℕ, ◌*◌, ◌≤◌, ◌<◌, ◌≡◌, ◌⊎◌, true, false, ◌&&◌, Option, none, some, List, ltb, leb, if◌then◌else◌,
  Result, ok, err,
}
use pluvio.AmRouter.Header.{RecvKey, CollectiveError}
use pluvio.Collective.Ops.{Op}
use pluvio.Collective.Network.{Protocol, Ends}
use pluvio.Collective.Ring.{ring_allreduce}
use pluvio.Collective.Lanes.{Pipeline, Move, Returns}
use pluvio.Collective.Pipelined.{PipelineConfig, default_pipeline, pipelined_ring}
use pluvio.Collective.Doubling.{is_power_of_two, recursive_doubling}
use pluvio.Collective.Allreduce.{total}

pub data AllreduceAlgo : Type 0 where
  plain_ring : AllreduceAlgo
  pipelined : PipelineConfig → AllreduceAlgo
  by_doubling : AllreduceAlgo

pub record AdaptivePolicy : Type 0 where
  pub small_threshold : ℕ
  pub large_threshold : ℕ
  pub pipeline_config : PipelineConfig

abbrev pub default_policy : AdaptivePolicy
default_policy = record {
  small_threshold = 2 * 1024;
  large_threshold = 64 * 1024;
  pipeline_config = default_pipeline;
}

unfoldable pub choose_allreduce : AdaptivePolicy → ℕ → ℕ → AllreduceAlgo
choose_allreduce policy msg_bytes n =
    if ltb msg_bytes policy.small_threshold && is_power_of_two n && leb 2 n
    then by_doubling
    else (if leb policy.large_threshold msg_bytes
        then pipelined policy.pipeline_config
        else plain_ring)

-- What the ranks are to run: a program of rounds, or one of chains.
pub data Program (T : Type 0) : Type 0 where
  in_rounds : Protocol (List T) (List T) ℕ → Program T
  in_chains : Pipeline (List T) (List T) RecvKey → Program T

abbrev pub Plan : Type 0 → Type 0
Plan T = Result (Option (Program T)) CollectiveError

abbrev wrap : {A T : Type 0} → (A → Program T) → Result (Option A) CollectiveError → Plan T
wrap f (ok none) = ok none
wrap f (ok (some a)) = ok (some (f a))
wrap f (err e) = err e

-- `Collective::allreduce` of the adaptive communicator; an element takes `width` bytes.
unfoldable pub adaptive_allreduce :
    {T : Type 0} → AdaptivePolicy → Op T → (width n len : ℕ) → Plan T
adaptive_allreduce {T = T} policy op width n len =
    elim (choose_allreduce policy (len * width) n) as (λ x. Plan T) [
      | plain_ring ↦ wrap in_rounds (ring_allreduce op n len)
      | pipelined config ↦ wrap in_chains (pipelined_ring op n len config)
      | by_doubling ↦ wrap in_rounds (recursive_doubling op n len)
    ]

-- Every schedule of the program can be carried on to its end, with what is to come out at each rank.
unfoldable pub Completes : {T : Type 0} → Program T → (ℕ → List T) → (ℕ → List T) → Type 0
Completes (in_rounds p) init out = (rs : List ℕ) → Ends p init rs out
Completes (in_chains p) init out = (es : List Move) → Returns p init es out

-- What a policy promises of its choice: messages below `small_threshold` between at least two ranks, a
-- power of two, take recursive doubling; of the others, those from `large_threshold` on take the
-- pipelined ring, and the rest the plain one.
abbrev IsOther : AdaptivePolicy → ℕ → ℕ → Type 0
IsOther policy size n = (policy.small_threshold ≤ size) ⊎ ((is_power_of_two n ≡ false) ⊎ (n < 2))

pub data Chosen {T : Type 0} (policy : AdaptivePolicy) (op : Op T) (size n len : ℕ)
    : Program T → Type 0 where
  small :
      (p : Protocol (List T) (List T) ℕ)
      → size < policy.small_threshold
      → is_power_of_two n ≡ true
      → 2 ≤ n
      → recursive_doubling op n len ≡ ok (some p)
      → Chosen policy op size n len (in_rounds p)
  large :
      (p : Pipeline (List T) (List T) RecvKey)
      → IsOther policy size n
      → policy.large_threshold ≤ size
      → pipelined_ring op n len policy.pipeline_config ≡ ok (some p)
      → Chosen policy op size n len (in_chains p)
  between :
      (p : Protocol (List T) (List T) ℕ)
      → IsOther policy size n
      → size < policy.large_threshold
      → ring_allreduce op n len ≡ ok (some p)
      → Chosen policy op size n len (in_rounds p)

-- What a call of the policy's allreduce is to be: the algorithm of its choice, which every schedule completes.
abbrev pub Fulfils :
    {T : Type 0} → AdaptivePolicy → Op T → ℕ → ℕ → ℕ → Program T → (ℕ → List T) → Type 0
Fulfils policy op size n len q init =
    Chosen policy op size n len q × Completes q init (λ r. total op n init)
