-- ===== src/Collective/Lanes.antt =====
-- pluvio_collective/src/ucx_backend/pipelined_ring.rs: how `pipelined_ring` runs its chains. Every rank has
-- chains, one of each micro-chunk, which share its buffer; in each of two phases it launches them in
-- order into a `FuturesUnordered`, not more than `max_in_flight` at a time, and goes on when all are done.
-- A chain is a program of rounds; its messages go through the mail that all chains share. The moves
-- of the chains and of the loops that launch them come in any order, more orders than the code has.
pub mod Letters
pub mod Views
pub mod Seen
pub mod Pumps
pub mod Sound
pub mod Progress
pub mod Completion
use pluvio.Base.{
  ℕ, zero, suc, ◌+◌, ◌-◌, ◌*◌, ◌<◌, ◌≡◌, Bool, true, false, ◌&&◌, ◌||◌, List, [], ◌∷◌, ◌++◌, ltb,
  if◌then◌else◌,
}
use pluvio.Collective.Network.{Protocol, Letter, Net, put, turn}

-- `lane` gives the chain of a number; it has `half` rounds in each phase.
pub record Pipeline (B M K : Type 0) : Type 0 where
  pub ranks : ℕ
  pub lanes : ℕ
  pub limit : ℕ
  pub half : ℕ
  pub lane : ℕ → Protocol B M K

-- `pc` and `sent` are those of a chain of a rank, the chain first. Of a rank: the phase that it is in,
-- 2 after both; how many chains it launched in the phase; how many results it took.
pub record Pipes (B M K : Type 0) : Type 0 where
  pub held : ℕ → B
  pub pc : ℕ → ℕ → ℕ
  pub sent : ℕ → ℕ → Bool
  pub mail : List (Letter M K)
  pub stage : ℕ → ℕ
  pub launched : ℕ → ℕ
  pub reaped : ℕ → ℕ

-- `loops r`: rank `r` goes on in its loops; `moves r m`: chain `m` of rank `r` goes on.
pub data Move : Type 0 where
  loops : ℕ → Move
  moves : (r m : ℕ) → Move

-- How many of the first `l` chains of a rank have come to a round.
unfoldable pub arrived : (ℕ → ℕ → ℕ) → ℕ → ℕ → ℕ → ℕ
arrived pc r bound zero = 0
arrived pc r bound (suc l) = arrived pc r bound l + (if ltb (pc l r) bound then 0 else 1)

module _ {B M K : Type 0} where
  -- What a chain sees.
  abbrev pub net : ℕ → Pipes B M K → Net B M K
  net m t = record { held = t.held; pc = t.pc m; sent = t.sent m; mail = t.mail }

  abbrev pub set_net : ℕ → Net B M K → Pipes B M K → Pipes B M K
  set_net m u t = record t {
    held = u.held;
    pc = put m u.pc t.pc;
    sent = put m u.sent t.sent;
    mail = u.mail;
  }

  module _ (p : Pipeline B M K) where
    -- A chain moves when it is launched and its part of the phase is not over.
    unfoldable pub chain_turn : ℕ → ℕ → Pipes B M K → Pipes B M K
    chain_turn r m t =
        if ltb (t.stage r) 2 && ltb m (t.launched r) && ltb (t.pc m r) (suc (t.stage r) * p.half)
        then set_net m (turn (p.lane m) r (net m t)) t
        else t

    -- One step of the loops of a rank: the next chain is pushed, unless the loop is at
    -- `chains.next().await` because `max_in_flight` are under way; else a result is taken, if there is
    -- one; after the last result the phase is over.
    unfoldable pub pump : ℕ → Pipes B M K → Pipes B M K
    pump r t =
        let l = t.launched r in
        let d = t.reaped r in
        if ltb (t.stage r) 2
        then (if ltb l p.lanes && (ltb l p.limit || ltb (l - p.limit) d)
            then record t { launched = put r (suc l) t.launched }
            else (if ltb d l
                then (if ltb d (arrived t.pc r (suc (t.stage r) * p.half) l)
                    then record t { reaped = put r (suc d) t.reaped }
                    else t)
                else record t {
                  stage = put r (suc (t.stage r)) t.stage;
                  launched = put r 0 t.launched;
                  reaped = put r 0 t.reaped;
                }))
        else t

    unfoldable pub move : Move → Pipes B M K → Pipes B M K
    move (loops r) t = pump r t
    move (moves r m) t = chain_turn r m t

    unfoldable pub operate : List Move → Pipes B M K → Pipes B M K
    operate [] t = t
    operate (e ∷ es) t = operate es (move e t)

    unfoldable pub fill : (ℕ → B) → Pipes B M K
    fill init = record {
      held = init;
      pc = λ m r. 0;
      sent = λ m r. false;
      mail = [];
      stage = λ r. 0;
      launched = λ r. 0;
      reaped = λ r. 0;
    }

    -- The moves can be carried on until every rank is through both phases, each with what is to come out
    -- at it.
    abbrev pub Returns : (ℕ → B) → List Move → (ℕ → B) → Type 0
    Returns init es out =
        (more : List Move) × ((r : ℕ)
          → r < p.ranks
          → let t = operate (es ++ more) (fill init) in (t.stage r ≡ 2) × (t.held r ≡ out r))
