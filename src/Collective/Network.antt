-- ===== src/Collective/Network.antt =====
-- The network under the collectives of pluvio_collective/src/ucx_backend: all ranks run one program of
-- rounds. In a round a rank may send one message, and it may wait for one by its key (a tag of UCX, or the
-- header of an active message); `futures::join` starts the send first and ends the round when both are
-- done. Messages between ranks are delivered in any order and after any delay; the ranks take their turns
-- in any order. UCX itself is a parameter: that it delivers each message once, unchanged, to the receive of
-- its key.
use pluvio.Base.{
  ℕ, zero, suc, ◌<◌, ◌≡◌, refl, ◌∙◌, Bool, true, false, ◌&&◌, Option, none, some, List, [], ◌∷◌,
  ◌++◌, ltb, ◌==◌, if◌then◌else◌,
}

-- `X` is what a rank holds, `M` what a message carries, and `K` what it is matched by.
pub record Protocol (X M K : Type 0) : Type 0 where
  pub size : ℕ
  pub rounds : ℕ
  -- In a round, of a rank: whom it sends to, and whom it waits for.
  pub dest : ℕ → ℕ → Option ℕ
  pub source : ℕ → ℕ → Option ℕ
  -- In a round, the key of the message of a rank.
  pub key : ℕ → ℕ → K
  pub same : K → K → Bool
  -- In a round, of a rank: what it sends, and what it makes of what it receives.
  pub payload : ℕ → ℕ → X → M
  pub absorb : ℕ → ℕ → X → M → X

-- A message in the network: for whom, its key, what it carries.
pub record Letter (M K : Type 0) : Type 0 where
  pub to : ℕ
  pub label : K
  pub content : M

-- `pc` counts the rounds that a rank has finished; `sent` tells whether it started the round after.
pub record Net (X M K : Type 0) : Type 0 where
  pub held : ℕ → X
  pub pc : ℕ → ℕ
  pub sent : ℕ → Bool
  pub mail : List (Letter M K)

-- A write at one number of a store.
abbrev pub put {ℓ} : {A : Type ℓ} → ℕ → A → (ℕ → A) → ℕ → A
put i a f j = if j == i then a else f j

module _ {X M K : Type 0} (p : Protocol X M K) where
  abbrev pub addressed : ℕ → K → Letter M K → Bool
  addressed r k l = l.to == r && p.same l.label k

  abbrev pub pick : ℕ → K → List (Letter M K) → Option M
  pick r k [] = none
  pick r k (l ∷ ls) = if addressed r k l then some l.content else pick r k ls

  abbrev pub discard : ℕ → K → List (Letter M K) → List (Letter M K)
  discard r k [] = []
  discard r k (l ∷ ls) = if addressed r k l then ls else l ∷ discard r k ls

  -- A rank starts its next round.
  unfoldable pub post : ℕ → Net X M K → Net X M K
  post r t =
      let k = t.pc r in
      let started : Net X M K = record t { sent = put r true t.sent } in
      elim (p.dest k r) as (λ x. Net X M K) [
        | none ↦ started
        | some d ↦ record started {
          mail =
              t.mail
              ++ (record { to = d; label = p.key k r; content = p.payload k r (t.held r) }) ∷ [];
        }
      ]

  -- A rank ends its round, if what it waits for is there.
  unfoldable pub finish : ℕ → Net X M K → Net X M K
  finish r t =
      let k = t.pc r in
      let ended : Net X M K = record t { pc = put r (suc k) t.pc; sent = put r false t.sent } in
      elim (p.source k r) as (λ x. Net X M K) [
        | none ↦ ended
        | some s ↦ elim (pick r (p.key k s) t.mail) as (λ x. Net X M K) [
          | none ↦ t
          | some m ↦ record ended {
            held = put r (p.absorb k r (t.held r) m) t.held;
            mail = discard r (p.key k s) t.mail;
          }
        ]
      ]

  -- A rank's turn.
  unfoldable pub turn : ℕ → Net X M K → Net X M K
  turn r t =
      if ltb r p.size && ltb (t.pc r) p.rounds
      then (if t.sent r then finish r t else post r t)
      else t

  -- A schedule names the ranks whose turns they are.
  unfoldable pub run : List ℕ → Net X M K → Net X M K
  run [] t = t
  run (r ∷ rs) t = run rs (turn r t)

  unfoldable pub start : (ℕ → X) → Net X M K
  start init = record { held = init; pc = λ r. 0; sent = λ r. false; mail = [] }

  -- What each rank holds after a number of rounds, were all ranks in step.
  unfoldable pub sync : (ℕ → X) → ℕ → ℕ → X
  sync init zero r = init r
  sync init (suc k) r = elim (p.source k r) as (λ x. X) [
    | none ↦ sync init k r
    | some s ↦ p.absorb k r (sync init k r) (p.payload k s (sync init k s))
  ]

  -- The schedule can be carried on until all ranks have finished, each with what is to come out at it.
  abbrev pub Ends : (ℕ → X) → List ℕ → (ℕ → X) → Type 0
  Ends init rs out =
      (more : List ℕ) × ((r : ℕ)
        → r < p.size
        → let t = run (rs ++ more) (start init) in (t.pc r ≡ p.rounds) × (t.held r ≡ out r))

  pub Ends-with :
      (init : ℕ → X) (rs : List ℕ) (f g : ℕ → X)
      → Ends init rs f
      → ((r : ℕ) → r < p.size → f r ≡ g r)
      → Ends init rs g
  Ends-with init rs f g (more, h) e = (more, λ r l. (let (x, y) = h r l in (x, y ∙ e r l)))

  pub sync-rests :
      (init : ℕ → X) (k r : ℕ) → p.source k r ≡ none → sync init (suc k) r ≡ sync init k r
  unfolding sync
  sync-rests init k r e = rw (e, sync) refl

  pub sync-takes :
      (init : ℕ → X) (k r s : ℕ)
      → p.source k r ≡ some s
      → sync init (suc k) r ≡ p.absorb k r (sync init k r) (p.payload k s (sync init k s))
  unfolding sync
  sync-takes init k r s e = rw (e, sync) refl

-- The ranks fit together: who waits for a rank is whom it sends to, and keys tell the messages
-- for one rank apart.
pub record IsMatched {X M K : Type 0} (p : Protocol X M K) : Type 0 where
  pub waited :
      (k r s : ℕ)
      → k < p.rounds
      → r < p.size
      → p.source k r ≡ some s
      → (s < p.size) × (p.dest k s ≡ some r)
  pub apart :
      (l : K) (j k r s d : ℕ)
      → j < p.rounds
      → k < p.rounds
      → r < p.size
      → s < p.size
      → p.dest j r ≡ some d
      → p.dest k s ≡ some d
      → p.same l (p.key j r) ≡ true
      → p.same l (p.key k s) ≡ true
      → (j ≡ k) × (r ≡ s)
  pub itself : (k r : ℕ) → p.same (p.key k r) (p.key k r) ≡ true
