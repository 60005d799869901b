-- ===== src/Spsc/Waiting.antt =====
-- A receive that waits for a value until a deadline, while the senders act.
use pluvio.Base.{
  ℕ, zero, suc, ◌+◌, ◌≤◌, ◌<◌, ◌≡◌, refl, ap, some, List, [], ◌∷◌, leb, ltb, Result, ok, err, Run,
  done, arith, Bool-cases, inl, inr,
}
use pluvio.Spsc.{Inner, RecvTimeoutError, timeout, hung_up, recv_deadline}
use pluvio.Spsc.Queue.{Queue}
use pluvio.Spsc.Refine.{Shows}
use pluvio.Spsc.Receive.{try_recv_empty, recv_front, pop_front}

-- What a receive promises that waits until `deadline`, from its reading `k` of the clock on, on a queue on
-- which the senders do `acts j` after the reading `j`: the answer, and the queue that it leaves.
pub data Waits {ℓ} {T : Type ℓ} (clock : ℕ → ℕ) (acts : ℕ → Queue T → Queue T) (deadline : ℕ)
    : ℕ → Queue T → Result T RecvTimeoutError → Queue T → Type ℓ where
  takes :
      (k : ℕ) (q : Queue T) (x : T) (xs : List T)
      → q.items ≡ x ∷ xs
      → Waits clock acts deadline k q (ok x) (record q { items = xs })
  hangs_up :
      (k : ℕ) (q : Queue T)
      → q.items ≡ []
      → q.senders ≡ 0
      → Waits clock acts deadline k q (err hung_up) q
  times_out :
      (k : ℕ) (q : Queue T)
      → q.items ≡ []
      → 0 < q.senders
      → deadline ≤ clock k
      → Waits clock acts deadline k q (err timeout) q
  waits_on :
      (k : ℕ) (q : Queue T) (answer : Result T RecvTimeoutError) (left : Queue T)
      → q.items ≡ []
      → 0 < q.senders
      → clock k < deadline
      → Waits clock acts deadline (k + 1) (acts k q) answer left
      → Waits clock acts deadline k q answer left

module _ {ℓ} {T : Type ℓ} (clock : ℕ → ℕ) (yielded : ℕ → Inner T → Run (Inner T))
    (acts : ℕ → Queue T → Queue T) (deadline : ℕ) where
  -- What the senders do to an empty channel while one of them lives is what `acts` says.
  unfoldable pub Acts : Type ℓ
  Acts =
      (k : ℕ) (r : Inner T) (q : Queue T)
      → Shows r q
      → q.items ≡ []
      → 0 < q.senders
      → (s : Inner T) × (yielded k r ≡ done s) × Shows s (acts k q)

  abbrev pub DeadlineRefines : ℕ → ℕ → Inner T → Queue T → Type ℓ
  DeadlineRefines fuel k r q =
      (s : Inner T) × (answer : Result T RecvTimeoutError) × (left : Queue T) × (recv_deadline fuel
          clock yielded k deadline r
        ≡ done (some (s, answer)))
      × Waits clock acts deadline k q answer left
      × Shows s left

  deadline_front :
      (fuel k : ℕ) (r : Inner T) (q : Queue T) (x : T) (xs : List T)
      → Shows r q
      → q.items ≡ x ∷ xs
      → DeadlineRefines (suc fuel) k r q
  unfolding recv_deadline
  deadline_front fuel k r q x xs v e =
      let (s, taken, shows) = recv_front r q x xs v e in
      (
        s,
        ok x,
        record q { items = xs },
        ground (arith, taken, pop_front q x xs e),
        takes k q x xs e,
        rw (← ap (λ p. p.0) (pop_front q x xs e)) shows,
      )

  deadline_hung_up :
      (fuel k : ℕ) (r : Inner T) (q : Queue T)
      → Shows r q
      → q.items ≡ []
      → q.senders ≡ 0
      → DeadlineRefines (suc fuel) k r q
  unfolding recv_deadline
  deadline_hung_up fuel k r q v e z =
      (r, err hung_up, q, ground (arith, try_recv_empty r q v e), hangs_up k q e z, v)

  deadline_timeout :
      (fuel k : ℕ) (r : Inner T) (q : Queue T)
      → Shows r q
      → q.items ≡ []
      → 0 < q.senders
      → deadline ≤ clock k
      → DeadlineRefines (suc fuel) k r q
  unfolding recv_deadline
  deadline_timeout fuel k r q v e z h =
      (r, err timeout, q, ground (arith, try_recv_empty r q v e), times_out k q e z h, v)

  deadline_later :
      (fuel k : ℕ) (r s : Inner T) (q : Queue T)
      → Shows r q
      → q.items ≡ []
      → 0 < q.senders
      → clock k < deadline
      → yielded k r ≡ done s
      → DeadlineRefines fuel (k + 1) s (acts k q)
      → DeadlineRefines (suc fuel) k r q
  unfolding recv_deadline
  deadline_later fuel k r s q v e z h y (t, answer, left, again, waits, shows) = (
    t,
    answer,
    left,
    ground (arith, try_recv_empty r q v e, y, again),
    waits_on k q answer left e z h waits,
    shows,
  )

  one_round :
      (fuel k : ℕ) (r : Inner T) (q : Queue T)
      → Shows r q
      → (q.items ≡ [] → 0 < q.senders → clock k < deadline → DeadlineRefines (suc fuel) k r q)
      → DeadlineRefines (suc fuel) k r q
  one_round fuel k r q v later = by_items q.items refl
    where
      by_items : (xs : List T) → q.items ≡ xs → DeadlineRefines (suc fuel) k r q
      by_items (x ∷ xs) e = deadline_front fuel k r q x xs v e
      by_items [] e = elim (Bool-cases (ltb 0 q.senders)) [
        | inr z ↦ deadline_hung_up fuel k r q v e (ground arith)
        | inl z ↦ elim (Bool-cases (leb deadline (clock k))) [
          | inl h ↦ deadline_timeout fuel k r q v e (ground arith) (ground arith)
          | inr h ↦ later e (ground arith) (ground arith)
        ]
      ]

  -- Where the senders act as `acts` says whenever the receiver yields, and the clock reaches the deadline
  -- at the latest in the reading `n` readings on, `recv_deadline` returns within `n + 1` rounds of fuel, as
  -- `Waits` promises: it takes the front value or reports the hang-up at the first reading where the queue
  -- has a value or no sender, and times out only on an empty queue when the clock has reached the deadline.
  pub recv_deadline-DeadlineRefines :
      (n fuel k : ℕ) (r : Inner T) (q : Queue T)
      → Acts
      → Shows r q
      → deadline ≤ clock (k + n)
      → n < fuel
      → DeadlineRefines fuel k r q
  unfolding Acts
  recv_deadline-DeadlineRefines n zero k r q a v h hf = elim hf [ ]
  recv_deadline-DeadlineRefines zero (suc fuel) k r q a v h hf =
      let now : k + 0 ≡ k = omega arith in
      let reached : deadline ≤ clock k = rw (← ap clock now) h in
      one_round fuel k r q v (λ e z l. absurd (omega arith))
  recv_deadline-DeadlineRefines (suc n) (suc fuel) k r q a v h hf =
      let later : k + suc n ≡ k + 1 + n = omega arith in
      one_round fuel k r q v λ e z l.
        let (s, y, v') = a k r q v e z in
        deadline_later fuel k r s q v e z l y (
          recv_deadline-DeadlineRefines n fuel (k + 1) s (acts k q) a v' (rw (← ap clock later) h)
            (omega arith))
