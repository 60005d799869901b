-- ===== src/Uring.antt =====
-- pluvio_uring/src/reactor.rs: the io_uring reactor. The ring of the io_uring crate, with the kernel behind
-- it, is a parameter. A handle goes by the `user_data` that it is registered under, which no two share
-- before the counter has gone once through its word. The HashMap of completions is the list of its keys.
mod Balance
mod Waiting
mod Delivery
mod Idle
mod Tests
use pluvio.Reactor.{ReactorStatus, running, stopped}
use pluvio.Base.{
  ℕ, zero, suc, ◌+◌, ◌-◌, ◌%◌, ◌^◌, Bool, true, false, not, ◌&&◌, ◌||◌, Option, none, some, List,
  [], ◌∷◌, ◌++◌, ltb, leb, ◌==◌, if◌then◌else◌, Result, ok, err, Run, done, fault, panic, ◌>>=◌,
  Poll, ready, pending,
}

-- The result of a completion, an `i32`.
pub data ℤ : Type 0 where
  pos negsuc : ℕ → ℤ

-- What the reactor calls of the io_uring crate: `push` of an entry, which a full queue refuses, the length
-- of the submission queue, `need_wakeup`, `submit`, `sync`, `submit_and_wait`, and the entries of the
-- completion queue. `submit` and `submit_and_wait` give `none` where they return an `io::Error`.
pub record Ring (W : Type 0) : Type 0 where
  pub push : ℕ → W → Option W
  pub sq_len : W → ℕ
  pub need_wakeup : W → Bool
  pub submit : W → Option W
  pub sync : W → W
  pub submit_and_wait : ℕ → W → Option W
  pub completion : W → List (ℕ × ℤ) × W

pub record IoUringParams : Type 0 where
  pub submit_depth : ℕ
  pub wait_submit_timeout : ℕ
  pub wait_complete_timeout : ℕ
  pub sq_poll : Option ℕ

pub record HandleState : Type 0 where
  pub waker : Option ℕ
  pub result : Option (Result ℕ ℕ)

-- `cells` holds the states of the handles. `signals` counts the signals to the submit thread, and `woken`
-- lists the wakers called.
pub record IoUringReactor (W : Type 0) : Type 0 where
  pub ring : W
  pub completions : List ℕ
  pub user_data_counter : ℕ
  pub last_submit_time : ℕ
  pub io_uring_params : IoUringParams
  pub completed_count : ℕ
  pub submit_thread : Bool
  pub cells : ℕ → HandleState
  pub signals : ℕ
  pub woken : List ℕ

abbrev pub put : ℕ → HandleState → (ℕ → HandleState) → ℕ → HandleState
put i h f j = if j == i then h else f j

abbrev pub holds : ℕ → List ℕ → Bool
holds u [] = false
holds u (v ∷ vs) = if u == v then true else holds u vs

abbrev pub remove : ℕ → List ℕ → List ℕ
remove u [] = []
remove u (v ∷ vs) = if u == v then vs else v ∷ remove u vs

abbrev pub insert : ℕ → List ℕ → List ℕ
insert u vs = if holds u vs then vs else vs ++ u ∷ []

abbrev pub is_some {ℓ} : {A : Type ℓ} → Option A → Bool
is_some none = false
is_some (some a) = true

abbrev pub empty_handle : HandleState
empty_handle = record { waker = none; result = none }

-- `cqe.result()` as the result of the operation.
unfoldable pub outcome : ℤ → Result ℕ ℕ
outcome (pos n) = ok n
outcome (negsuc n) = err (suc n)

-- `WaitHandle::poll` of a handle by a waker.
unfoldable pub poll_wait :
    {W : Type 0} → ℕ → ℕ → IoUringReactor W → IoUringReactor W × Poll (Result ℕ ℕ)
poll_wait {W = W} u w s =
    let h = s.cells u in
    elim h.result as (λ x. IoUringReactor W × Poll (Result ℕ ℕ)) [
      | some r ↦ (record s { cells = put u (record h { result = none }) s.cells }, ready r)
      | none ↦ (record s { cells = put u (record h { waker = some w }) s.cells }, pending)
    ]

module _ {W : Type 0} where
  abbrev pub is_empty : IoUringReactor W → Bool
  is_empty s = elim s.completions [ [] ↦ true | u ∷ us ↦ false ]

  -- A completion whose `user_data` is unknown, or whose handle has no waker, is `unreachable!`.
  unfoldable pub complete_cqe : ℕ × ℤ → IoUringReactor W → Run (IoUringReactor W)
  complete_cqe (u, x) s =
      if holds u s.completions
      then elim (s.cells u).waker as (λ x. Run (IoUringReactor W)) [
        | none ↦ fault panic
        | some w ↦ done (record s {
          completions = remove u s.completions;
          completed_count = (s.completed_count + 1) % 2 ^ 64;
          cells = put u (record { waker = none; result = some (outcome x) }) s.cells;
          woken = s.woken ++ w ∷ [];
        })
      ]
      else fault panic

  unfoldable pub complete_all : List (ℕ × ℤ) → IoUringReactor W → Run (IoUringReactor W)
  complete_all [] s = done s
  complete_all (c ∷ cs) s = complete_cqe c s >>= complete_all cs

module _ {W : Type 0} (r : Ring W) where
  -- The new handle is named by its `user_data`.
  unfoldable pub push_sqe : IoUringReactor W → Run (IoUringReactor W × ℕ)
  push_sqe s =
      let u = s.user_data_counter in
      elim (r.push u s.ring) as (λ x. Run (IoUringReactor W × ℕ)) [
        | none ↦ fault panic
        | some w ↦ done (
          record s {
            ring = w;
            completions = insert u s.completions;
            user_data_counter = (u + 1) % 2 ^ 64;
            cells = put u empty_handle s.cells;
          },
          u,
        )
      ]

  -- `ring.submit().expect(..)`.
  unfoldable pub submit_now : IoUringReactor W → Run (IoUringReactor W)
  submit_now s = elim (r.submit s.ring) as (λ x. Run (IoUringReactor W)) [
    | none ↦ fault panic
    | some w ↦ done (record s { ring = w })
  ]

  -- The first half of a poll: entries that are pending are handed to the kernel, which is woken if it
  -- sleeps, or to the submit thread.
  unfoldable pub submitted : IoUringReactor W → Run (IoUringReactor W)
  submitted s =
      let has_pending_sqes = ltb 0 (r.sq_len s.ring) in
      if is_some (s.io_uring_params).sq_poll
      then (if has_pending_sqes && r.need_wakeup s.ring then submit_now s else done s)
      else (if has_pending_sqes
          then (if s.submit_thread
              then done (record s { ring = r.sync s.ring; signals = suc s.signals })
              else submit_now s)
          else done s)

  unfoldable pub submit_phase : ℕ → IoUringReactor W → Run (IoUringReactor W)
  submit_phase now s = do
    t ← submitted s
    done (if ltb 0 (r.sq_len s.ring) then record t { last_submit_time = now } else t)

  unfoldable pub poll_submit_and_completions : ℕ → IoUringReactor W → Run (IoUringReactor W)
  poll_submit_and_completions now s = do
    t ← submit_phase now s
    let (cqes, w) = r.completion t.ring
    complete_all cqes (record t { ring = w })

  -- `always_poll` is the environment variable PLUVIO_URING_ALWAYS_POLL.
  unfoldable pub status : Bool → ℕ → IoUringReactor W → ReactorStatus
  status always_poll now s =
      let p = s.io_uring_params in
      let has_pending_io = ltb s.completed_count s.user_data_counter in
      let has_pending_sqe = ltb 0 (r.sq_len s.ring) in
      let elapsed = now - s.last_submit_time in
      let late = has_pending_io && leb p.wait_complete_timeout elapsed in
      if always_poll
      then (if has_pending_sqe || has_pending_io then running else stopped)
      else (if is_some p.sq_poll
          then (if has_pending_sqe && r.need_wakeup s.ring
              then running
              else (if late then running else stopped))
          else (if leb p.submit_depth (r.sq_len s.ring)
                || (has_pending_sqe && leb p.wait_submit_timeout elapsed)
                || late
              then running
              else stopped))

  -- The call waits for no completion, as it asks for 0 of them; it submits what is pending.
  unfoldable pub wait_cqueue : IoUringReactor W → Run (IoUringReactor W × Bool)
  wait_cqueue s =
      if leb s.user_data_counter s.completed_count
      then done (s, false)
      else elim (r.submit_and_wait 0 s.ring) as (λ x. Run (IoUringReactor W × Bool)) [
        | none ↦ fault panic
        | some w ↦ done (record s { ring = w }, true)
      ]
