-- ===== src/Mpi/Calls.antt =====
-- pluvio_collective/src/mpi_backend: the futures of the collectives, allreduce.rs, allgather.rs, broadcast.rs
-- and scatter.rs. They differ in their guards and in the call of MPI; its nonblocking calls are given: what
-- they answer, and the library's state after.
use pluvio.Base.{
  ℕ, ◌*◌, ◌%◌, ◌^◌, Option, none, some, ◌==◌, if◌then◌else◌, Result, ok, err, Poll, ready, pending,
}
use pluvio.AmRouter.Header.{CollectiveError, bad_shape, protocol}
use pluvio.Mpi.{MpiReactor, register}

-- `as i32`, by its bits.
abbrev pub as_i32 : ℕ → ℕ
as_i32 n = n % 2 ^ 32

-- The nonblocking calls, without the buffers.
pub data MpiCall : Type 0 where
  iallreduce : (count op : ℕ) → MpiCall
  ibcast : (count root : ℕ) → MpiCall
  iallgather : (send_count recv_count : ℕ) → MpiCall
  iscatter : (send_count recv_count root : ℕ) → MpiCall

-- The three `State`s. A slot goes by number.
pub data State : Type 0 where
  not_started finished : State
  in_flight : ℕ → State

pub record MpiFuture : Type 0 where
  pub operation : MpiCall
  pub state : State

unfoldable pub new_allreduce : (len op : ℕ) → MpiFuture
new_allreduce len op = record { operation = iallreduce (as_i32 len) op; state = not_started }

unfoldable pub new_broadcast : (len root : ℕ) → MpiFuture
new_broadcast len root = record {
  operation = ibcast (as_i32 len) (as_i32 root);
  state = not_started;
}

unfoldable pub new_allgather : (send_len recv_len size : ℕ) → Result MpiFuture CollectiveError
new_allgather send_len recv_len size =
    if recv_len == send_len * size
    then ok
        (record { operation = iallgather (as_i32 send_len) (as_i32 send_len); state = not_started })
    else err bad_shape

-- `send` is the length of the buffer to send, if there is one; only the root looks at it.
unfoldable pub new_scatter :
    (send : Option ℕ) (recv_len root rank size : ℕ) → Result MpiFuture CollectiveError
new_scatter send recv_len root rank size =
    if rank == root
    then (elim send as (λ x. Result MpiFuture CollectiveError) [
      | none ↦ err protocol
      | some send_len ↦
          if send_len == recv_len * size
          then ok (record {
            operation = iscatter (as_i32 recv_len) (as_i32 recv_len) (as_i32 root);
            state = not_started;
          })
          else err bad_shape
    ])
    else ok (record { operation = iscatter 0 (as_i32 recv_len) (as_i32 root); state = not_started })

-- What a poll answers; an error of MPI goes by its number.
abbrev pub Answer : Type 0
Answer = Poll (Result (Unit {0}) ℕ)

module _ {L : Type 0} where
  -- `poll`, the same in all four. The call answers with a request, or with an error's number.
  unfoldable pub poll_call :
      (L → MpiCall → L × Result ℕ ℕ)
      → (waker : ℕ) → MpiFuture
      → MpiReactor L
      → MpiFuture × MpiReactor L × Answer
  poll_call nonblocking waker f r = elim f.state as (λ x. MpiFuture × MpiReactor L × Answer) [
    | not_started ↦
        let (mpi, answer) = nonblocking r.mpi f.operation in
        let called : MpiReactor L = record r { mpi = mpi } in
        elim answer as (λ x. MpiFuture × MpiReactor L × Answer) [
          | err rc ↦ (f, called, ready (err rc))
          | ok req ↦
              let (r', slot) = register req waker called in
              (record f { state = in_flight slot }, r', pending)
        ]
    | finished ↦ (f, r, ready (ok tt))
    | in_flight slot ↦
        if r.is_done slot
        then (record f { state = finished }, r, ready (ok tt))
        else (f, r, pending)
  ]
