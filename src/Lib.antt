-- ===== src/Lib.antt =====
-- Pluvio: an asynchronous runtime for one thread, with reactors for timers, io_uring and UCX, and
-- collective operations on top of them. These modules model the parts that decide what runs, what is
-- woken and what is delivered.
--
-- Parts, and how they interact. The runtime (pluvio_runtime/src/executor/mod.rs) keeps its tasks in a
-- slab. A waker sends a task's id to one of two channels (pluvio_runtime/src/executor/spsc.rs), and an
-- iteration of the event loop polls the reactors that say that they run, then the tasks whose ids it
-- takes from the channels. The timer reactor (pluvio_timer/src/lib.rs) wakes what is due. The UCX reactor
-- (pluvio_ucx/src) says that it runs while a worker is not inactive. The collectives receive through the
-- router of active messages (pluvio_collective/src/ucx_backend/am_router.rs).
--
--   Base: names of the libraries, Boolean tests, lists measured by native numbers, `Run` for code that may
--     panic, `Poll` and `Result`.
--   Reactor: `ReactorStatus` (pluvio_runtime/src/reactor/mod.rs).
--   Spsc: the channel's ring `Inner`, an operation for each function. Spsc/Queue is the abstract FIFO
--     queue; Spsc/Window and Spsc/Shape relate the ring's slots to it, Spsc/Refine and Spsc/Receive
--     its methods, and Spsc/Traces, Spsc/Lives and Spsc/Waiting its runs.
--   Timer, with Timer/Handle: `TimerReactor`, `Delay` and `Timeout`; the BTreeMap is a sorted list
--     (Timer/Order). Timer/Expiry is about one call, Timer/Lifetimes about runs and futures.
--   Executor: state, tasks and reactors. Executor/Loop: `run_queue`, `block_on_with_name_and_runtime` and
--     `progress`. Executor/Pool: the interface of the slab crate, with the laws that its documentation
--     states. Executor/Sound: what holds between two polls. Executor/Runs, Executor/Fairness
--     and Executor/Progress: whole runs.
--   Tasks: the state that a task shares with its `JoinHandle` (pluvio_runtime/src/task/mod.rs), and in
--     Tasks/Joining what the handle answers. Select: `Select2` (pluvio_runtime/src/select.rs); Select/Races.
--   Track: track ids and the tracked future (pluvio_runtime/src/track.rs); Track/Sharing is about runs.
--   AmRouter, with AmRouter/Header and AmRouter/Slots: headers, slots and futures. AmRouter/Delivery is
--     about one receive, AmRouter/Dispatch about the dispatcher.
--   Ucx: a worker's states and the reactor's count. Ucx/Counting and Ucx/Overlap are about runs.
--   Allocator: the pool of fixed buffers (pluvio_uring/src/allocator.rs), `LazyAcquire` and the drop of a
--     buffer; Allocator/Conservation and Allocator/Waiting are about runs.
--   Uring: the io_uring reactor (pluvio_uring/src/reactor.rs), its handles and its status; the ring of the
--     io_uring crate is the parameter `Ring`, with the laws `Laws` of Uring/Balance. Uring/Waiting is about
--     completions, Uring/Delivery about a poll, a push and the status, Uring/Idle about `wait_cqueue`.
--   Mpi: the reactor of MPI requests (pluvio_collective/src/mpi_backend/reactor.rs); Mpi/Polling. Mpi/Calls: the
--     futures of the collectives beside it; Mpi/Slots, Mpi/Lifetimes and Mpi/Runs follow one request.
--   Collective: the collectives (pluvio_collective/src/ucx_backend, op.rs beside it). Collective/Network is
--     the network: all ranks run one program of rounds, `Protocol`, and a schedule says whose turn is next.
--     Collective/Turns, Collective/Agreement, Collective/Progress and Collective/Completion are about any
--     such program. Collective/Ops is the reduction, Collective/Tags and Collective/Keys what messages are
--     matched by, Collective/Bits and Collective/Ranks the arithmetic of ranks. Collective/Ring is ring.rs,
--     Collective/Doubling recursive_doubling.rs, Collective/Bruck bruck.rs, Collective/Broadcast
--     broadcast.rs and Collective/Scatter scatter.rs, each with its guards as a function into `Result`,
--     whose `ok (some p)` is the program of rounds and whose `ok none` is a return without communication.
--     Collective/Matching is about the tags of the ring and of recursive doubling.
--     Collective/Allreduce, with Collective/Spans, is the sequential reduction that they compute.
--     Collective/Pipelined is pipelined_ring.rs; Collective/Lanes runs its chains, and
--     Collective/Lanes/Views and Collective/Lanes/Seen show each of them as a program of rounds on a network
--     of its own. Collective/Adaptive is the choice among the allreduces by adaptive.rs, and
--     Collective/Bootstrap the exchange of addresses by bootstrap.rs.
--
-- Conventions. Wakers, buffers and flags go by number, and times are numbers. A word keeps its
-- wrap-around. A future and a reactor are what their polls answer: a record `Env` in the runtime, a
-- parameter in `Timeout`. `Run` has a fault for each panic, abort and read of an empty slot.
--
-- In a collective, a buffer is the list of its elements, all ranks call with what the theorem says, UCX
-- delivers each message once and unchanged to the receive of its key, and no call of UCX fails. A send is
-- done once it is posted, where `run_send_recv` of ring.rs waits for it too, so that a rank's round ends when
-- its receive is done; the receives of the ranks end in any order.
--
-- Bounds and fuel. `run_queue` and `block_on` are loops without a bound in the code, so they run on fuel,
-- and a result says whether it was used up; a loop that makes no progress needs fuel for one turn
-- more than `max_stuck_iterations`. The channel's `drop_inner` runs on as many steps as there are elements,
-- and the poll of the MPI reactor on one more than there are requests. The loop of Bruck's allgather
-- gains a contribution in each round, so that as many rounds as there are ranks are enough. `recv_deadline`
-- needs one round more than there are readings of the clock before the deadline. Counts of
-- iterations and of polls are taken to stay below 2 ^ 64, and so is the count of senders, each of which is a
-- value in memory.
--
-- Not modelled: calls of io_uring, UCX and MPI, log lines, sleeps, statistics of time, thread-local
-- instances, and the parts that are not named above.
pub mod Base
pub mod Reactor
pub mod Spsc
pub mod Timer
pub mod Executor
pub mod AmRouter
pub mod Ucx
pub mod Allocator
pub mod Mpi
pub mod Collective
pub mod Uring
pub mod Tasks
pub mod Select
pub mod Track
