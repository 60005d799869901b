-- ===== src/Collective.antt =====
-- pluvio_collective/src: the collective operations, as programs that all ranks run over one network.
mod Tags
mod Ops
mod Ranks
mod Bits
mod Spans
mod Allreduce
mod Adaptive
mod Keys
mod Matching
mod Lanes
mod Pipelined
mod Scatter
mod Bootstrap
mod Broadcast
mod Bruck
mod Doubling
mod Ring
mod Network
mod Turns
mod Agreement
mod Progress
mod Completion
mod Tests
