-- ===== src/Reactor.antt =====
-- pluvio_runtime/src/reactor/mod.rs: what a reactor tells the runtime of itself.
pub data ReactorStatus : Type 0 where
  running stopped : ReactorStatus
