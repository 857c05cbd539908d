-- ===== src/Future.antt =====
-- threading/future.hpp and threading/outcome_future.hpp: a promise and a future over one slot.
pub mod Lite
pub mod OutcomeFuture
