-- ===== src/Barrier.antt =====
-- threading/barrier.hpp: the two barriers on which a spread waits for its parts, and their spinning.
pub mod Spin
pub mod Futex
pub mod Generic
