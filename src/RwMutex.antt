-- ===== src/RwMutex.antt =====
-- threading/futex_rw_mutex.{hpp,cpp}: the readers-writer lock on one futex word.
pub mod Word
pub mod Futex
pub mod Invariant
pub mod Safety
