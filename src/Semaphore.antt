-- ===== src/Semaphore.antt =====
-- threading/semaphore.hpp: the semaphore on a futex (futex_semaphore.cpp) and, in Condvar, on a
-- condition variable (generic_semaphore.cpp).
pub mod Futex
pub mod Invariant
pub mod Safety
pub mod Condvar
