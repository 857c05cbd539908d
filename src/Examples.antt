-- ===== src/Examples.antt =====
-- Concrete runs on which the theorems hold, component by component.
mod Semaphore
mod RwMutex
mod Barrier
mod Shop
mod ReadRecursion
mod Future
mod HardwareConcurrency
mod Libuv
mod RwGuards
mod ThreadPriority
mod ThreadStart
mod SpinLock
mod SystemPools
