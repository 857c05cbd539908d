-- ===== src/HardwareConcurrency.antt =====
-- threading/hardware_concurrency.cpp where PSI_SWEATER_DOCKER_LIMITS is set: the number of CPUs that
-- the process's control groups allow.
pub mod Text
pub mod Quota
pub mod Branch
pub mod Restrictive
pub mod Scan
pub mod Controllers
pub mod SelfCgroup
pub mod Docker
pub mod Limit
pub mod Reading
pub mod Agreement
pub mod Lines
pub mod Bound
