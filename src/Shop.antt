-- ===== src/Shop.antt =====
-- include/psi/sweater/impls/generic.{hpp,cpp}: the shop that owns its worker threads.
pub mod Control
pub mod Config
pub mod Effects
pub mod Dispatch
pub mod Spread
pub mod Ranges
pub mod Sharing
pub mod HandOut
pub mod Cover
pub mod Chunked
pub mod Arrivals
pub mod Joined
pub mod Items
pub mod Wake
pub mod Fire
pub mod Pool
pub mod Sizing
pub mod Lifetime
