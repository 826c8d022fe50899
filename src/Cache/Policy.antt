-- ===== src/Cache/Policy.antt =====
-- The replacement policies of cache_set_*.cc. A child for each policy class, with its state and the
-- functions `getReplacementIndex` and `updateReplacementIndex`; `Ways` holds what they share.
pub mod Tests
pub mod PointerTests
pub mod Ways
pub mod Ages
pub mod Lru
pub mod Mru
pub mod Nmru
pub mod Nru
pub mod RoundRobin
pub mod Plru
pub mod Srrip
pub mod Random
