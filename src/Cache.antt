-- ===== src/Cache.antt =====
-- common/core/memory_subsystem/cache: cache.cc, cache_base.cc, cache_set.cc and the policies.
pub mod Tests
-- common/core/memory_subsystem/cache: blocks, replacement policies, sets and whole caches.
pub mod Block
pub mod Policy
pub mod Address
pub mod Replacement
pub mod Set
pub mod Lines
