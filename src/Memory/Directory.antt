-- ===== src/Memory/Directory.antt =====
-- common/core/memory_subsystem/directory_schemes: the entries of a directory, the directory, and the
-- directory as a cache.
pub mod Entry
pub mod Store
pub mod Cache
