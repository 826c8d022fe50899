-- ===== src/Memory.antt =====
-- common/core/memory_subsystem: the directory and its controller, the translation buffers and a
-- prefetcher.
pub mod Tests
pub mod Run
pub mod RequestQueues
pub mod Tlb
pub mod Ghb
pub mod Directory
pub mod Controller
