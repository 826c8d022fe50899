-- ===== src/System.antt =====
-- common/system: thread_manager.cc, sync_server.cc and syscall_server.cc.
pub mod Tests
pub mod Threads
pub mod Sync
pub mod Futex
