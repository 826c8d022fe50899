-- ===== src/System/Sync.antt =====
-- sync_server.h and sync_server.cc: a child for each class.
pub mod Mutex
pub mod Cond
pub mod Barrier
pub mod Server
