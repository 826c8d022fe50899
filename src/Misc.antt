-- ===== src/Misc.antt =====
-- common/misc: utils.cc and circular_queue.h.
pub mod Tests
pub mod Utils
pub mod CircularQueue
