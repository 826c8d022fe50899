-- ===== src/Performance.antt =====
-- common/performance_model: queue_model_history_list.cc and contention_model.cc.
pub mod Tests
pub mod HistoryList
pub mod Contention
