-- ===== src/Memory/Controller.antt =====
-- The directory controller of pr_l1_pr_l2_dram_directory_msi.
pub mod State
pub mod Retrieve
pub mod Allocate
pub mod Requests
pub mod Replies
pub mod Handle
pub mod Coherent
pub mod Invariant
pub mod Safety
pub mod Messages
pub mod WriteMiss
mod Tests
