-- ===== src/Memory/Controller/Invariant.antt =====
-- That the handlers keep every entry of the directory coherent, and do not call one another deeper than
-- there are requests for an address.
pub mod Serving
pub mod Allocation
pub mod Exclusive
pub mod Shared
pub mod Upgrade
pub mod Replies
pub mod Runs
