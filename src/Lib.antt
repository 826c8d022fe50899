-- ===== src/Lib.antt =====
-- A model of parts of the Sniper multicore simulator, eecs583-pjct/sniper-5.2/. Paths below start
-- at eecs583-pjct/sniper-5.2/common/.
--
-- The simulator runs an application's threads on simulated cores. Each core sends its memory
-- accesses to caches (core/memory_subsystem/cache/), which answer from their sets and choose a line
-- to replace by a policy. A miss goes to the directory controller of the block's home, which keeps
-- the owner and the sharers of each block and queues requests for it. Calls of the application's
-- mutexes, condition variables and barriers go to a server (system/sync_server.cc), and its futex
-- calls and sleeps to another (system/syscall_server.cc); both stall and resume threads through the
-- thread manager. Performance models pass instructions on through circular queues
-- (misc/circular_queue.h).
--
-- Prelude: the library names that all files share; Boolean tests and the `Option` chain (Tests),
--   lists measured by native numbers (Lists), facts on masks (Bits).
-- Misc: Utils is misc/utils.cc (`floorLog2`, `ceilLog2`); CircularQueue is misc/circular_queue.h,
--   with the slots around the ring (Slots), the list of elements that a queue holds (Refine) and
--   the operations against it (Fifo).
-- Cache: Block is cache_state.h and cache_block_info.h. Policy has a child for each cache_set_*.cc;
--   Ways and Ages hold the searches and the ageing that several of them write out. Replacement
--   stands for the virtual functions of cache_set.h and for `createCacheSet`. Address is
--   cache_base.cc with the hashes of misc/rng.h, core/memory_subsystem/address_home_lookup.cc
--   (`getTag`). Set is cache_set.cc and Lines is cache.cc: `find` is `find`, `insert` is
--   `CacheSet::insert`, `insert_single_line` is `insertSingleLine`, `peek_single_line` is
--   `peekSingleLine`, and so on. Their children look at a set as a map from tags to ways (Lookup,
--   Contents), at the cache as a map from addresses to lines (Sound, Contents), at whether an
--   insertion returns (Total), and at bytes (Data).
-- System: Threads is the part of system/thread_manager.cc and thread.h that stalls and resumes
--   threads. Sync is system/sync_server.cc: Mutex, Cond and Barrier are `SimMutex`, `SimCond` and
--   `SimBarrier`, and Server has one function for each handler of `SyncServer`; Server/Starvation
--   has the handlers as steps of a relation. Futex is system/syscall_server.cc: Queue has the
--   operations of `SimFutex`, DoOp is `futexDoOp`, and Futex itself has the calls of
--   `SyscallServer`. Its theorems are about the order of wake-ups (Wake), what a woken thread's
--   call returns (Resumed), `futexWake` (Calls), FUTEX_CMP_REQUEUE (Requeue), and the periodic hook
--   (Due, Timeout) and the next timeout (Timeout). The table of futexes is a list in the order of
--   the source's iteration, with physical addresses for keys.
-- Performance: HistoryList is performance_model/queue_model_history_list.cc, the free intervals of
--   a shared resource: the time that a request gets (Slots), the pieces that stay free (Left) and
--   whole calls (Answers). Contention is performance_model/contention_model.cc, a resource with a
--   number of slots: when a request starts (Start), and requests that wait for all slots (Fence).
-- Memory: Directory is core/memory_subsystem/directory_schemes/. Its child Entry is
--   directory_entry.h with its two subclasses: the sharers as a set (Sharers), the software trap
--   (Trap). Store is directory.cc, the array of entries; Cache is
--   pr_l1_pr_l2_dram_directory_msi/dram_directory_cache.cc: properties of all entries (Every), and
--   finding an entry again (Slots, Lookup). Tlb is parametric_dram_directory_msi/tlb.cc, a chain of
--   caches of pages (Fill). Ghb is parametric_dram_directory_msi/ghb_prefetcher.cc: its reads are
--   within bounds (Bounds), also after an update (Recording). RequestQueues is
--   cache/req_queue_list_template.h: the queues as lists (Fifo), their lengths (Sizes), properties
--   of all requests (Each). Controller is pr_l1_pr_l2_dram_directory_msi/dram_directory_cntlr.cc,
--   the home of a block in the MSI, MESI and MESIF protocols: messages and state (State), fetching
--   a block (Retrieve), entries and their replacement (Allocate), the handlers of requests
--   (Requests) and of replies (Replies), and the entry points with `processNextReqFromL2Cache`
--   (Handle). A handler takes that function as its parameter `next`, since the two call each other.
--   Its theorems say when an entry is coherent (Coherent), that every handler keeps that
--   (Invariant, a child for each group of handlers), what follows for runs (Safety), whom the
--   controller writes to (Messages) and how a write miss ends (WriteMiss, with its steps in Asked).
--   Run is the result of a call, with rules for its value. The controller is given the NUCA cache
--   as an interface, and `m_forwarder_id`, which no constructor sets, as a parameter.
--
-- Conventions. A name such as `getReplacementIndex` becomes `get_replacement_index`. State goes in
-- and comes out: a call returns its result with the changed records. `none`, or `failed` in the
-- directory controller, stands for a run that ends in `assert`, `LOG_ASSERT_ERROR` or
-- `LOG_PRINT_ERROR`, or for a null pointer where a comment says so. Words keep their wrap-around,
-- `% 2 ^ w`. Locks are left out: what they guard runs as one step.
--
-- Loops are structural recursion on the array or on a count, with four exceptions.
-- `processNextReqFromL2Cache` has a fuel of one more than the requests of its address; a run that
-- ends it is told apart from one that fails. The round-robin policy calls itself, at most once for
-- each way where some way is replaceable, so the number of ways is its fuel. The random policy
-- calls itself without a bound; its fuel is the number of draws, and one is enough where all lines
-- are replaceable. The requeueing loop of FUTEX_CMP_REQUEUE has a fuel of one more than the waiters
-- of its futex.
--
-- Not modelled: the fault injector, statistics, hooks and the usage bits of a line; the subclasses
-- of `CacheBlockInfo`; the clock skew server, whose barrier advances time while no thread runs;
-- spawning and joining of threads; the cache side of the coherence protocols, the times of their
-- messages, networks, branch predictors and core models.
pub mod Prelude
pub mod Misc
pub mod Cache
pub mod System
pub mod Performance
pub mod Memory
