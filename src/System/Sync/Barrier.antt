-- ===== src/System/Sync/Barrier.antt =====
-- `SimBarrier` of sync_server.h and sync_server.cc.
pub mod Rounds
use model_lib.Prelude.{List, [], if◌then◌else◌, length, ℕ, ◌%◌, ◌++◌, ◌+◌, ◌-◌, ◌==◌, ◌^◌, ◌∷◌}
use model_lib.System.Threads.{
  Thread, StallType, Outcome, returns, waits, stall_thread, resume_thread,
}

pub record Barrier : Type 0 where
  pub waiting : List ℕ
  pub count : ℕ

abbrev pub create_barrier : ℕ → Barrier
create_barrier count = record { waiting = []; count = count }

-- The loop that resumes all the threads stalled at the barrier.
abbrev pub resume_all : List ℕ → ℕ → List Thread → List Thread
resume_all [] time threads = threads
resume_all (waiter ∷ rest) time threads = resume_all rest time (resume_thread waiter time threads)

-- `m_count - 1` wraps around in 32 bits.
pub wait : Barrier → ℕ → ℕ → List Thread → Outcome × Barrier × List Thread
wait b thread time threads =
    if length b.waiting == (b.count + (2 ^ 32 - 1)) % 2 ^ 32
    then (returns time, record b { waiting = [] }, resume_all b.waiting time threads)
    else (
      waits,
      record b { waiting = b.waiting ++ (thread ∷ []) },
      stall_thread thread StallType.stall_barrier threads,
    )

-- Threads that arrive one after the other: how each call ends, and the barrier.
abbrev pub wait_all : Barrier → List (ℕ × ℕ) → List Thread → List Outcome × Barrier × List Thread
wait_all b [] threads = ([], b, threads)
wait_all b ((thread, time) ∷ rest) threads =
    let r = wait b thread time threads in let q = wait_all r.1 rest r.2 in (r.0 ∷ q.0, q.1, q.2)
