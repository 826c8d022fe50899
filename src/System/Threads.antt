-- ===== src/System/Threads.antt =====
-- thread_manager.h, thread_manager.cc and thread.h: which threads run, as far as stalls and wake-ups
-- go. The hooks, and the clock skew server that advances while no thread runs, are left out.
use model_lib.Prelude.{List, get_or, set, ℕ, ◌%◌, ◌+◌, ◌-◌, ◌^◌}

-- `Core::State`
pub data CoreState : Type 0 where
  running initializing stalled sleeping waking_up idle broken : CoreState

-- `ThreadManager::stall_type_t`
pub data StallType : Type 0 where
  stall_unscheduled stall_broken stall_join stall_mutex stall_cond stall_barrier : StallType
  stall_futex stall_pause stall_sleep : StallType

-- `ThreadManager::ThreadState` and the wake-up time of the `Thread`.
pub record Thread : Type 0 where
  pub status : CoreState
  pub stalled_reason : StallType
  pub waiter : ℕ
  pub wakeup_time : ℕ

-- `(thread_id_t) -1`
abbrev pub invalid_thread_id : ℕ
invalid_thread_id = 2 ^ 32 - 1

-- An id past the end; the source never looks one up.
abbrev pub no_thread : Thread
no_thread = record {
  status = CoreState.idle;
  stalled_reason = StallType.stall_unscheduled;
  waiter = invalid_thread_id;
  wakeup_time = 0;
}

abbrev pub thread_at : List Thread → ℕ → Thread
thread_at threads i = get_or threads i no_thread

-- `SubsecondTime` counts femtoseconds in 64 bits.
abbrev pub plus : ℕ → ℕ → ℕ
plus a b = (a + b) % 2 ^ 64

-- How a call that may stall its thread ends: it returns, or the thread waits until it is resumed and
-- the call then returns its wake-up time.
pub data Outcome : Type 0 where
  returns : ℕ → Outcome
  waits : Outcome

-- `stallThread_async`
abbrev pub stall_thread : ℕ → StallType → List Thread → List Thread
stall_thread id reason threads =
    set threads id
      (record (thread_at threads id) { status = CoreState.stalled; stalled_reason = reason })

-- `resumeThread` with `Thread::signal`
abbrev pub resume_thread : ℕ → ℕ → List Thread → List Thread
resume_thread id time threads =
    set threads id
      (record (thread_at threads id) { status = CoreState.running; wakeup_time = time })

-- What `stallThread` returns once the thread is resumed.
abbrev pub woken_at : ℕ → List Thread → ℕ
woken_at id threads = (thread_at threads id).wakeup_time
