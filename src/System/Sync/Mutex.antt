-- ===== src/System/Sync/Mutex.antt =====
-- `SimMutex` of sync_server.h and sync_server.cc.
pub mod Sound
pub mod Queue
use model_lib.Prelude.{
  Bool, List, Option, [], false, guard, if◌then◌else◌, some, suc, true, zero, ℕ, ◌++◌, ◌-◌, ◌==◌,
  ◌>>=◌, ◌>>◌, ◌^◌, ◌∷◌,
}
use model_lib.System.Threads.{
  Thread, StallType, Outcome, returns, waits, stall_thread, resume_thread,
}

-- `NO_OWNER`
abbrev pub no_owner : ℕ
no_owner = 2 ^ 32 - 1

pub record Mutex : Type 0 where
  pub waiting : List ℕ
  pub owner : ℕ

abbrev pub create_mutex : Mutex
create_mutex = record { waiting = []; owner = no_owner }

pub is_locked : Mutex → ℕ → Bool
is_locked m thread =
    if m.owner == no_owner then false else if m.owner == thread then false else true

unfoldable pub lock : Mutex → ℕ → ℕ → List Thread → Outcome × Mutex × List Thread
lock m thread time threads =
    if m.owner == no_owner then (returns time, record m { owner = thread }, threads) else (
      waits,
      record m { waiting = m.waiting ++ (thread ∷ []) },
      stall_thread thread StallType.stall_mutex threads,
    )

-- `lock_async`: whether the thread took the lock and was woken.
pub lock_async : Mutex → ℕ → ℕ → List Thread → Bool × Mutex × List Thread
lock_async m thread time threads =
    if m.owner == no_owner
    then (true, record m { owner = thread }, resume_thread thread time threads)
    else (false, record m { waiting = m.waiting ++ (thread ∷ []) }, threads)

-- The body of `unlock` after its `assert`: the next owner.
unfoldable pub hand_over : List ℕ → ℕ → List Thread → ℕ × Mutex × List Thread
hand_over [] time threads = (no_owner, create_mutex, threads)
hand_over (waiter ∷ rest) time threads =
    (waiter, record { waiting = rest; owner = waiter }, resume_thread waiter time threads)

unfoldable pub unlock : Mutex → ℕ → ℕ → List Thread → Option (ℕ × Mutex × List Thread)
unlock m thread time threads = do guard (m.owner == thread); some (hand_over m.waiting time threads)

-- The threads of a list lock one after the other.
abbrev pub lock_all : Mutex → List ℕ → ℕ → List Thread → Mutex × List Thread
lock_all m [] time threads = (m, threads)
lock_all m (id ∷ ids) time threads = let r = lock m id time threads in lock_all r.1 ids time r.2

-- The owner unlocks, and so on `n` times: the owners that follow, and the mutex.
abbrev pub unlock_times : ℕ → Mutex → ℕ → List Thread → Option (List ℕ × Mutex × List Thread)
unlock_times zero m time threads = some ([], m, threads)
unlock_times (suc n) m time threads = do
  r ← unlock m m.owner time threads
  q ← unlock_times n r.1 time r.2
  some (r.0 ∷ q.0, q.1, q.2)
