-- ===== src/System/Sync/Cond.antt =====
-- `SimCond` of sync_server.h and sync_server.cc. A waiter's pointer to its mutex is the mutex's address
-- in the table of mutexes, whose entries stay.
pub mod Sound
pub mod Order
use model_lib.Prelude.{Bool, List, Option, [], if◌then◌else◌, none, some, ℕ, ◌++◌, ◌==◌, ◌>>=◌, ◌∷◌}
use model_lib.System.Threads.{Thread, StallType, Outcome, waits, stall_thread, invalid_thread_id}
use model_lib.System.Sync.Mutex.{Mutex, create_mutex, lock_async, unlock}

-- A table with one entry for each address.
module _ {ℓ} {A : Type ℓ} where
  abbrev pub lookup : List (ℕ × A) → ℕ → Option A
  lookup [] key = none
  lookup ((k, v) ∷ rest) key = if k == key then some v else lookup rest key

  abbrev pub lookup_or : List (ℕ × A) → ℕ → A → A
  lookup_or [] key d = d
  lookup_or ((k, v) ∷ rest) key d = if k == key then v else lookup_or rest key d

  abbrev pub store : List (ℕ × A) → ℕ → A → List (ℕ × A)
  store [] key v = (key, v) ∷ []
  store ((k, w) ∷ rest) key v = if k == key then (k, v) ∷ rest else (k, w) ∷ store rest key v

-- `CondWaiter`
pub record CondWaiter : Type 0 where
  pub thread : ℕ
  pub mutex : ℕ

-- The mutexes and the threads, which every call shares.
pub record Shared : Type 0 where
  pub mutexes : List (ℕ × Mutex)
  pub threads : List Thread

abbrev pub mutex_at : Shared → ℕ → Mutex
mutex_at s m = lookup_or s.mutexes m create_mutex

-- The effect of a call on the mutex at an address.
abbrev pub with_mutex : Shared → ℕ → Mutex × List Thread → Shared
with_mutex s m r = record { mutexes = store s.mutexes m r.0; threads = r.1 }

-- `wait`; the queue of waiters goes in and out.
pub wait : List CondWaiter → Shared → ℕ → ℕ → ℕ → Option (Outcome × List CondWaiter × Shared)
wait waiting s thread time m = do
  r ← unlock (mutex_at s m) thread time s.threads
  let s' = with_mutex s m (r.1, r.2)
  some (
    waits,
    waiting ++ (record { thread = thread; mutex = m } ∷ []),
    record s' { threads = stall_thread thread StallType.stall_cond s'.threads },
  )

-- `woken.m_mutex->lock_async(woken.m_thread_id, thread_id, time)`
abbrev pub wake : Shared → CondWaiter → ℕ → Bool × Shared
wake s w time =
    let r = lock_async (mutex_at s w.mutex) w.thread time s.threads in
    (r.0, with_mutex s w.mutex (r.1, r.2))

-- `signal`: the thread that was woken and owns its mutex.
pub signal : List CondWaiter → Shared → ℕ → ℕ × List CondWaiter × Shared
signal [] s time = (invalid_thread_id, [], s)
signal (woken ∷ rest) s time =
    let r = wake s woken time in (if r.0 then woken.thread else invalid_thread_id, rest, r.1)

-- The loop of `broadcast`, which empties the queue.
pub broadcast : List CondWaiter → Shared → ℕ → List CondWaiter × Shared
broadcast [] s time = ([], s)
broadcast (woken ∷ rest) s time = broadcast rest (wake s woken time).1 time
