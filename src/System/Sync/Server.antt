-- ===== src/System/Sync/Server.antt =====
-- `SyncServer` of sync_server.h and sync_server.cc. Each handler runs as one step, since it holds the
-- thread manager's lock; a call that stalls its thread is the step up to the wait.
pub mod Starvation
pub mod TryLock
use model_lib.Prelude.{
  Bool, List, Option, [], false, get_elem?, if◌then◌else◌, length, none, set, some, true, ℕ, ◌&&◌,
  ◌++◌, ◌==◌, ◌>>=◌, ◌∷◌,
}
use model_lib.System.Threads.{Thread, Outcome, returns, waits, plus}
use model_lib.System.Sync.Mutex.{create_mutex, no_owner, is_locked, lock, unlock}
use model_lib.System.Sync.Cond
use model_lib.System.Sync.Cond.{
  CondWaiter, Shared, lookup, lookup_or, store, mutex_at, with_mutex, signal, broadcast,
}
use model_lib.System.Sync.Barrier
use model_lib.System.Sync.Barrier.{Barrier, create_barrier}

-- `m_reschedule_cost`, the tables and the threads.
pub record Server : Type 0 where
  pub shared : Shared
  pub conds : List (ℕ × List CondWaiter)
  pub barriers : List Barrier
  pub reschedule_cost : ℕ

abbrev pub create_server : ℕ → List Thread → Server
create_server cost threads = record {
  shared = record { mutexes = []; threads = threads };
  conds = [];
  barriers = [];
  reschedule_cost = cost;
}

-- `getMutex`: the mutex is created where `can_create` says so.
unfoldable pub get_mutex : Shared → ℕ → Bool → Option Shared
get_mutex s mux can_create = elim (lookup s.mutexes mux) [
  | some m ↦ some s
  | none ↦
      if can_create then some (record s { mutexes = store s.mutexes mux create_mutex }) else none
]

-- `getCond`
pub get_cond : List (ℕ × List CondWaiter) → ℕ → List (ℕ × List CondWaiter)
get_cond conds cond = elim (lookup conds cond) [ some ws ↦ conds | none ↦ store conds cond [] ]

-- `time_end + m_reschedule_cost`, for a thread that waits once it is resumed.
abbrev pub after_lock : Outcome → ℕ → Outcome
after_lock (returns time) cost = returns (plus time cost)
after_lock waits cost = waits

pub mutex_init : Server → ℕ → Option Server
mutex_init s mux = do shared ← get_mutex s.shared mux true; some (record s { shared = shared })

unfoldable pub mutex_lock : Server → ℕ → ℕ → Bool → ℕ → Option (Outcome × Bool × Server)
mutex_lock s thread mux try_lock time = do
  shared ← get_mutex s.shared mux true
  let r = lock (mutex_at shared mux) thread time shared.threads
  some (
      if try_lock && is_locked (mutex_at shared mux) thread
      then (returns time, false, record s { shared = shared })
      else (
        after_lock r.0 s.reschedule_cost,
        true,
        record s { shared = with_mutex shared mux (r.1, r.2) },
      ))

unfoldable pub mutex_unlock : Server → ℕ → ℕ → ℕ → Option (ℕ × Server)
mutex_unlock s thread mux time = do
  shared ← get_mutex s.shared mux false
  r ← unlock (mutex_at shared mux) thread (plus time s.reschedule_cost) shared.threads
  some (
    plus time (if r.0 == no_owner then 0 else s.reschedule_cost),
    record s { shared = with_mutex shared mux (r.1, r.2) },
  )

pub cond_init : Server → ℕ → Server
cond_init s cond = record s { conds = get_cond s.conds cond }

pub cond_wait : Server → ℕ → ℕ → ℕ → ℕ → Option (Outcome × Server)
cond_wait s thread cond mux time = do
  shared ← get_mutex s.shared mux true
  let conds = get_cond s.conds cond
  r ← Cond.wait (lookup_or conds cond []) shared thread time mux
  some (r.0, record s { shared = r.2; conds = store conds cond r.1 })

pub cond_signal : Server → ℕ → ℕ → Server
cond_signal s cond time =
    let conds = get_cond s.conds cond in
    let r = signal (lookup_or conds cond []) s.shared time in
    record s { shared = r.2; conds = store conds cond r.1 }

pub cond_broadcast : Server → ℕ → ℕ → Server
cond_broadcast s cond time =
    let conds = get_cond s.conds cond in
    let r = broadcast (lookup_or conds cond []) s.shared time in
    record s { shared = r.1; conds = store conds cond r.0 }

-- `barrierInit`: the number of the new barrier.
pub barrier_init : Server → ℕ → ℕ × Server
barrier_init s count =
    (length s.barriers, record s { barriers = s.barriers ++ (create_barrier count ∷ []) })

pub barrier_wait : Server → ℕ → ℕ → ℕ → Option (Outcome × Server)
barrier_wait s thread barrier time = do
  b ← get_elem? s.barriers barrier
  let r = Barrier.wait b thread time s.shared.threads
  some (
    r.0,
    record s {
      shared = record { mutexes = s.shared.mutexes; threads = r.2 };
      barriers = set s.barriers barrier r.1;
    },
  )
