-- ===== src/System/Tests.antt =====
-- Runs of sync_server.cc with three threads.
use model_lib.Prelude.{
  All, Bool-cases, List, [], arith, false, get_elem?, get_or, inl, inr, none, refl, some, true, ℕ,
  ◌++◌, ◌==◌, ◌↔◌, ◌∷◌, ◌≡◌, ◌≢◌,
}
use model_lib.System.Threads.{
  Thread, CoreState, StallType, returns, waits, stall_thread, resume_thread,
}
use model_lib.System.Sync.Mutex.{
  Mutex, create_mutex, no_owner, lock, unlock, hand_over, lock_all, unlock_times,
}
use model_lib.System.Sync.Mutex.Queue.{claims, mutex_is_queue, lock-unlock_fifo}
use model_lib.System.Sync.Cond.{CondWaiter, Shared, mutex_at, broadcast}
use model_lib.System.Sync.Cond.Sound.{AllSound}
use model_lib.System.Sync.Cond.Order.{threads_for, broadcast_order}
use model_lib.System.Sync.Barrier.{create_barrier, wait, wait_all}
use model_lib.System.Sync.Barrier.Rounds.{Woken, barrier_round}
use model_lib.System.Sync.Server.{Server, create_server, get_mutex, mutex_lock, mutex_unlock}
use model_lib.System.Sync.Server.Starvation.{
  Step, here, then, no_waiter_of_free_mutex, locks, unlocks,
}
use model_lib.System.Sync.Server.TryLock.{try_lock_branches}

abbrev thread : Thread
thread = record {
  status = CoreState.running;
  stalled_reason = StallType.stall_unscheduled;
  waiter = 0;
  wakeup_time = 0;
}

abbrev threads : List Thread
threads = thread ∷ thread ∷ thread ∷ []

abbrev owned : Mutex
owned = record { waiting = 1 ∷ []; owner = 0 }

mutex_is_queue_example :
    (claims (lock owned 2 50 threads).1 ≡ claims owned ++ (2 ∷ []))
    × (((lock owned 2 50 threads).0 ≡ returns 50) ↔ (claims owned ≡ []))
    × ((unlock owned 2 50 threads ≢ none) ↔ (get_elem? (claims owned) 0 ≡ some 2))
    × ((next : ℕ) (m' : Mutex) (threads' : List Thread)
        → unlock owned 2 50 threads ≡ some (next, m', threads')
        → (claims owned ≡ 2 ∷ claims m') × (next ≡ get_or (claims m') 0 no_owner))
mutex_is_queue_example =
    mutex_is_queue owned 2 50 threads (λ e. absurd (omega (arith, e))) ((λ e. omega (arith, e)), tt)
      (λ e. omega (arith, e))

lock-unlock_fifo_example :
    ((lock_all create_mutex (2 ∷ 0 ∷ 1 ∷ []) 10 threads).0.owner ≡ 2)
    × ((threads' : List Thread) × (unlock_times 3
            (lock_all create_mutex (2 ∷ 0 ∷ 1 ∷ []) 10 threads).0
            20
            (lock_all create_mutex (2 ∷ 0 ∷ 1 ∷ []) 10 threads).1
          ≡ some (0 ∷ 1 ∷ no_owner ∷ [], create_mutex, threads')))
lock-unlock_fifo_example = lock-unlock_fifo 2 (0 ∷ 1 ∷ []) 10 20 threads (λ e. omega (arith, e))

abbrev shared : Shared
shared = record { mutexes = (64, owned) ∷ []; threads = threads }

abbrev waiters : List CondWaiter
waiters = record { thread = 2; mutex = 64 } ∷ record { thread = 5; mutex = 128 } ∷ []

shared-AllSound : AllSound shared
shared-AllSound m = elim (Bool-cases (64 == m)) [
  | inl e ↦ rw e ((λ f. absurd (omega (arith, f))), ((λ f. omega (arith, f)), tt))
  | inr e ↦ rw e ((λ f. refl), tt)
]

broadcast_order_example :
    ((broadcast waiters shared 30).0 ≡ [])
    × (claims (mutex_at (broadcast waiters shared 30).1 64)
        ≡ claims owned ++ threads_for 64 waiters)
broadcast_order_example =
    broadcast_order waiters shared 30 64 shared-AllSound
      ((λ e. omega (arith, e)), ((λ e. omega (arith, e)), tt))

barrier_round_example :
    let early = wait_all (create_barrier 3) ((2, 10) ∷ (0, 20) ∷ []) threads in
    let end = wait early.1 1 30 early.2 in
    (early.0 ≡ waits ∷ waits ∷ [])
    × (end.0 ≡ returns 30)
    × (end.1 ≡ create_barrier 3)
    × All (Woken 30 end.2) (2 ∷ 0 ∷ [])
barrier_round_example =
    barrier_round 3 ((2, 10) ∷ (0, 20) ∷ []) 1 30 threads refl (omega arith)
      (omega arith, (omega arith, tt))

abbrev server : Server
server = record { shared = shared; conds = []; barriers = []; reschedule_cost = 5 }

try_lock_branches_example :
    (owned.owner ≡ no_owner
      → (s' : Server) × (mutex_lock server 0 64 true 40 ≡ some (returns 45, true, s'))
        × (mutex_at s'.shared 64 ≡ owned))
    × (owned.owner ≢ no_owner
        → owned.owner ≢ 0
        → mutex_lock server 0 64 true 40 ≡ some (returns 40, false, server))
    × (owned.owner ≡ 0
        → (s' : Server) × (mutex_lock server 0 64 true 40 ≡ some (waits, true, s'))
          × (mutex_at s'.shared 64 ≡ record { waiting = 1 ∷ 0 ∷ []; owner = 0 }))
try_lock_branches_example = try_lock_branches server 0 64 40 owned refl (λ e. omega (arith, e))

abbrev fresh : Server
fresh = create_server 5 threads

-- The mutex at 64 after thread 0 has locked it.
abbrev locked : Server
locked = record fresh {
  shared = record { mutexes = (64, record { waiting = []; owner = 0 }) ∷ []; threads = threads };
}

lock-Step : Step fresh locked
unfolding mutex_lock get_mutex lock
lock-Step = locks 0 64 10 false true (returns 15) (λ e. omega (arith, e)) refl

abbrev with_one : Mutex → List Thread → Server
with_one m ts = record fresh { shared = record { mutexes = (64, m) ∷ []; threads = ts } }

abbrev stalled : List Thread
stalled = stall_thread 1 StallType.stall_mutex threads

abbrev resumed : List Thread
resumed = resume_thread 1 45 stalled

wait-Step : Step locked (with_one owned stalled)
unfolding mutex_lock get_mutex lock
wait-Step = locks 1 64 20 false true waits (λ e. omega (arith, e)) refl

hand_over-Step :
    Step (with_one owned stalled) (with_one (record { waiting = []; owner = 1 }) resumed)
unfolding mutex_unlock get_mutex unlock hand_over
hand_over-Step = unlocks 0 64 40 45 refl

free-Step :
    Step (with_one (record { waiting = []; owner = 1 }) resumed) (with_one create_mutex resumed)
unfolding mutex_unlock get_mutex unlock hand_over
free-Step = unlocks 1 64 50 50 refl

no_waiter_of_free_mutex_example : (mutex_at (with_one create_mutex resumed).shared 64).waiting ≡ []
no_waiter_of_free_mutex_example =
    no_waiter_of_free_mutex 5 threads (with_one create_mutex resumed) 64
      (then (then (then (then here lock-Step) wait-Step) hand_over-Step) free-Step) refl
