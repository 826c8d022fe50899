-- ===== src/System/Futex/Tests.antt =====
-- Runs of syscall_server.cc with four threads.
use model_lib.Prelude.{All, List, [], arith, drop, false, length, none, refl, ℕ, ◌<◌, ◌∷◌, ◌≡◌, ◌≢◌}
use model_lib.Memory.Run.{done, exhausted}
use model_lib.System.Threads.{Thread, CoreState, StallType}
use model_lib.System.Futex.Queue.{Waiter, matches, match_any}
use model_lib.System.Futex.{
  SyscallServer, FutexArgs, FutexCommand, finished, waiters_at, futex_wake, handle_futex_call,
  requeue_all,
}
use model_lib.System.Futex.Wake.{filter, others, resume_each}
use model_lib.System.Futex.Resumed.{ids, Returns, Expires}
use model_lib.System.Futex.Calls.{called, futex_wake_lem}
use model_lib.System.Futex.Due.{AreResumed, periodics, due_in_runs}
use model_lib.System.Futex.Timeout.{periodic_resumes_due}
use model_lib.System.Futex.Requeue.{AllMoved, requeue_all_ends, cmp_requeue_lem}

abbrev thread : Thread
thread = record {
  status = CoreState.stalled;
  stalled_reason = StallType.stall_futex;
  waiter = 0;
  wakeup_time = 0;
}

-- The second waiter has no bit in its mask.
abbrev queue : List Waiter
queue =
    record { thread_id = 1; mask = 1; timeout = 80 }
    ∷ record { thread_id = 2; mask = 0; timeout = 500 }
    ∷ record { thread_id = 3; mask = 3; timeout = 90 }
    ∷ []

abbrev server : SyscallServer
server = record {
  reschedule_cost = 5;
  sleeping = [];
  futexes = (64, queue) ∷ [];
  table = record {
    threads = thread ∷ thread ∷ thread ∷ thread ∷ [];
    wakeup_msgs = false ∷ false ∷ false ∷ false ∷ [];
  };
  va2pa = λ id a. a;
  memory = λ a. 7;
}

abbrev args : FutexArgs
args = record {
  uaddr = 64;
  command = FutexCommand.cmp_requeue;
  val = 1;
  timeout = none;
  val2 = 0;
  uaddr2 = 128;
  val3 = 7;
}

futex_wake_lem_example :
    let r = futex_wake server 9 64 1 match_any 100 in
    let woken = called server 64 1 match_any in
    (r.0 ≡ finished 1 105)
    × (filter (matches match_any) (waiters_at r.1 64) ≡ drop 1 (filter (matches match_any) queue))
    × (others (matches match_any) (waiters_at r.1 64) ≡ others (matches match_any) queue)
    × ((other : ℕ) → other ≢ 64 → waiters_at r.1 other ≡ waiters_at server other)
    × All (Returns r.1 105) (ids woken)
futex_wake_lem_example =
    futex_wake_lem server 9 64 1 match_any 100 ((omega arith, tt), (omega arith, tt))

cmp_requeue_lem_example :
    (s' : SyscallServer) × (moved : List Waiter) × (handle_futex_call 4 server 0 args 9 100
      ≡ done (finished 1 100, s'))
    × All (Returns s' 100) (1 ∷ [])
    × (waiters_at s' 64 ≡ [])
    × (waiters_at s' 128 ≡ moved)
    × (filter (matches match_any) moved ≡ drop 1 (filter (matches match_any) queue))
    × (others (matches match_any) moved ≡ others (matches match_any) queue)
cmp_requeue_lem_example =
    cmp_requeue_lem 4 server 0 args 9 100 refl refl (λ e. omega (arith, e)) (omega arith)
      ((omega arith, tt), (omega arith, tt))

requeue_all_ends_example :
    (args.uaddr ≢ args.uaddr2
      → (s' : SyscallServer) × (requeue_all 4 server 64 128 ≡ done s')
        × AllMoved server 64 128 queue s')
    × (0 < length queue → requeue_all 4 server 64 64 ≡ exhausted)
requeue_all_ends_example = requeue_all_ends 4 server 64 128 (omega arith)

-- The waiters 1 and 3 time out.
periodic_resumes_due_example :
    let s' = periodics 2 server 100 in
    AreResumed 2 100 server.sleeping s'.sleeping
    × AreResumed 2 100 (waiters_at server 64) (waiters_at s' 64)
    × (s'.table ≡ resume_each (due_in_runs 2 0 100 server) 100 false server.table)
    × All (Expires s' 100) (1 ∷ 3 ∷ [])
periodic_resumes_due_example = periodic_resumes_due 2 server 64 100 (omega arith, (omega arith, tt))
