-- ===== src/System/Futex.antt =====
-- `SyscallServer` of syscall_server.h and syscall_server.cc: sleeps and futexes. Each call runs as one
-- step, since it holds the thread manager's lock; a call that stalls its thread is the step up to the
-- wait. The handlers take physical
-- addresses, which the dispatch finds.
pub mod Queue
pub mod DoOp
pub mod Wake
pub mod Resumed
pub mod Calls
pub mod Requeue
pub mod Due
pub mod Timeout
mod Tests
use model_lib.Prelude.{
  Bool, List, Option, [], false, get_or, if◌then◌else◌, ltb, none, not, some, suc, true, zero, ℕ,
  ◌++◌, ◌+◌, ◌==◌, ◌^◌, ◌∷◌,
}
use model_lib.Memory.Run.{check, Run, done, failed, exhausted, require, ◌>>=◌, ◌>>◌}
use model_lib.System.Futex.DoOp.{futex_do_op}
use model_lib.System.Threads.{StallType, plus, woken_at}
use model_lib.System.Sync.Cond.{lookup_or, store}
use model_lib.System.Futex.Queue.{
  Waiter, ThreadTable, max_time, match_any, resume, stall, enqueue_waiter, dequeue_waiter,
  wake_timed_out, last_timeout,
}

-- `m_reschedule_cost`, `m_sleeping` and `m_futexes`, the threads, `va2pa` of each thread, and the
-- words of simulated memory by their physical addresses.
pub record SyscallServer : Type 0 where
  pub reschedule_cost : ℕ
  pub sleeping : List Waiter
  pub futexes : List (ℕ × List Waiter)
  pub table : ThreadTable
  pub va2pa : ℕ → ℕ → ℕ
  pub memory : ℕ → ℕ

-- How a call ends: with a number and an end time, with an error and an end time, or it waits.
pub data Reply : Type 0 where
  finished : ℕ → ℕ → Reply
  would_block : ℕ → Reply
  try_again : ℕ → Reply
  timed_out : ℕ → Reply
  blocked : Reply

abbrev pub waiters_at : SyscallServer → ℕ → List Waiter
waiters_at s uaddr = lookup_or s.futexes uaddr []

abbrev pub with_waiters : SyscallServer → ℕ → List Waiter → ThreadTable → SyscallServer
with_waiters s uaddr ws t = record s { futexes = store s.futexes uaddr ws; table = t }

-- `findFutexByUaddr` makes the entry where there is none.
abbrev pub find_futex_by_uaddr : SyscallServer → ℕ → SyscallServer
find_futex_by_uaddr s uaddr = with_waiters s uaddr (waiters_at s uaddr) s.table

-- `applyRescheduleCost` on a thread whose core has executed `executed` instructions.
abbrev pub apply_reschedule_cost : SyscallServer → ℕ → Bool → ℕ
apply_reschedule_cost s executed conditional =
    if conditional then if executed == 0 then 0 else s.reschedule_cost else 0

-- The number of rounds of a loop up to an `int`.
abbrev pub times_of : ℕ → ℕ
times_of n = if ltb n (2 ^ 31) then n else 0

unfoldable pub handle_sleep_call : SyscallServer → ℕ → ℕ → SyscallServer
handle_sleep_call s id wake_time = record s {
  sleeping = s.sleeping ++ (record { thread_id = id; mask = 0; timeout = wake_time } ∷ []);
  table = stall id StallType.stall_sleep s.table;
}

unfoldable pub futex_wait : SyscallServer → ℕ → ℕ → ℕ → ℕ → ℕ → ℕ → ℕ → Reply × SyscallServer
futex_wait s id uaddr val act_val mask time timeout =
    let s' = find_futex_by_uaddr s uaddr in
    let r = enqueue_waiter (waiters_at s' uaddr) id mask timeout s'.table in
    if val == act_val then (blocked, with_waiters s' uaddr r.0 r.1) else (would_block time, s')

-- What `futexWait` returns once its thread is resumed.
abbrev pub wait_reply : SyscallServer → ℕ → Reply
wait_reply s id =
    if get_or s.table.wakeup_msgs id false
    then finished 0 (woken_at id s.table.threads)
    else timed_out (woken_at id s.table.threads)

-- The loops that wake up to a number of waiters: how many they woke.
abbrev pub wake_up : ℕ → List Waiter → ℕ → ℕ → ThreadTable → ℕ × List Waiter × ThreadTable
wake_up zero ws mask time t = (0, ws, t)
wake_up (suc n) ws mask time t = elim (dequeue_waiter ws mask time t) [
  | none ↦ (0, ws, t)
  | some r ↦ let q = wake_up n r.1 mask time r.2 in (suc q.0, q.1, q.2)
]

unfoldable pub wake_at : SyscallServer → ℕ → ℕ → ℕ → ℕ → ℕ × SyscallServer
wake_at s uaddr n mask time =
    let r = wake_up (times_of n) (waiters_at s uaddr) mask time s.table in
    (r.0, with_waiters s uaddr r.1 r.2)

unfoldable pub futex_wake : SyscallServer → ℕ → ℕ → ℕ → ℕ → ℕ → Reply × SyscallServer
futex_wake s executed uaddr nr_wake mask time =
    let r = wake_at s uaddr nr_wake mask (plus time (apply_reschedule_cost s executed true)) in
    (finished r.0 (plus time (apply_reschedule_cost s executed (ltb 0 r.0))), r.1)

-- `futexDoOp` changes the word at `uaddr`.
abbrev with_word : SyscallServer → ℕ → ℕ → SyscallServer
with_word s uaddr v = record s { memory = λ a. if a == uaddr then v else s.memory a }

unfoldable pub futex_wake_op :
    SyscallServer → ℕ → ℕ → ℕ → ℕ → ℕ → ℕ → ℕ → Run (Reply × SyscallServer)
futex_wake_op s executed uaddr uaddr2 nr_wake nr_wake2 op time = do
  let s' = find_futex_by_uaddr (find_futex_by_uaddr s uaddr) uaddr2
  o ← check (futex_do_op op (s.memory uaddr2))
  let written = with_word s' uaddr2 o.1
  let wake_time = plus time (apply_reschedule_cost s executed true)
  let r = wake_at written uaddr nr_wake match_any wake_time
  let q = if o.0 then wake_at r.1 uaddr2 nr_wake2 match_any wake_time else (0, r.1)
  let woken = r.0 + q.0
  done (finished woken (plus time (apply_reschedule_cost s executed (ltb 0 woken))), q.1)

-- `requeueWaiter`: the thread moved, and the server. The waiter leaves one queue before it is added
-- to the other.
abbrev pub requeue_waiter : SyscallServer → ℕ → ℕ → Option (ℕ × SyscallServer)
requeue_waiter s uaddr uaddr2 = elim (waiters_at s uaddr) [
  | [] ↦ none
  | w ∷ rest ↦
      let s' = with_waiters s uaddr rest s.table in
      some (w.thread_id, with_waiters s' uaddr2 (waiters_at s' uaddr2 ++ (w ∷ [])) s'.table)
]

-- The loop that requeues all waiters, on fuel for its rounds.
abbrev pub requeue_all : ℕ → SyscallServer → ℕ → ℕ → Run SyscallServer
requeue_all zero s uaddr uaddr2 = exhausted
requeue_all (suc fuel) s uaddr uaddr2 = elim (requeue_waiter s uaddr uaddr2) [
  | none ↦ done s
  | some r ↦ requeue_all fuel r.1 uaddr uaddr2
]

unfoldable pub futex_cmp_requeue :
    ℕ → SyscallServer → ℕ → ℕ → ℕ → ℕ → ℕ → ℕ → Run (Reply × SyscallServer)
futex_cmp_requeue fuel s uaddr val uaddr2 val3 act_val time =
    if val3 == act_val
    then (do
      let r = wake_at s uaddr val match_any time
      s' ← requeue_all fuel (find_futex_by_uaddr r.1 uaddr2) uaddr uaddr2
      done (finished r.0 time, s'))
    else done (try_again time, find_futex_by_uaddr s uaddr)

-- The loop of `futexPeriodic` over the futexes.
abbrev pub wake_entries :
    List (ℕ × List Waiter) → ℕ → ThreadTable → List (ℕ × List Waiter) × ThreadTable
wake_entries [] time t = ([], t)
wake_entries ((uaddr, ws) ∷ rest) time t =
    let r = wake_timed_out ws time t in
    let q = wake_entries rest time r.1 in ((uaddr, r.0) ∷ q.0, q.1)

unfoldable pub futex_periodic : SyscallServer → ℕ → SyscallServer
futex_periodic s time =
    let r = wake_timed_out s.sleeping time s.table in
    let q = wake_entries s.futexes time r.1 in
    record s { sleeping = r.0; futexes = q.0; table = q.1 }

abbrev least_entry : List (ℕ × List Waiter) → ℕ → ℕ
least_entry [] next = next
least_entry ((uaddr, ws) ∷ rest) next =
    let t = last_timeout ws max_time in least_entry rest (if ltb t next then t else next)

pub get_next_timeout : SyscallServer → ℕ
get_next_timeout s = least_entry s.futexes (last_timeout s.sleeping max_time)

-- `cmd` of a futex call.
pub data FutexCommand : Type 0 where
  wait wait_bitset wake wake_bitset wake_op cmp_requeue unsupported : FutexCommand

-- `futex_args_t`, with the time that `timeout` points to.
pub record FutexArgs : Type 0 where
  pub uaddr : ℕ
  pub command : FutexCommand
  pub val : ℕ
  pub timeout : Option ℕ
  pub val2 : ℕ
  pub uaddr2 : ℕ
  pub val3 : ℕ

-- `timeout_time`: FUTEX_WAIT_BITSET has an absolute time.
abbrev pub timeout_time : Option ℕ → Bool → ℕ → ℕ
timeout_time none absolute time = max_time
timeout_time (some t) absolute time = if absolute then t else plus time t

-- `handleFutexCall`, whose test for a mask of FUTEX_WAKE_BITSET never holds. `executed` counts the
-- instructions of the thread's core.
unfoldable pub handle_futex_call :
    ℕ → SyscallServer → ℕ → FutexArgs → ℕ → ℕ → Run (Reply × SyscallServer)
handle_futex_call fuel s id args executed time =
    let pa = s.va2pa id args.uaddr in
    let pa2 = s.va2pa id args.uaddr2 in
    let act_val = s.memory pa in
    elim args.command [
      | wait ↦ done (
          futex_wait s id pa args.val act_val match_any time (timeout_time args.timeout false time))
      | wait_bitset ↦
          done (
            futex_wait s id pa args.val act_val args.val3 time
              (timeout_time args.timeout true time))
      | wake ↦ done (futex_wake s executed pa args.val match_any time)
      | wake_bitset ↦ done (futex_wake s executed pa args.val match_any time)
      | wake_op ↦ futex_wake_op s executed pa pa2 args.val args.val2 args.val3 time
      | cmp_requeue ↦ do
        require (not (args.uaddr == args.uaddr2))
        futex_cmp_requeue fuel s pa args.val pa2 args.val3 act_val time
      | unsupported ↦ failed
    ]
