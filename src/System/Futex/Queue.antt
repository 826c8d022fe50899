-- ===== src/System/Futex/Queue.antt =====
-- `SimFutex` of syscall_server.h and syscall_server.cc, and what a resumed thread is told.
use Prim.Native.Nat.{bit_and}
use model_lib.Prelude.{
  Bool, List, Option, [], false, if◌then◌else◌, leb, ltb, none, not, set, some, true, ℕ, ◌++◌, ◌-◌,
  ◌==◌, ◌>>=◌, ◌^◌, ◌∷◌,
}
use model_lib.System.Threads.{Thread, StallType, stall_thread, resume_thread}

-- `SimFutex::Waiter`
pub record Waiter : Type 0 where
  pub thread_id : ℕ
  pub mask : ℕ
  pub timeout : ℕ

-- The threads, and `m_wakeup_msg` of each: whether it was woken, and not timed out.
pub record ThreadTable : Type 0 where
  pub threads : List Thread
  pub wakeup_msgs : List Bool

-- `SubsecondTime::MaxTime()`
abbrev pub max_time : ℕ
max_time = 2 ^ 64 - 1

-- `FUTEX_BITSET_MATCH_ANY`
abbrev pub match_any : ℕ
match_any = 2 ^ 32 - 1

-- `resumeThread` with a message
abbrev pub resume : ℕ → ℕ → Bool → ThreadTable → ThreadTable
resume id time msg t = record {
  threads = resume_thread id time t.threads;
  wakeup_msgs = set t.wakeup_msgs id msg;
}

-- `stallThread` up to its wait, which clears the message.
abbrev pub stall : ℕ → StallType → ThreadTable → ThreadTable
stall id reason t = record {
  threads = stall_thread id reason t.threads;
  wakeup_msgs = set t.wakeup_msgs id false;
}

abbrev put_back : Waiter → Waiter × List Waiter → Waiter × List Waiter
put_back w r = (r.0, w ∷ r.1)

-- The loops over a queue that erase the first waiter of a kind: it, and the others.
abbrev pub take_first : (Waiter → Bool) → List Waiter → Option (Waiter × List Waiter)
take_first p [] = none
take_first p (w ∷ ws) =
    let rest = take_first p ws in if p w then some (w, ws) else (do r ← rest; some (put_back w r))

-- `mask & it->mask`
abbrev pub matches : ℕ → Waiter → Bool
matches mask w = not (bit_and mask w.mask == 0)

-- `it->timeout <= time`
abbrev pub is_due : ℕ → Waiter → Bool
is_due time w = leb w.timeout time

unfoldable pub enqueue_waiter : List Waiter → ℕ → ℕ → ℕ → ThreadTable → List Waiter × ThreadTable
enqueue_waiter waiting id mask timeout t = (
  waiting ++ (record { thread_id = id; mask = mask; timeout = timeout } ∷ []),
  stall id StallType.stall_futex t,
)

-- `none` is `INVALID_THREAD_ID`.
unfoldable pub dequeue_waiter :
    List Waiter → ℕ → ℕ → ThreadTable → Option (ℕ × List Waiter × ThreadTable)
dequeue_waiter waiting mask time t = do
  r ← take_first (matches mask) waiting
  some (r.0.thread_id, r.1, resume r.0.thread_id time true t)

unfoldable pub wake_timed_out : List Waiter → ℕ → ThreadTable → List Waiter × ThreadTable
wake_timed_out waiting time t = elim (take_first (is_due time) waiting) [
  | some r ↦ (r.1, resume r.0.thread_id time false t)
  | none ↦ (waiting, t)
]

-- The loop of `getNextTimeout`, which keeps the last value it meets.
unfoldable pub last_timeout : List Waiter → ℕ → ℕ
last_timeout [] next = next
last_timeout (w ∷ ws) next = last_timeout ws (if ltb w.timeout max_time then w.timeout else next)
