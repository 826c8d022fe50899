-- ===== src/System/Futex/Timeout.antt =====
-- `futexPeriodic` and `getNextTimeout` of syscall_server.cc.
use model_lib.Prelude.{
  All, List, [], ap, arith, drop, false, if◌then◌else◌, length, ltb, refl, suc, zero, ℕ, ◌++◌, ◌<◌,
  ◌∙◌, ◌∷◌, ◌≡◌,
}
use model_lib.System.Futex.Queue.{Waiter, max_time, is_due, last_timeout}
use model_lib.System.Futex.{SyscallServer, waiters_at, futex_periodic, get_next_timeout}
use model_lib.System.Futex.Resumed.{ids, Expires, resume_each-Expires}
use model_lib.System.Futex.Wake.{resume_each, filter}
use model_lib.System.Futex.Due.{
  AreResumed, due_in_runs, periodics, drop-drop, futex_periodic_lem, periodics-table,
}

AreResumed-trans :
    (n time : ℕ) (ws vs us : List Waiter)
    → AreResumed 1 time ws vs
    → AreResumed n time vs us
    → AreResumed (suc n) time ws us
AreResumed-trans n time ws vs us (due, rest) (due', rest') =
    (due' ∙ ap (λ xs. drop n xs) due ∙ drop-drop n (filter (is_due time) ws), rest' ∙ rest)

periodics-AreResumed :
    (n : ℕ) (s : SyscallServer) (a time : ℕ)
    → AreResumed n time s.sleeping (periodics n s time).sleeping
      × AreResumed n time (waiters_at s a) (waiters_at (periodics n s time) a)
periodics-AreResumed zero s a time = ((refl, refl), (refl, refl))
periodics-AreResumed (suc n) s a time =
    let s' = futex_periodic s time in
    let (sleeping, waiting) = futex_periodic_lem s a time in
    let (sleeping', waiting') = periodics-AreResumed n s' a time in
    (
      AreResumed-trans n time s.sleeping s'.sleeping (periodics n s' time).sleeping sleeping
          sleeping',
      AreResumed-trans n time (waiters_at s a) (waiters_at s' a)
          (waiters_at (periodics n s' time) a) waiting waiting',
    )

-- `n` runs of the periodic hook at one time take the first `n` threads that are due from the
-- sleeping threads and from the waiters of every futex; the others stay in their order, so that
-- none that is due is left after as many runs as a queue has of them. In each run the first thread
-- that is due of the sleeping threads is resumed, and then that of each futex, with the message
-- that it was not woken, and no other thread changes. The resumed threads exist; each of them runs
-- from that time on, and a wait of it for a futex returns a timeout at that time.
pub periodic_resumes_due :
    (n : ℕ) (s : SyscallServer) (a time : ℕ)
    → All (λ x. x < length s.table.threads) (ids (due_in_runs n 0 time s))
    → let s' = periodics n s time in
      AreResumed n time s.sleeping s'.sleeping
      × AreResumed n time (waiters_at s a) (waiters_at s' a)
      × (s'.table ≡ resume_each (due_in_runs n 0 time s) time false s.table)
      × All (Expires s' time) (ids (due_in_runs n 0 time s))
periodic_resumes_due n s a time h =
    let (sleeping, waiting) = periodics-AreResumed n s a time in
    let table = periodics-table n s time in
    (
      sleeping,
      waiting,
      table,
      resume_each-Expires (due_in_runs n 0 time s) time s.table (periodics n s time) h table,
    )

last_timeout-append :
    (ws : List Waiter) (w : Waiter) (next : ℕ)
    → w.timeout < max_time
    → last_timeout (ws ++ (w ∷ [])) next ≡ w.timeout
unfolding last_timeout
last_timeout-append [] w next h = ground arith
last_timeout-append (v ∷ ws) w next h =
    last_timeout-append ws w (if ltb v.timeout max_time then v.timeout else next) h

-- Where no thread waits for a futex and the last of the sleeping threads has a finite wake-up time,
-- that is the next timeout, whatever the earlier ones have.
pub get_next_timeout_last :
    (s : SyscallServer) (ws : List Waiter) (w : Waiter)
    → s.futexes ≡ []
    → s.sleeping ≡ ws ++ (w ∷ [])
    → w.timeout < max_time
    → get_next_timeout s ≡ w.timeout
unfolding get_next_timeout
get_next_timeout_last s ws w e f h = rw (e, f) (last_timeout-append ws w max_time h)
