-- ===== src/System/Futex/Calls.antt =====
-- `futexWake` as a call, with the queue that `futexWait` fills.
use model_lib.Prelude.{
  ==_refl, All, List, [], ap, arith, drop, false, length, ltb, refl, subst, sym, take, true, ℕ,
  ◌==◌, ◌∙◌, ◌≡◌, ◌≢◌,
}
use model_lib.System.Threads.{plus}
use model_lib.System.Sync.Cond.{lookup_or, store}
use model_lib.System.Sync.Cond.Sound.{lookup_or-store}
use model_lib.System.Futex.Queue.{Waiter, matches}
use model_lib.System.Futex.{
  SyscallServer, finished, waiters_at, apply_reschedule_cost, times_of, wake_at, wake_up,
  futex_wake,
}
use model_lib.System.Futex.Wake.{filter, others, AreWoken, wake_up_lem}
use model_lib.System.Futex.Resumed.{ids, AreThreads, Returns, resume_each-Returns}

-- The waiters that a call for `n` of a mask finds.
abbrev pub called : SyscallServer → ℕ → ℕ → ℕ → List Waiter
called s uaddr n mask = take (times_of n) (filter (matches mask) (waiters_at s uaddr))

pub wake_at_lem :
    (s : SyscallServer) (uaddr n mask time : ℕ)
    → let r = wake_at s uaddr n mask time in
      AreWoken
        (times_of n)
        mask
        time
        (waiters_at s uaddr)
        s.table
        (r.0, waiters_at r.1 uaddr, r.1.table)
unfolding wake_at
wake_at_lem s uaddr n mask time =
    let ws = waiters_at s uaddr in
    let q = wake_up (times_of n) ws mask time s.table in
    let kept : lookup_or (store s.futexes uaddr q.1) uaddr [] ≡ q.1 =
      lookup_or-store s.futexes uaddr q.1 uaddr [] ∙ rw (==_refl uaddr) refl in
    subst (λ vs. AreWoken (times_of n) mask time ws s.table (q.0, vs, q.2)) (sym kept)
      (wake_up_lem (times_of n) ws mask time s.table)

pub wake_at_elsewhere :
    (s : SyscallServer) (uaddr other n mask time : ℕ)
    → other ≢ uaddr
    → waiters_at (wake_at s uaddr n mask time).1 other ≡ waiters_at s other
unfolding wake_at
wake_at_elsewhere s uaddr other n mask time ne =
    let q = wake_up (times_of n) (waiters_at s uaddr) mask time s.table in
    let apart : (uaddr == other) ≡ false = ground arith in
    lookup_or-store s.futexes uaddr q.1 other [] ∙ rw apart refl

-- `futexWake` wakes the first `nr_wake` waiters whose mask has a bit of `mask`, in the order in
-- which they wait, or all of them if they are fewer; a negative `nr_wake` wakes none. It returns
-- how many it woke. Of the queue's waiters with such a mask exactly these leave it, and the others
-- stay in their order, as do the queues at other addresses. The woken waiters are threads, and the
-- wait of each returns 0 at the time of the call plus the rescheduling cost.
pub futex_wake_lem :
    (s : SyscallServer) (executed uaddr nr_wake mask time : ℕ)
    → AreThreads (ids (called s uaddr nr_wake mask)) s.table
    → let r = futex_wake s executed uaddr nr_wake mask time in
      let woken = called s uaddr nr_wake mask in
      let fits = matches mask in
      (r.0
        ≡ finished
            (length woken)
            (plus time (apply_reschedule_cost s executed (ltb 0 (length woken)))))
      × (filter fits (waiters_at r.1 uaddr)
          ≡ drop (times_of nr_wake) (filter fits (waiters_at s uaddr)))
      × (others fits (waiters_at r.1 uaddr) ≡ others fits (waiters_at s uaddr))
      × ((other : ℕ) → other ≢ uaddr → waiters_at r.1 other ≡ waiters_at s other)
      × All (Returns r.1 (plus time (apply_reschedule_cost s executed true))) (ids woken)
unfolding futex_wake
futex_wake_lem s executed uaddr nr_wake mask time a =
    let at = plus time (apply_reschedule_cost s executed true) in
    let (count, left, rest, table) = wake_at_lem s uaddr nr_wake mask at in
    let r = wake_at s uaddr nr_wake mask at in
    (
      ap (λ n. finished n (plus time (apply_reschedule_cost s executed (ltb 0 n)))) count,
      left,
      rest,
      (λ other ne. wake_at_elsewhere s uaddr other nr_wake mask at ne),
      resume_each-Returns (called s uaddr nr_wake mask) at s.table r.1 a table,
    )
