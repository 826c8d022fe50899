-- ===== src/System/Futex/Requeue.antt =====
-- FUTEX_CMP_REQUEUE of syscall_server.cc.
use model_lib.Prelude.{
  ==_refl, All, List, [], ap, append-nil, append_assoc, arith, drop, false, length, length-append,
  refl, subst, suc, sym, true, zero, ℕ, ◌++◌, ◌<◌, ◌==◌, ◌∙◌, ◌∷◌, ◌≡◌, ◌≢◌, ◌≤◌,
}
use native.Mathlib.Decide.{ℕ_discrete}
use model_lib.Memory.Run.{done, exhausted}
use model_lib.System.Sync.Cond.Sound.{lookup_or-store}
use model_lib.System.Futex.Queue.{Waiter, matches, match_any, ThreadTable}
use model_lib.System.Futex.{
  SyscallServer, FutexArgs, finished, waiters_at, with_waiters, find_futex_by_uaddr, times_of,
  wake_at, requeue_waiter, requeue_all, futex_cmp_requeue, cmp_requeue, handle_futex_call,
}
use model_lib.System.Futex.Wake.{filter, others, AreWoken-shorter}
use model_lib.System.Futex.Resumed.{ids, AreThreads, Returns, resume_each-Returns}
use model_lib.System.Futex.Calls.{called, wake_at_lem, wake_at_elsewhere}

stored_here :
    (s : SyscallServer) (a : ℕ) (ws : List Waiter) (t : ThreadTable)
    → waiters_at (with_waiters s a ws t) a ≡ ws
stored_here s a ws t = lookup_or-store s.futexes a ws a [] ∙ rw (==_refl a) refl

stored_elsewhere :
    (s : SyscallServer) (a b : ℕ) (ws : List Waiter) (t : ThreadTable)
    → a ≢ b
    → waiters_at (with_waiters s a ws t) b ≡ waiters_at s b
stored_elsewhere s a b ws t ne =
    let apart : (a == b) ≡ false = ground arith in
    lookup_or-store s.futexes a ws b [] ∙ rw apart refl

same_queues :
    (s : SyscallServer) (a b : ℕ) → waiters_at (find_futex_by_uaddr s a) b ≡ waiters_at s b
same_queues s a b = elim (ℕ_discrete a b) [
  | yes e ↦
      subst (λ x. waiters_at (find_futex_by_uaddr s a) x ≡ waiters_at s x) e
        (stored_here s a (waiters_at s a) s.table)
  | no ne ↦ stored_elsewhere s a b (waiters_at s a) s.table ne
]

-- One round: the first waiter, and the server after the move.
abbrev moved_one : SyscallServer → ℕ → ℕ → Waiter → List Waiter → SyscallServer
moved_one s a b w ws =
    let s' = with_waiters s a ws s.table in with_waiters s' b (waiters_at s' b ++ (w ∷ [])) s'.table

requeue_all_step :
    (fuel : ℕ) (s : SyscallServer) (a b : ℕ) (w : Waiter) (ws : List Waiter)
    → waiters_at s a ≡ w ∷ ws
    → requeue_all (suc fuel) s a b ≡ requeue_all fuel (moved_one s a b w ws) a b
requeue_all_step fuel s a b w ws e = rw (requeue_all, requeue_waiter, e) refl

-- What is left when all waiters at `a` have moved behind those at `b`.
abbrev pub AllMoved : SyscallServer → ℕ → ℕ → List Waiter → SyscallServer → Type 0
AllMoved s a b ws s' =
    (waiters_at s' a ≡ []) × (waiters_at s' b ≡ waiters_at s b ++ ws) × (s'.table ≡ s.table)

requeue_all_lem :
    (fuel : ℕ) (ws : List Waiter) (s : SyscallServer) (a b : ℕ)
    → a ≢ b
    → waiters_at s a ≡ ws
    → length ws < fuel
    → (s' : SyscallServer) × (requeue_all fuel s a b ≡ done s') × AllMoved s a b ws s'
requeue_all_lem zero ws s a b ne e h = absurd (omega arith)
requeue_all_lem (suc fuel) [] s a b ne e h =
    (s, rw (requeue_all, requeue_waiter, e) refl, (e, sym (append-nil (waiters_at s b)), refl))
requeue_all_lem (suc fuel) (w ∷ ws) s a b ne e h =
    let s1 = with_waiters s a ws s.table in
    let s2 = moved_one s a b w ws in
    let behind = waiters_at s1 b ++ (w ∷ []) in
    let left =
      stored_elsewhere s1 b a behind s1.table (λ e. ne (sym e)) ∙ stored_here s a ws s.table in
    let (s', run, (gone, there, table)) = requeue_all_lem fuel ws s2 a b ne left (omega arith) in
    let before = stored_elsewhere s a b ws s.table ne in
    let there' =
      there
      ∙ ap (λ vs. vs ++ ws) (stored_here s1 b behind s1.table)
      ∙ append_assoc (waiters_at s1 b) (w ∷ []) ws
      ∙ ap (λ vs. vs ++ (w ∷ ws)) before in
    (s', requeue_all_step fuel s a b w ws e ∙ run, (gone, there', table))

-- The loop over a queue that is its own target does not end.
requeue_all_self :
    (fuel : ℕ) (ws : List Waiter) (s : SyscallServer) (a : ℕ)
    → waiters_at s a ≡ ws
    → 0 < length ws
    → requeue_all fuel s a a ≡ exhausted
requeue_all_self zero ws s a e h = refl
requeue_all_self (suc fuel) [] s a e h = absurd (omega arith)
requeue_all_self (suc fuel) (w ∷ ws) s a e h =
    let s1 = with_waiters s a ws s.table in
    let queue =
      stored_here s1 a (waiters_at s1 a ++ (w ∷ [])) s1.table
      ∙ ap (λ vs. vs ++ (w ∷ [])) (stored_here s a ws s.table) in
    requeue_all_step fuel s a a w ws e
    ∙ requeue_all_self fuel (ws ++ (w ∷ [])) (moved_one s a a w ws) a queue
        (omega (arith, length-append ws (w ∷ [])))

-- The requeueing loop by itself ends exactly between two queues, or on an empty one: on fuel
-- greater than the length of the queue at `a` it moves all its waiters, in their order, behind
-- those at another address `b`; a queue with waiters that is its own target exhausts any fuel.
pub requeue_all_ends :
    (fuel : ℕ) (s : SyscallServer) (a b : ℕ)
    → length (waiters_at s a) < fuel
    → (a ≢ b
        → (s' : SyscallServer) × (requeue_all fuel s a b ≡ done s')
          × AllMoved s a b (waiters_at s a) s')
      × (0 < length (waiters_at s a) → requeue_all fuel s a a ≡ exhausted)
requeue_all_ends fuel s a b h = (
  (λ ne. requeue_all_lem fuel (waiters_at s a) s a b ne refl h),
  λ n. requeue_all_self fuel (waiters_at s a) s a refl n,
)

-- A FUTEX_CMP_REQUEUE between two addresses with different physical addresses, whose first holds
-- the expected value, on more fuel than it has waiters there: the call returns how many of the
-- first `val` waiters with a mask it woke, whose waits return 0 at the time of the call, in their
-- order; all the others move, in their order, behind the waiters at the second address, and none is
-- left.
pub cmp_requeue_lem :
    (fuel : ℕ) (s : SyscallServer) (id : ℕ) (args : FutexArgs) (executed time : ℕ)
    → let pa = s.va2pa id args.uaddr in
      let pa2 = s.va2pa id args.uaddr2 in
      args.command ≡ cmp_requeue
      → args.val3 ≡ s.memory pa
      → pa ≢ pa2
      → length (waiters_at s pa) < fuel
      → AreThreads (ids (called s pa args.val match_any)) s.table
      → let woken = called s pa args.val match_any in
        let fits = matches match_any in
        (s' : SyscallServer) × (moved : List Waiter) × (handle_futex_call fuel s id args executed
            time
          ≡ done (finished (length woken) time, s'))
        × All (Returns s' time) (ids woken)
        × (waiters_at s' pa ≡ [])
        × (waiters_at s' pa2 ≡ waiters_at s pa2 ++ moved)
        × (filter fits moved ≡ drop (times_of args.val) (filter fits (waiters_at s pa)))
        × (others fits moved ≡ others fits (waiters_at s pa))
unfolding handle_futex_call futex_cmp_requeue
cmp_requeue_lem fuel s id args executed time c held ne h a =
    let pa = s.va2pa id args.uaddr in
    let pa2 = s.va2pa id args.uaddr2 in
    let virtual : args.uaddr ≢ args.uaddr2 = λ e. ne (ap (s.va2pa id) e) in
    let r = wake_at s pa args.val match_any time in
    let (count, left, rest, table) = wake_at_lem s pa args.val match_any time in
    let start = find_futex_by_uaddr r.1 pa2 in
    let moved = waiters_at r.1 pa in
    let fewer : length moved ≤ length (waiters_at s pa) =
      AreWoken-shorter (times_of args.val) match_any time (waiters_at s pa) s.table
        (r.0, moved, r.1.table) (count, left, rest, table) in
    let same = same_queues r.1 pa2 pa in
    let (s', run, (gone, there, table')) =
      requeue_all_lem fuel moved start pa pa2 ne same (omega arith) in
    let apart : (args.uaddr == args.uaddr2) ≡ false = ground (arith, virtual) in
    let same_value : (args.val3 == s.memory pa) ≡ true =
      subst (λ v. (args.val3 == v) ≡ true) held (==_refl args.val3) in
    let elsewhere =
      same_queues r.1 pa2 pa2
      ∙ wake_at_elsewhere s pa pa2 args.val match_any time (λ e. ne (sym e)) in
    (
      s',
      moved,
      rw (c, apart, same_value, run, count) refl,
      resume_each-Returns (called s pa args.val match_any) time s.table s' a (table' ∙ table),
      gone,
      there ∙ ap (λ vs. vs ++ moved) elsewhere,
      left,
      rest,
    )
