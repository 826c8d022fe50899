-- ===== src/System/Sync/Cond/Order.antt =====
-- The order in which `SimCond::signal` and `SimCond::broadcast` pass waiters on to their mutexes.
use model_lib.Prelude.{
  ==_iff, Bool-cases, List, [], ap, append-nil, append_assoc, if◌then◌else◌, inl, inr, refl, sym, ℕ,
  ◌++◌, ◌==◌, ◌∙◌, ◌∷◌, ◌≡◌, ◌≢◌,
}
use model_lib.System.Sync.Mutex.{create_mutex, no_owner, lock_async}
use model_lib.System.Sync.Mutex.Queue.{claims, lock_async-claims}
use model_lib.System.Sync.Cond.{CondWaiter, Shared, mutex_at, wake, broadcast}
use model_lib.System.Sync.Cond.Sound.{lookup_or-store, AllSound, AreWaiters, wake-AllSound}

-- The threads of a queue whose mutex is at `mux`.
pub threads_for : ℕ → List CondWaiter → List ℕ
threads_for mux [] = []
threads_for mux (w ∷ ws) =
    let rest = threads_for mux ws in if w.mutex == mux then w.thread ∷ rest else rest

threads_for-cons :
    (mux : ℕ) (w : CondWaiter) (ws : List CondWaiter)
    → threads_for mux (w ∷ ws) ≡ threads_for mux (w ∷ []) ++ threads_for mux ws
unfolding threads_for
threads_for-cons mux w ws = elim (Bool-cases (w.mutex == mux)) [
  | inl e ↦ rw (e, threads_for) refl
  | inr e ↦ rw (e, threads_for) refl
]

wake-claims :
    (s : Shared) (w : CondWaiter) (time mux : ℕ)
    → AllSound s
    → w.thread ≢ no_owner
    → claims (mutex_at (wake s w time).1 mux) ≡ claims (mutex_at s mux) ++ threads_for mux (w ∷ [])
unfolding threads_for
wake-claims s w time mux v h =
    let m = mutex_at s w.mutex in
    let after = (lock_async m w.thread time s.threads).1 in
    let found = lookup_or-store s.mutexes w.mutex after mux create_mutex in
    elim (Bool-cases (w.mutex == mux)) [
      | inl e ↦
          let at : w.mutex ≡ mux = (==_iff w.mutex mux).0 e in
          rw e (
            ap claims (found ∙ rw e refl)
            ∙ lock_async-claims m w.thread time s.threads (v w.mutex).0 h
            ∙ ap (λ k. claims (mutex_at s k) ++ (w.thread ∷ [])) at)
      | inr e ↦ rw e (ap claims (found ∙ rw e refl) ∙ sym (append-nil (claims (mutex_at s mux))))
    ]

-- Every waiter of a broadcast takes its place with its mutex: behind the threads that own it or wait
-- for it already, in the order of the queue. The queue is empty afterwards. Waiters are threads, and
-- no free mutex has waiters before.
pub broadcast_order :
    (ws : List CondWaiter) (s : Shared) (time mux : ℕ)
    → AllSound s
    → AreWaiters ws
    → ((broadcast ws s time).0 ≡ [])
      × (claims (mutex_at (broadcast ws s time).1 mux)
          ≡ claims (mutex_at s mux) ++ threads_for mux ws)
unfolding broadcast threads_for
broadcast_order [] s time mux v a = (refl, sym (append-nil (claims (mutex_at s mux))))
broadcast_order (w ∷ ws) s time mux v a =
    let s' = (wake s w time).1 in
    let (empty, rest) = broadcast_order ws s' time mux (wake-AllSound s w time v a.0) a.1 in
    (
      empty,
      rest
          ∙ ap (λ ids. ids ++ threads_for mux ws) (wake-claims s w time mux v a.0)
          ∙ append_assoc (claims (mutex_at s mux)) (threads_for mux (w ∷ [])) (threads_for mux ws)
          ∙ ap (λ ids. claims (mutex_at s mux) ++ ids) (sym (threads_for-cons mux w ws)),
    )
