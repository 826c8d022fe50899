-- ===== src/System/Sync/Cond/Sound.antt =====
-- The table of mutexes under the calls of `SimCond`.
use model_lib.Prelude.{
  All, All-append, Bool-cases, List, Option-cases, [], arith, if◌then◌else◌, inl, inr, refl, some,
  subst, sym, ℕ, ◌++◌, ◌==◌, ◌∷◌, ◌≡◌, ◌≢◌,
}
use model_lib.System.Threads.{Thread, Outcome}
use model_lib.System.Sync.Mutex.{Mutex, create_mutex, no_owner, lock_async, unlock}
use model_lib.System.Sync.Mutex.Sound.{
  NoneStarves, AreIds, lock_async-NoneStarves, lock_async-AreIds, unlock-NoneStarves, unlock-AreIds,
}
use model_lib.System.Sync.Cond.{
  CondWaiter, Shared, lookup_or, store, mutex_at, with_mutex, wake, wait, signal, broadcast,
}

abbrev pub Sound : Mutex → Type 0
Sound m = NoneStarves m × AreIds m.waiting

abbrev pub AllSound : Shared → Type 0
AllSound s = (m : ℕ) → Sound (mutex_at s m)

abbrev pub AreWaiters : List CondWaiter → Type 0
AreWaiters ws = All (λ (w : CondWaiter). w.thread ≢ no_owner) ws

abbrev pub AllWaiters : List (ℕ × List CondWaiter) → Type 0
AllWaiters conds = (c : ℕ) → AreWaiters (lookup_or conds c [])

-- A table after a store.
pub lookup_or-store {ℓ} :
    {A : Type ℓ} (xs : List (ℕ × A)) (k : ℕ) (v : A) (j : ℕ) (d : A)
    → lookup_or (store xs k v) j d ≡ (if k == j then v else lookup_or xs j d)
lookup_or-store [] k v j d = refl
lookup_or-store ((i, w) ∷ xs) k v j d = elim (Bool-cases (i == k)) [
  | inl e ↦ rw e (ground arith)
  | inr e ↦ rw e (ground (arith, lookup_or-store xs k v j d))
]

pub store_all {ℓ} :
    {A : Type ℓ} (P : A → Type 0) (xs : List (ℕ × A)) (k : ℕ) (v d : A)
    → ((j : ℕ) → P (lookup_or xs j d))
    → P v
    → (j : ℕ) → P (lookup_or (store xs k v) j d)
store_all P xs k v d h p j = elim (Bool-cases (k == j)) [
  | inl e ↦ rw (lookup_or-store xs k v j d, e) p
  | inr e ↦ rw (lookup_or-store xs k v j d, e) (h j)
]

pub with_mutex-AllSound :
    (s : Shared) (m : ℕ) (r : Mutex × List Thread)
    → AllSound s
    → Sound r.0
    → AllSound (with_mutex s m r)
with_mutex-AllSound s m r v p j = store_all Sound s.mutexes m r.0 create_mutex v p j

-- A waiter is woken: it has its mutex, or waits for it.
pub wake-AllSound :
    (s : Shared) (w : CondWaiter) (time : ℕ)
    → AllSound s
    → w.thread ≢ no_owner
    → AllSound (wake s w time).1
wake-AllSound s w time v h =
    let (starves, ids) = v w.mutex in
    let m = mutex_at s w.mutex in
    let r = lock_async m w.thread time s.threads in
    with_mutex-AllSound s w.mutex (r.1, r.2) v
      (
        lock_async-NoneStarves m w.thread time s.threads starves,
        lock_async-AreIds m w.thread time s.threads h ids,
      )

pub signal_sound :
    (ws : List CondWaiter) (s : Shared) (time : ℕ)
    → AreWaiters ws
    → AllSound s
    → AreWaiters (signal ws s time).1 × AllSound (signal ws s time).2
unfolding signal
signal_sound [] s time a v = (tt, v)
signal_sound (w ∷ ws) s time a v = (a.1, wake-AllSound s w time v a.0)

pub broadcast_sound :
    (ws : List CondWaiter) (s : Shared) (time : ℕ)
    → AreWaiters ws
    → AllSound s
    → AreWaiters (broadcast ws s time).0 × AllSound (broadcast ws s time).1
unfolding broadcast
broadcast_sound [] s time a v = (tt, v)
broadcast_sound (w ∷ ws) s time a v =
    broadcast_sound ws (wake s w time).1 time a.1 (wake-AllSound s w time v a.0)

pub wait_sound :
    (ws : List CondWaiter) (s : Shared) (thread time mux : ℕ)
    (r : Outcome × List CondWaiter × Shared)
    → wait ws s thread time mux ≡ some r
    → thread ≢ no_owner
    → AreWaiters ws
    → AllSound s
    → AreWaiters r.1 × AllSound r.2
unfolding wait
wait_sound ws s thread time mux r e h a v =
    elim (Option-cases (unlock (mutex_at s mux) thread time s.threads)) [
      | inl n ↦ absurd (ground arith)
      | inr (q, f) ↦
          let m = mutex_at s mux in
          let (starves, ids) = v mux in
          let kept =
            with_mutex-AllSound s mux (q.1, q.2) v
              (
                unlock-NoneStarves m thread time s.threads q f ids,
                unlock-AreIds m thread time s.threads q f ids,
              ) in
          let thread' : CondWaiter = record { thread = thread; mutex = mux } in
          let waiters : r.1 ≡ ws ++ (thread' ∷ []) = ground arith in
          let mutexes : r.2.mutexes ≡ store s.mutexes mux q.1 = ground arith in
          (
            rw waiters
                (All-append (λ (w : CondWaiter). w.thread ≢ no_owner) ws (thread' ∷ []) a (h, tt)),
            λ j. subst (λ ms. Sound (lookup_or ms j create_mutex)) (sym mutexes) (kept j),
          )
    ]
