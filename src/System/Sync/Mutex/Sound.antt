-- ===== src/System/Sync/Mutex/Sound.antt =====
-- What the operations of `SimMutex` keep, and what its tests find.
use model_lib.Prelude.{
  All, All-append, Bool-cases, List, [], arith, false, inl, inr, not, some, ℕ, ◌++◌, ◌==◌, ◌∷◌, ◌≡◌,
  ◌≢◌,
}
use model_lib.System.Threads.{Thread, StallType, returns, waits, stall_thread}
use model_lib.System.Sync.Mutex.{Mutex, no_owner, is_locked, lock, lock_async, hand_over, unlock}

-- No thread waits for a mutex that is free.
abbrev pub NoneStarves : Mutex → Type 0
NoneStarves m = m.owner ≡ no_owner → m.waiting ≡ []

pub lock-NoneStarves :
    (m : Mutex) (thread time : ℕ) (threads : List Thread)
    → NoneStarves m
    → NoneStarves (lock m thread time threads).1
unfolding lock
lock-NoneStarves m thread time threads v = ground arith

pub lock_async-NoneStarves :
    (m : Mutex) (thread time : ℕ) (threads : List Thread)
    → NoneStarves m
    → NoneStarves (lock_async m thread time threads).1
unfolding lock_async
lock_async-NoneStarves m thread time threads v = ground arith

-- Ids of threads are not the mark of a free mutex.
abbrev pub AreIds : List ℕ → Type 0
AreIds ids = All (λ i. i ≢ no_owner) ids

pub unlock-NoneStarves :
    (m : Mutex) (thread time : ℕ) (threads : List Thread) (r : ℕ × Mutex × List Thread)
    → unlock m thread time threads ≡ some r
    → AreIds m.waiting
    → NoneStarves r.1
unfolding unlock hand_over
unlock-NoneStarves m thread time threads r e a = ground arith

pub lock-AreIds :
    (m : Mutex) (thread time : ℕ) (threads : List Thread)
    → thread ≢ no_owner
    → AreIds m.waiting
    → AreIds (lock m thread time threads).1.waiting
unfolding lock
lock-AreIds m thread time threads h a = elim (Bool-cases (m.owner == no_owner)) [
  | inl e ↦ rw (e, lock) a
  | inr e ↦ rw (e, lock) (All-append (λ i. i ≢ no_owner) m.waiting (thread ∷ []) a (h, tt))
]

pub lock_async-AreIds :
    (m : Mutex) (thread time : ℕ) (threads : List Thread)
    → thread ≢ no_owner
    → AreIds m.waiting
    → AreIds (lock_async m thread time threads).1.waiting
unfolding lock_async
lock_async-AreIds m thread time threads h a = elim (Bool-cases (m.owner == no_owner)) [
  | inl e ↦ rw (e, lock_async) a
  | inr e ↦ rw (e, lock_async) (All-append (λ i. i ≢ no_owner) m.waiting (thread ∷ []) a (h, tt))
]

hand_over-AreIds :
    (ws : List ℕ) (time : ℕ) (threads : List Thread)
    → AreIds ws
    → AreIds (hand_over ws time threads).1.waiting
unfolding hand_over
hand_over-AreIds [] time threads a = a
hand_over-AreIds (w ∷ ws) time threads a = a.1

pub unlock-AreIds :
    (m : Mutex) (thread time : ℕ) (threads : List Thread) (r : ℕ × Mutex × List Thread)
    → unlock m thread time threads ≡ some r
    → AreIds m.waiting
    → AreIds r.1.waiting
unfolding unlock
unlock-AreIds m thread time threads r e a =
    let same : r ≡ hand_over m.waiting time threads = ground arith in
    rw same (hand_over-AreIds m.waiting time threads a)

-- What the tests of `isLocked` and `lock` find.
pub is_locked-owned :
    (m : Mutex) (thread : ℕ) → m.owner ≢ no_owner → is_locked m thread ≡ not (m.owner == thread)
unfolding is_locked
is_locked-owned m thread h = ground arith

pub is_locked-free : (m : Mutex) (thread : ℕ) → m.owner ≡ no_owner → is_locked m thread ≡ false
unfolding is_locked
is_locked-free m thread h = ground arith

pub lock-free :
    (m : Mutex) (thread time : ℕ) (threads : List Thread)
    → m.owner ≡ no_owner
    → lock m thread time threads ≡ (returns time, record m { owner = thread }, threads)
unfolding lock
lock-free m thread time threads h = ground arith

pub lock-owned :
    (m : Mutex) (thread time : ℕ) (threads : List Thread)
    → m.owner ≢ no_owner
    → lock m thread time threads ≡ (
      waits,
      record m { waiting = m.waiting ++ (thread ∷ []) },
      stall_thread thread StallType.stall_mutex threads,
    )
unfolding lock
lock-owned m thread time threads h = ground arith
