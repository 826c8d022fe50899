-- ===== src/System/Sync/Mutex/Queue.antt =====
-- `SimMutex` as a queue of threads.
use model_lib.Prelude.{
  ==_refl, List, [], ap, append-nil, append_assoc, arith, false, get_elem?, get_or, if◌then◌else◌,
  length, none, refl, some, suc, sym, ℕ, ◌++◌, ◌==◌, ◌↔◌, ◌∙◌, ◌∷◌, ◌≡◌, ◌≢◌,
}
use model_lib.System.Threads.{Thread, StallType, returns, stall_thread, resume_thread}
use model_lib.System.Sync.Mutex.{
  Mutex, create_mutex, no_owner, lock, lock_async, hand_over, unlock, lock_all, unlock_times,
}
use model_lib.System.Sync.Mutex.Sound.{NoneStarves, AreIds}

-- The abstract view: the threads that own the mutex or wait for it, in their order.
pub claims : Mutex → List ℕ
claims m = if m.owner == no_owner then [] else m.owner ∷ m.waiting

pub lock-claims :
    (m : Mutex) (thread time : ℕ) (threads : List Thread)
    → NoneStarves m
    → thread ≢ no_owner
    → claims (lock m thread time threads).1 ≡ claims m ++ (thread ∷ [])
unfolding lock claims
lock-claims m thread time threads v h = ground arith

pub lock_async-claims :
    (m : Mutex) (thread time : ℕ) (threads : List Thread)
    → NoneStarves m
    → thread ≢ no_owner
    → claims (lock_async m thread time threads).1 ≡ claims m ++ (thread ∷ [])
unfolding lock_async claims
lock_async-claims m thread time threads v h = ground arith

hand_over-claims :
    (ws : List ℕ) (time : ℕ) (threads : List Thread)
    → AreIds ws
    → (claims (hand_over ws time threads).1 ≡ ws)
      × ((hand_over ws time threads).0 ≡ get_or ws 0 no_owner)
unfolding hand_over claims
hand_over-claims [] time threads a = (refl, refl)
hand_over-claims (w ∷ ws) time threads a =
    let taken : (w == no_owner) ≡ false = ground (arith, a.0) in (rw taken refl, refl)

unlock-claims :
    (m : Mutex) (thread time : ℕ) (threads : List Thread) (r : ℕ × Mutex × List Thread)
    → unlock m thread time threads ≡ some r
    → AreIds m.waiting
    → thread ≢ no_owner
    → (claims m ≡ thread ∷ claims r.1) × (r.0 ≡ get_or (claims r.1) 0 no_owner)
unfolding unlock claims
unlock-claims m thread time threads r e a h =
    let same : r ≡ hand_over m.waiting time threads = ground arith in
    let owns : m.owner ≡ thread = ground arith in
    let (after, next) = hand_over-claims m.waiting time threads a in
    let own : claims m ≡ thread ∷ m.waiting = ground arith in
    rw same
      (own ∙ ap (λ ws. thread ∷ ws) (sym after), next ∙ ap (λ ws. get_or ws 0 no_owner) (sym after))

-- The mutex is a queue of threads. `lock` appends the thread and returns at once exactly if the queue
-- was empty. `unlock` succeeds exactly for the thread at the head, removes it, and names the thread
-- that follows as the owner. No free mutex has waiters, and the threads are not `NO_OWNER`.
pub mutex_is_queue :
    (m : Mutex) (thread time : ℕ) (threads : List Thread)
    → NoneStarves m
    → AreIds m.waiting
    → thread ≢ no_owner
    → (claims (lock m thread time threads).1 ≡ claims m ++ (thread ∷ []))
      × (((lock m thread time threads).0 ≡ returns time) ↔ (claims m ≡ []))
      × ((unlock m thread time threads ≢ none) ↔ (get_elem? (claims m) 0 ≡ some thread))
      × ((next : ℕ) (m' : Mutex) (threads' : List Thread)
          → unlock m thread time threads ≡ some (next, m', threads')
          → (claims m ≡ thread ∷ claims m') × (next ≡ get_or (claims m') 0 no_owner))
unfolding lock unlock hand_over claims
mutex_is_queue m thread time threads v a h = (
  unfold claims in lock-claims m thread time threads v h,
  (λ e. ground arith, λ e. ground arith),
  (λ e. ground arith, λ e. ground arith),
  λ next m' threads' e.
      unfold claims in unlock-claims m thread time threads (next, m', threads') e a h,
)

lock_all_queues :
    (m : Mutex) (ids : List ℕ) (time : ℕ) (threads : List Thread)
    → m.owner ≢ no_owner
    → (lock_all m ids time threads).0 ≡ record { waiting = m.waiting ++ ids; owner = m.owner }
unfolding lock
lock_all_queues m [] time threads h = ground (arith, append-nil m.waiting)
lock_all_queues m (id ∷ ids) time threads h =
    let free : (m.owner == no_owner) ≡ false = ground arith in
    let queued = record m { waiting = m.waiting ++ (id ∷ []) } in
    rw (free, lock, lock_all)
      (lock_all_queues queued ids time (stall_thread id StallType.stall_mutex threads) h
        ∙ ap (λ ws. record m { waiting = ws }) (append_assoc m.waiting (id ∷ []) ids))

unlock_times_drains :
    (ws : List ℕ) (o time : ℕ) (threads : List Thread)
    → (threads' : List Thread) × (unlock_times
          (suc (length ws))
          (record { waiting = ws; owner = o })
          time
          threads
        ≡ some (ws ++ (no_owner ∷ []), create_mutex, threads'))
unfolding unlock hand_over
unlock_times_drains [] o time threads = (threads, ground arith)
unlock_times_drains (w ∷ ws) o time threads =
    let (t, e) = unlock_times_drains ws w time (resume_thread w time threads) in
    (t, rw (==_refl o, e) refl)

-- When threads, the first of them not `NO_OWNER`, lock a free mutex one after the other, and each
-- owner unlocks in turn, they own it in the order in which they came, and it is free at the end;
-- every one of the unlocks succeeds.
pub lock-unlock_fifo :
    (id : ℕ) (ids : List ℕ) (time later : ℕ) (threads : List Thread)
    → id ≢ no_owner
    → let r = lock_all create_mutex (id ∷ ids) time threads in
      (r.0.owner ≡ id)
      × ((threads' : List Thread) × (unlock_times (suc (length ids)) r.0 later r.1
            ≡ some (ids ++ (no_owner ∷ []), create_mutex, threads')))
unfolding lock
lock-unlock_fifo id ids time later threads h =
    let q = lock_all_queues (record { waiting = []; owner = id }) ids time threads h in
    (
      ap (λ (x : Mutex). x.owner) q,
      rw q (unlock_times_drains ids id later (lock_all create_mutex (id ∷ ids) time threads).1),
    )
