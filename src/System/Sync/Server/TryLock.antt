-- ===== src/System/Sync/Server/TryLock.antt =====
-- `SyncServer::mutexLock` with `tryLock`.
use model_lib.Prelude.{
  ==_refl, List, [], ap, arith, false, if◌then◌else◌, refl, some, sym, true, ℕ, ◌++◌, ◌∙◌, ◌∷◌, ◌≡◌,
  ◌≢◌,
}
use model_lib.System.Threads.{Thread, StallType, returns, waits, plus, stall_thread}
use model_lib.System.Sync.Mutex.{Mutex, create_mutex, no_owner, is_locked, lock}
use model_lib.System.Sync.Mutex.Sound.{is_locked-owned, is_locked-free, lock-free, lock-owned}
use model_lib.System.Sync.Cond.{lookup, lookup_or, mutex_at, with_mutex}
use model_lib.System.Sync.Cond.Sound.{lookup_or-store}
use model_lib.System.Sync.Server.{Server, get_mutex, mutex_lock, after_lock}

lookup-lookup_or {ℓ} :
    {A : Type ℓ} (xs : List (ℕ × A)) (k : ℕ) (v d : A) → lookup xs k ≡ some v → lookup_or xs k d ≡ v
lookup-lookup_or [] k v d e = absurd (ground arith)
lookup-lookup_or ((i, w) ∷ xs) k v d e = ground (arith, lookup-lookup_or xs k v d)

-- A known mutex is looked up, tested and locked.
try_lock_runs :
    (s : Server) (thread mux time : ℕ) (m : Mutex)
    → lookup s.shared.mutexes mux ≡ some m
    → let r = lock m thread time s.shared.threads in
      mutex_lock s thread mux true time
      ≡ some (
          if is_locked m thread then (returns time, false, s) else (
            after_lock r.0 s.reschedule_cost,
            true,
            record s { shared = with_mutex s.shared mux (r.1, r.2) },
          ))
unfolding mutex_lock get_mutex
try_lock_runs s thread mux time m k =
    rw (k, get_mutex)
      (ap
        (λ x. some (
          if is_locked x thread then (returns time, false, s) else (
            after_lock (lock x thread time s.shared.threads).0 s.reschedule_cost,
            true,
            record s {
              shared = with_mutex s.shared mux (
                (lock x thread time s.shared.threads).1,
                (lock x thread time s.shared.threads).2,
              );
            },
          )))
        (lookup-lookup_or s.shared.mutexes mux m create_mutex k))

-- The mutex that was stored is the one that is found.
stored :
    (s : Server) (mux : ℕ) (r : Mutex × List Thread)
    → mutex_at (with_mutex s.shared mux r) mux ≡ r.0
stored s mux r = lookup_or-store s.shared.mutexes mux r.0 mux create_mutex ∙ rw (==_refl mux) refl

-- `mutexLock` with `tryLock` on a mutex that is known. If it is free, the thread owns it and the call
-- returns after the reschedule cost. If another thread owns it, the call fails at once and changes
-- nothing. If the thread owns it itself, the call does not fail: the thread waits behind itself.
pub try_lock_branches :
    (s : Server) (thread mux time : ℕ) (m : Mutex)
    → lookup s.shared.mutexes mux ≡ some m
    → thread ≢ no_owner
    → (m.owner ≡ no_owner
        → (s' : Server) × (mutex_lock s thread mux true time
            ≡ some (returns (plus time s.reschedule_cost), true, s'))
          × (mutex_at s'.shared mux ≡ record m { owner = thread }))
      × (m.owner ≢ no_owner
          → m.owner ≢ thread
          → mutex_lock s thread mux true time ≡ some (returns time, false, s))
      × (m.owner ≡ thread
          → (s' : Server) × (mutex_lock s thread mux true time ≡ some (waits, true, s'))
            × (mutex_at s'.shared mux
                ≡ record { waiting = m.waiting ++ (thread ∷ []); owner = thread }))
try_lock_branches s thread mux time m k h =
    let run = try_lock_runs s thread mux time m k in
    (
      λ free.
          let q : Mutex × List Thread = (record m { owner = thread }, s.shared.threads) in
          (
            record s { shared = with_mutex s.shared mux q },
            run
                ∙ rw (is_locked-free m thread free, lock-free m thread time s.shared.threads free)
                    refl,
            stored s mux q,
          ),
      λ owned other.
          let locked : is_locked m thread ≡ true = ground (arith, is_locked-owned m thread owned) in
          run ∙ rw locked refl,
      λ own.
          let owned : m.owner ≢ no_owner = λ e. h (sym own ∙ e) in
          let unlocked : is_locked m thread ≡ false =
            ground (arith, is_locked-owned m thread owned) in
          let q : Mutex × List Thread = (
            record m { waiting = m.waiting ++ (thread ∷ []) },
            stall_thread thread StallType.stall_mutex s.shared.threads,
          ) in
          (
            record s { shared = with_mutex s.shared mux q },
            run ∙ rw (unlocked, lock-owned m thread time s.shared.threads owned) refl,
            stored s mux q
                ∙ ap (λ o. record m { waiting = m.waiting ++ (thread ∷ []); owner = o }) own,
          ),
    )
