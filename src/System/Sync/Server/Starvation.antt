-- ===== src/System/Sync/Server/Starvation.antt =====
-- The calls of sync_server.cc as steps, and what holds of every mutex after any number of them.
use model_lib.Prelude.{
  Bool, Bool-cases, List, Option-cases, [], arith, false, get_elem?, inl, inr, refl, some, subst,
  sym, true, ℕ, ◌&&◌, ◌≡◌, ◌≢◌,
}
use model_lib.System.Threads.{Thread, Outcome, plus}
use model_lib.System.Sync.Mutex.{is_locked, create_mutex, no_owner, lock, unlock}
use model_lib.System.Sync.Mutex.Sound.{
  lock-NoneStarves, unlock-NoneStarves, lock-AreIds, unlock-AreIds,
}
use model_lib.System.Sync.Cond
use model_lib.System.Sync.Cond.{
  CondWaiter, Shared, lookup, lookup_or, store, mutex_at, with_mutex, wake, signal, broadcast,
}
use model_lib.System.Sync.Cond.Sound.{
  Sound, AllSound, AreWaiters, AllWaiters, store_all, with_mutex-AllSound, signal_sound,
  broadcast_sound, wait_sound,
}
use model_lib.System.Sync.Server.{
  Server, create_server, get_mutex, get_cond, mutex_init, mutex_lock, mutex_unlock, cond_init,
  cond_wait, cond_signal, cond_broadcast, barrier_init, barrier_wait,
}

-- The calls that threads make, each as one step.
pub data Step : Server → Server → Type 0 where
  inits_mutex : {s s' : Server} (mux : ℕ) → mutex_init s mux ≡ some s' → Step s s'
  locks :
      {s s' : Server} (thread mux time : ℕ) (try_lock took : Bool) (o : Outcome)
      → thread ≢ no_owner
      → mutex_lock s thread mux try_lock time ≡ some (o, took, s')
      → Step s s'
  unlocks :
      {s s' : Server} (thread mux time later : ℕ)
      → mutex_unlock s thread mux time ≡ some (later, s')
      → Step s s'
  inits_cond : {s : Server} (cond : ℕ) → Step s (cond_init s cond)
  waits_cond :
      {s s' : Server} (thread cond mux time : ℕ) (o : Outcome)
      → thread ≢ no_owner
      → cond_wait s thread cond mux time ≡ some (o, s')
      → Step s s'
  signals : {s : Server} (cond time : ℕ) → Step s (cond_signal s cond time)
  broadcasts : {s : Server} (cond time : ℕ) → Step s (cond_broadcast s cond time)
  inits_barrier : {s : Server} (count : ℕ) → Step s (barrier_init s count).1
  waits_barrier :
      {s s' : Server} (thread barrier time : ℕ) (o : Outcome)
      → barrier_wait s thread barrier time ≡ some (o, s')
      → Step s s'

pub data Steps : Server → Server → Type 0 where
  here : {s : Server} → Steps s s
  then : {s t u : Server} → Steps s t → Step t u → Steps s u

get_mutex-AllSound :
    (s s' : Shared) (mux : ℕ) (can_create : Bool)
    → get_mutex s mux can_create ≡ some s'
    → AllSound s
    → AllSound s'
unfolding get_mutex
get_mutex-AllSound s s' mux can_create e v = elim (Option-cases (lookup s.mutexes mux)) [
  | inl n ↦
      let same : s' ≡ record s { mutexes = store s.mutexes mux create_mutex } = ground arith in
      rw same (store_all Sound s.mutexes mux create_mutex create_mutex v (λ _. refl, tt))
  | inr (m, f) ↦ let same : s' ≡ s = ground arith in rw same v
]

get_cond-AllWaiters :
    (conds : List (ℕ × List CondWaiter)) (cond : ℕ)
    → AllWaiters conds
    → AllWaiters (get_cond conds cond)
unfolding get_cond
get_cond-AllWaiters conds cond v = elim (Option-cases (lookup conds cond)) [
  | inl n ↦ rw (n, get_cond) (store_all AreWaiters conds cond [] [] v tt)
  | inr (m, f) ↦ rw (f, get_cond) v
]

-- What holds of every state: a free mutex has no waiters, and every waiter is a thread.
abbrev Inv : Server → Type 0
Inv s = AllSound s.shared × AllWaiters s.conds

Step-Inv : (s s' : Server) → Step s s' → Inv s → Inv s'
unfolding mutex_init mutex_lock mutex_unlock cond_init cond_wait cond_signal cond_broadcast
    barrier_init barrier_wait
Step-Inv s s' (inits_mutex mux e) v = elim (Option-cases (get_mutex s.shared mux true)) [
  | inl n ↦ absurd (ground arith)
  | inr (q, f) ↦
      let same : s' ≡ record s { shared = q } = ground arith in
      rw same (get_mutex-AllSound s.shared q mux true f v.0, v.1)
]
Step-Inv s s' (locks thread mux time try_lock took o h e) v =
    elim (Option-cases (get_mutex s.shared mux true)) [
      | inl n ↦ absurd (ground arith)
      | inr (q, f) ↦
          let kept = get_mutex-AllSound s.shared q mux true f v.0 in
          let m = mutex_at q mux in
          let (starves, ids) = kept mux in
          let r = lock m thread time q.threads in
          let all =
            with_mutex-AllSound q mux (r.1, r.2) kept
              (
                lock-NoneStarves m thread time q.threads starves,
                lock-AreIds m thread time q.threads h ids,
              ) in
          elim (Bool-cases (try_lock && is_locked m thread)) [
            | inl b ↦ let same : s' ≡ record s { shared = q } = ground arith in rw same (kept, v.1)
            | inr b ↦
                let same : s' ≡ record s { shared = with_mutex q mux (r.1, r.2) } = ground arith in
                rw same (all, v.1)
          ]
    ]
Step-Inv s s' (unlocks thread mux time later e) v =
    elim (Option-cases (get_mutex s.shared mux false)) [
      | inl n ↦ absurd (ground arith)
      | inr (q, f) ↦
          let kept = get_mutex-AllSound s.shared q mux false f v.0 in
          let m = mutex_at q mux in
          let ids = (kept mux).1 in
          let at = plus time s.reschedule_cost in
          elim (Option-cases (unlock m thread at q.threads)) [
            | inl n ↦ absurd (ground arith)
            | inr (r, g) ↦
                let all =
                  with_mutex-AllSound q mux (r.1, r.2) kept
                    (
                      unlock-NoneStarves m thread at q.threads r g ids,
                      unlock-AreIds m thread at q.threads r g ids,
                    ) in
                let same : s' ≡ record s { shared = with_mutex q mux (r.1, r.2) } = ground arith in
                rw same (all, v.1)
          ]
    ]
Step-Inv s s' (inits_cond cond) v = (v.0, get_cond-AllWaiters s.conds cond v.1)
Step-Inv s s' (waits_cond thread cond mux time o h e) v =
    elim (Option-cases (get_mutex s.shared mux true)) [
      | inl n ↦ absurd (ground arith)
      | inr (q, f) ↦
          let kept = get_mutex-AllSound s.shared q mux true f v.0 in
          let conds = get_cond s.conds cond in
          let waiters = get_cond-AllWaiters s.conds cond v.1 in
          let ws = lookup_or conds cond [] in
          elim (Option-cases (Cond.wait ws q thread time mux)) [
            | inl n ↦ absurd (ground arith)
            | inr (r, g) ↦
                let (queued, all) = wait_sound ws q thread time mux r g h (waiters cond) kept in
                let same : s' ≡ record s { shared = r.2; conds = store conds cond r.1 } =
                  ground arith in
                rw same (all, store_all AreWaiters conds cond r.1 [] waiters queued)
          ]
    ]
Step-Inv s s' (signals cond time) v =
    let conds = get_cond s.conds cond in
    let kept = get_cond-AllWaiters s.conds cond v.1 in
    let r = signal_sound (lookup_or conds cond []) s.shared time (kept cond) v.0 in
    (
      r.1,
      store_all AreWaiters conds cond (signal (lookup_or conds cond []) s.shared time).1 [] kept
          r.0,
    )
Step-Inv s s' (broadcasts cond time) v =
    let conds = get_cond s.conds cond in
    let kept = get_cond-AllWaiters s.conds cond v.1 in
    let r = broadcast_sound (lookup_or conds cond []) s.shared time (kept cond) v.0 in
    (
      r.1,
      store_all AreWaiters conds cond (broadcast (lookup_or conds cond []) s.shared time).0 [] kept
          r.0,
    )
Step-Inv s s' (inits_barrier count) v = v
Step-Inv s s' (waits_barrier thread barrier time o e) v =
    elim (Option-cases (get_elem? s.barriers barrier)) [
      | inl n ↦ absurd (ground arith)
      | inr (b, f) ↦
          let conds : s'.conds ≡ s.conds = ground arith in
          let mutexes : s'.shared.mutexes ≡ s.shared.mutexes = ground arith in
          (
            λ j. subst (λ ms. Sound (lookup_or ms j create_mutex)) (sym mutexes) (v.0 j),
            rw conds v.1,
          )
    ]

Steps-Inv : (s s' : Server) → Steps s s' → Inv s → Inv s'
Steps-Inv s s' here v = v
Steps-Inv s s' (then steps step) v = Step-Inv _ s' step (Steps-Inv s _ steps v)

-- Whatever calls threads whose ids are not NO_OWNER make of a fresh server, and in whatever order, a
-- mutex that is free has no thread waiting for it.
pub no_waiter_of_free_mutex :
    (cost : ℕ) (threads : List Thread) (s : Server) (mux : ℕ)
    → Steps (create_server cost threads) s
    → (mutex_at s.shared mux).owner ≡ no_owner
    → (mutex_at s.shared mux).waiting ≡ []
no_waiter_of_free_mutex cost threads s mux steps free =
    let v = Steps-Inv (create_server cost threads) s steps (λ m. (λ _. refl, tt), λ c. tt) in
    (v.0 mux).0 free
