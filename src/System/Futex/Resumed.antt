-- ===== src/System/Futex/Resumed.antt =====
-- What the calls of waiters that were resumed by a futex return.
use model_lib.Prelude.{
  All, Bool, List, [], ap, false, get_or, get_or-set_ne, get_or-set_self, length, length-set, map,
  refl, set, subst, suc, sym, true, zero, ℕ, ◌<◌, ◌∙◌, ◌∷◌, ◌≡◌,
}
use native.Mathlib.Decide.{ℕ_discrete}
use model_lib.System.Sync.Barrier.{resume_all}
use model_lib.System.Sync.Barrier.Rounds.{Woken, resume_all_wakes}
use model_lib.System.Futex.Queue.{Waiter, ThreadTable, resume}
use model_lib.System.Futex.{SyscallServer, finished, timed_out, wait_reply}
use model_lib.System.Futex.Wake.{resume_each}

abbrev pub ids : List Waiter → List ℕ
ids ws = map (λ (w : Waiter). w.thread_id) ws

-- The ids are those of threads, each of which has a place for its message.
abbrev pub AreThreads : List ℕ → ThreadTable → Type 0
AreThreads xs t = All (λ x. x < length t.threads) xs × All (λ x. x < length t.wakeup_msgs) xs

threads_of :
    (ws : List Waiter) (time : ℕ) (msg : Bool) (t : ThreadTable)
    → (resume_each ws time msg t).threads ≡ resume_all (ids ws) time t.threads
threads_of [] time msg t = refl
threads_of (w ∷ ws) time msg t = threads_of ws time msg (resume w.thread_id time msg t)

-- The thread has a place for its message, which says that it was woken.
abbrev IsTold : ThreadTable → ℕ → Type 0
IsTold t x = get_or t.wakeup_msgs x false ≡ true

resume-IsTold :
    (time x y : ℕ) (t : ThreadTable)
    → y < length t.wakeup_msgs
    → IsTold t x
    → IsTold (resume y time true t) x
resume-IsTold time x y t h told = elim (ℕ_discrete y x) [
  | yes e ↦
      subst (λ x. IsTold (resume y time true t) x) e (get_or-set_self t.wakeup_msgs y true false h)
  | no ne ↦ get_or-set_ne t.wakeup_msgs y x true false ne ∙ told
]

in_msgs :
    (w time : ℕ) (t : ThreadTable) (xs : List ℕ)
    → All (λ x. x < length t.wakeup_msgs) xs
    → All (λ x. x < length (resume w time true t).wakeup_msgs) xs
in_msgs w time t xs a = subst (λ n. All (λ x. x < n) xs) (sym (length-set t.wakeup_msgs w true)) a

resume_each_kept :
    (ws : List Waiter) (time x : ℕ) (t : ThreadTable)
    → All (λ x. x < length t.wakeup_msgs) (ids ws)
    → IsTold t x
    → IsTold (resume_each ws time true t) x
resume_each_kept [] time x t a told = told
resume_each_kept (w ∷ ws) time x t a told =
    resume_each_kept ws time x (resume w.thread_id time true t)
      (in_msgs w.thread_id time t (ids ws) a.1) (resume-IsTold time x w.thread_id t a.0 told)

resume_each-IsTold :
    (ws : List Waiter) (time : ℕ) (t : ThreadTable)
    → All (λ x. x < length t.wakeup_msgs) (ids ws)
    → All (IsTold (resume_each ws time true t)) (ids ws)
resume_each-IsTold [] time t a = tt
resume_each-IsTold (w ∷ ws) time t a =
    let rest = in_msgs w.thread_id time t (ids ws) a.1 in
    (
      resume_each_kept ws time w.thread_id (resume w.thread_id time true t) rest
          (get_or-set_self t.wakeup_msgs w.thread_id true false a.0),
      resume_each-IsTold ws time (resume w.thread_id time true t) rest,
    )

-- The wait of the thread returns 0 at the time.
abbrev pub Returns : SyscallServer → ℕ → ℕ → Type 0
Returns s time x = wait_reply s x ≡ finished 0 time

replies :
    (s : SyscallServer) (time : ℕ) (xs : List ℕ)
    → All (Woken time s.table.threads) xs
    → All (IsTold s.table) xs
    → All (Returns s time) xs
replies s time [] a b = tt
replies s time (x ∷ xs) a b = (rw (b.0, a.0.1) refl, replies s time xs a.1 b.1)

pub resume_each-Returns :
    (ws : List Waiter) (time : ℕ) (t : ThreadTable) (s : SyscallServer)
    → AreThreads (ids ws) t
    → s.table ≡ resume_each ws time true t
    → All (Returns s time) (ids ws)
resume_each-Returns ws time t s a e =
    let told = resume_each-IsTold ws time t a.1 in
    let woken = resume_all_wakes (ids ws) time t.threads a.0 in
    replies s time (ids ws)
      (subst (λ ts. All (Woken time ts) (ids ws))
        (sym (threads_of ws time true t) ∙ ap (λ (u : ThreadTable). u.threads) (sym e)) woken)
      (subst (λ (u : ThreadTable). All (IsTold u) (ids ws)) (sym e) told)

-- The thread runs from the time on, and its wait returns a timeout at the time.
abbrev pub Expires : SyscallServer → ℕ → ℕ → Type 0
Expires s time x = Woken time s.table.threads x × (wait_reply s x ≡ timed_out time)

unset_self : (ms : List Bool) (x : ℕ) → get_or (set ms x false) x false ≡ false
unset_self [] x = refl
unset_self (m ∷ ms) zero = refl
unset_self (m ∷ ms) (suc x) = unset_self ms x

unset_kept :
    (ms : List Bool) (x y : ℕ) → get_or ms x false ≡ false → get_or (set ms y false) x false ≡ false
unset_kept ms x y h = elim (ℕ_discrete y x) [
  | yes e ↦ subst (λ x. get_or (set ms y false) x false ≡ false) e (unset_self ms y)
  | no ne ↦ get_or-set_ne ms y x false false ne ∙ h
]

unset_by_all :
    (ws : List Waiter) (time x : ℕ) (t : ThreadTable)
    → get_or t.wakeup_msgs x false ≡ false
    → get_or (resume_each ws time false t).wakeup_msgs x false ≡ false
unset_by_all [] time x t h = h
unset_by_all (w ∷ ws) time x t h =
    unset_by_all ws time x (resume w.thread_id time false t)
      (unset_kept t.wakeup_msgs x w.thread_id h)

all_unset :
    (ws : List Waiter) (time : ℕ) (t : ThreadTable)
    → All (λ x. get_or (resume_each ws time false t).wakeup_msgs x false ≡ false) (ids ws)
all_unset [] time t = tt
all_unset (w ∷ ws) time t =
    let t' = resume w.thread_id time false t in
    (
      unset_by_all ws time w.thread_id t' (unset_self t.wakeup_msgs w.thread_id),
      all_unset ws time t',
    )

expired :
    (s : SyscallServer) (time : ℕ) (xs : List ℕ)
    → All (Woken time s.table.threads) xs
    → All (λ x. get_or s.table.wakeup_msgs x false ≡ false) xs
    → All (Expires s time) xs
expired s time [] a b = tt
expired s time (x ∷ xs) a b = ((a.0, rw (b.0, a.0.1) refl), expired s time xs a.1 b.1)

pub resume_each-Expires :
    (ws : List Waiter) (time : ℕ) (t : ThreadTable) (s : SyscallServer)
    → All (λ x. x < length t.threads) (ids ws)
    → s.table ≡ resume_each ws time false t
    → All (Expires s time) (ids ws)
resume_each-Expires ws time t s a e =
    let woken = resume_all_wakes (ids ws) time t.threads a in
    expired s time (ids ws)
      (subst (λ ts. All (Woken time ts) (ids ws))
        (sym (threads_of ws time false t) ∙ ap (λ (u : ThreadTable). u.threads) (sym e)) woken)
      (subst (λ (u : ThreadTable). All (λ x. get_or u.wakeup_msgs x false ≡ false) (ids ws)) (sym e)
        (all_unset ws time t))
