-- ===== src/System/Futex/Due.antt =====
-- `futexPeriodic` of syscall_server.cc, run several times at one time: which waiters leave their
-- queues, and in which order their threads are resumed.
use model_lib.Prelude.{
  Bool-cases, List, Option-cases, [], ap, drop, false, inl, inr, none, refl, some, suc, sym, take,
  zero, ℕ, ◌++◌, ◌==◌, ◌∙◌, ◌∷◌, ◌≡◌,
}
use model_lib.System.Sync.Cond.{lookup_or}
use model_lib.System.Futex.Queue.{resume, Waiter, ThreadTable, take_first, is_due, wake_timed_out}
use model_lib.System.Futex.{SyscallServer, waiters_at, wake_entries, futex_periodic}
use model_lib.System.Futex.Wake.{resume_each, filter, others, IsTaken-at}

-- `ws'` is `ws` without the first `n` waiters that are due; the others stay in their order.
abbrev pub AreResumed : ℕ → ℕ → List Waiter → List Waiter → Type 0
AreResumed n time ws ws' =
    (filter (is_due time) ws' ≡ drop n (filter (is_due time) ws))
    × (others (is_due time) ws' ≡ others (is_due time) ws)

wake_timed_out_lem :
    (ws : List Waiter) (time : ℕ) (t : ThreadTable)
    → AreResumed 1 time ws (wake_timed_out ws time t).0
unfolding wake_timed_out
wake_timed_out_lem ws time t = elim (Option-cases (take_first (is_due time) ws)) [
  | inl e ↦
      let empty = IsTaken-at (is_due time) ws none e in rw (wake_timed_out, e, empty) (refl, refl)
  | inr ((w, ws'), e) ↦
      let taken = IsTaken-at (is_due time) ws (some (w, ws')) e in
      rw (wake_timed_out, e, taken.0) (refl, sym taken.1)
]

wake_entries_lem :
    (es : List (ℕ × List Waiter)) (a time : ℕ) (t : ThreadTable)
    → AreResumed 1 time (lookup_or es a []) (lookup_or (wake_entries es time t).0 a [])
wake_entries_lem [] a time t = (refl, refl)
wake_entries_lem ((k, ws) ∷ es) a time t = elim (Bool-cases (k == a)) [
  | inl e ↦ rw e (wake_timed_out_lem ws time t)
  | inr e ↦ rw e (wake_entries_lem es a time (wake_timed_out ws time t).1)
]

pub futex_periodic_lem :
    (s : SyscallServer) (a time : ℕ)
    → AreResumed 1 time s.sleeping (futex_periodic s time).sleeping
      × AreResumed 1 time (waiters_at s a) (waiters_at (futex_periodic s time) a)
unfolding futex_periodic
futex_periodic_lem s a time =
    let r = wake_timed_out s.sleeping time s.table in
    (wake_timed_out_lem s.sleeping time s.table, wake_entries_lem s.futexes a time r.1)

-- The periodic hook runs `n` times before time goes on.
abbrev pub periodics : ℕ → SyscallServer → ℕ → SyscallServer
periodics zero s time = s
periodics (suc n) s time = periodics n (futex_periodic s time) time

-- The waiter that is due after `i` others that are, if there is one.
abbrev due_at : ℕ → ℕ → List Waiter → List Waiter
due_at i time ws = take 1 (drop i (filter (is_due time) ws))

-- These waiters of all futexes, in the order of the table.
abbrev due_in : ℕ → ℕ → List (ℕ × List Waiter) → List Waiter
due_in i time [] = []
due_in i time ((a, ws) ∷ es) = due_at i time ws ++ due_in i time es

-- Those of run `i`, and of the `n` runs from run `i` on.
abbrev due_in_run : ℕ → ℕ → SyscallServer → List Waiter
due_in_run i time s = due_at i time s.sleeping ++ due_in i time s.futexes

abbrev pub due_in_runs : ℕ → ℕ → ℕ → SyscallServer → List Waiter
due_in_runs zero i time s = []
due_in_runs (suc n) i time s = due_in_run i time s ++ due_in_runs n (suc i) time s

wake_timed_out-table :
    (ws : List Waiter) (time : ℕ) (t : ThreadTable)
    → (wake_timed_out ws time t).1 ≡ resume_each (due_at 0 time ws) time false t
unfolding wake_timed_out
wake_timed_out-table ws time t = elim (Option-cases (take_first (is_due time) ws)) [
  | inl e ↦ let empty = IsTaken-at (is_due time) ws none e in rw (wake_timed_out, e, empty) refl
  | inr ((w, ws'), e) ↦
      let taken = IsTaken-at (is_due time) ws (some (w, ws')) e in
      rw (wake_timed_out, e, taken.0) refl
]

resume_each-append :
    (ws vs : List Waiter) (time : ℕ) (t : ThreadTable)
    → resume_each (ws ++ vs) time false t ≡ resume_each vs time false (resume_each ws time false t)
resume_each-append [] vs time t = refl
resume_each-append (w ∷ ws) vs time t =
    resume_each-append ws vs time (resume w.thread_id time false t)

wake_entries-table :
    (es : List (ℕ × List Waiter)) (time : ℕ) (t : ThreadTable)
    → (wake_entries es time t).1 ≡ resume_each (due_in 0 time es) time false t
wake_entries-table [] time t = refl
wake_entries-table ((a, ws) ∷ es) time t =
    wake_entries-table es time (wake_timed_out ws time t).1
    ∙ ap (λ (u : ThreadTable). resume_each (due_in 0 time es) time false u)
        (wake_timed_out-table ws time t)
    ∙ sym (resume_each-append (due_at 0 time ws) (due_in 0 time es) time t)

futex_periodic-table :
    (s : SyscallServer) (time : ℕ)
    → (futex_periodic s time).table ≡ resume_each (due_in_run 0 time s) time false s.table
unfolding futex_periodic
futex_periodic-table s time =
    wake_entries-table s.futexes time (wake_timed_out s.sleeping time s.table).1
    ∙ ap (λ (u : ThreadTable). resume_each (due_in 0 time s.futexes) time false u)
        (wake_timed_out-table s.sleeping time s.table)
    ∙ sym (resume_each-append (due_at 0 time s.sleeping) (due_in 0 time s.futexes) time s.table)

pub drop-drop : (n : ℕ) (ws : List Waiter) → drop n (drop 1 ws) ≡ drop (suc n) ws
drop-drop zero [] = refl
drop-drop (suc n) [] = refl
drop-drop n (w ∷ ws) = refl

-- A run takes the first waiter that is due from each queue.
due_at-next :
    (i time : ℕ) (ws vs : List Waiter)
    → AreResumed 1 time ws vs
    → due_at i time vs ≡ due_at (suc i) time ws
due_at-next i time ws vs (due, rest) =
    ap (λ xs. take 1 (drop i xs)) due ∙ ap (take 1) (drop-drop i (filter (is_due time) ws))

due_in-next :
    (i time : ℕ) (es : List (ℕ × List Waiter)) (t : ThreadTable)
    → due_in i time (wake_entries es time t).0 ≡ due_in (suc i) time es
due_in-next i time [] t = refl
due_in-next i time ((a, ws) ∷ es) t =
    ap (λ xs. xs ++ due_in i time (wake_entries es time (wake_timed_out ws time t).1).0)
      (due_at-next i time ws (wake_timed_out ws time t).0 (wake_timed_out_lem ws time t))
    ∙ ap (λ xs. due_at (suc i) time ws ++ xs) (due_in-next i time es (wake_timed_out ws time t).1)

due_in_run-next :
    (i time : ℕ) (s : SyscallServer)
    → due_in_run i time (futex_periodic s time) ≡ due_in_run (suc i) time s
unfolding futex_periodic
due_in_run-next i time s =
    let r = wake_timed_out s.sleeping time s.table in
    ap (λ xs. xs ++ due_in i time (wake_entries s.futexes time r.1).0)
      (due_at-next i time s.sleeping r.0 (wake_timed_out_lem s.sleeping time s.table))
    ∙ ap (λ xs. due_at (suc i) time s.sleeping ++ xs) (due_in-next i time s.futexes r.1)

due_in_runs-next :
    (n i time : ℕ) (s : SyscallServer)
    → due_in_runs n i time (futex_periodic s time) ≡ due_in_runs n (suc i) time s
due_in_runs-next zero i time s = refl
due_in_runs-next (suc n) i time s =
    ap (λ xs. xs ++ due_in_runs n (suc i) time (futex_periodic s time)) (due_in_run-next i time s)
    ∙ ap (λ xs. due_in_run (suc i) time s ++ xs) (due_in_runs-next n (suc i) time s)

pub periodics-table :
    (n : ℕ) (s : SyscallServer) (time : ℕ)
    → (periodics n s time).table ≡ resume_each (due_in_runs n 0 time s) time false s.table
periodics-table zero s time = refl
periodics-table (suc n) s time =
    periodics-table n (futex_periodic s time) time
    ∙ ap (λ xs. resume_each xs time false (futex_periodic s time).table)
        (due_in_runs-next n 0 time s)
    ∙ ap (λ (u : ThreadTable). resume_each (due_in_runs n 1 time s) time false u)
        (futex_periodic-table s time)
    ∙ sym (resume_each-append (due_in_run 0 time s) (due_in_runs n 1 time s) time s.table)
