-- ===== src/System/Sync/Barrier/Rounds.antt =====
-- One round of `SimBarrier::wait`.
use model_lib.Prelude.{
  All, List, [], ap, append-nil, append_assoc, arith, false, get_or-set_ne, get_or-set_self, length,
  length-append, length-map, length-set, map, refl, replicate, subst, suc, sym, true, ℕ, ◌%◌, ◌++◌,
  ◌+◌, ◌-◌, ◌<◌, ◌==◌, ◌^◌, ◌∙◌, ◌∷◌, ◌≡◌,
}
use native.Mathlib.Decide.{ℕ_discrete}
use model_lib.System.Threads.{
  Thread, StallType, CoreState, Outcome, returns, waits, stall_thread, resume_thread, thread_at,
  no_thread,
}
use model_lib.System.Sync.Barrier.{Barrier, create_barrier, resume_all, wait, wait_all}

-- The first `count - 1` threads.
early_waits :
    (b : Barrier) (arrivals : List (ℕ × ℕ)) (threads : List Thread)
    → length b.waiting + length arrivals < b.count
    → b.count < 2 ^ 32
    → let r = wait_all b arrivals threads in
      (r.0 ≡ replicate (length arrivals) waits)
      × (r.1 ≡ record { waiting = b.waiting ++ map (λ p. p.0) arrivals; count = b.count })
      × (length r.2 ≡ length threads)
unfolding wait
early_waits b [] threads h l = (refl, ground (arith, append-nil b.waiting), refl)
early_waits b ((id, time) ∷ rest) threads h l =
    let early : (length b.waiting == (b.count + (2 ^ 32 - 1)) % 2 ^ 32) ≡ false = ground arith in
    let queued = record b { waiting = b.waiting ++ (id ∷ []) } in
    let size = length-append b.waiting (id ∷ []) in
    let stalled = stall_thread id StallType.stall_barrier threads in
    let (outs, after, len) = early_waits queued rest stalled (omega (arith, size)) l in
    rw (early, wait, wait_all)
      (
        ap (λ os. waits ∷ os) outs,
        after
            ∙ ap (λ ws. record { waiting = ws; count = b.count })
                (append_assoc b.waiting (id ∷ []) (map (λ (p : ℕ × ℕ). p.0) rest)),
        len
            ∙ length-set threads id (record (thread_at threads id) {
              status = CoreState.stalled;
              stalled_reason = StallType.stall_barrier;
            }),
      )

-- A thread runs again, from `time` on.
abbrev pub Woken : ℕ → List Thread → ℕ → Type 0
Woken time threads id =
    ((thread_at threads id).status ≡ CoreState.running)
    × ((thread_at threads id).wakeup_time ≡ time)

-- What `resumeThread` leaves of the thread.
abbrev resumed : ℕ → ℕ → List Thread → Thread
resumed id time threads = record (thread_at threads id) {
  status = CoreState.running;
  wakeup_time = time;
}

-- Resuming a thread keeps ids in range.
in_range :
    (id time : ℕ) (threads : List Thread) (ws : List ℕ)
    → All (λ w. w < length threads) ws
    → All (λ w. w < length (resume_thread id time threads)) ws
in_range id time threads ws a =
    subst (λ n. All (λ w. w < n) ws) (sym (length-set threads id (resumed id time threads))) a

resumed-Woken :
    (id time : ℕ) (threads : List Thread)
    → id < length threads
    → Woken time (resume_thread id time threads) id
resumed-Woken id time threads h =
    let same = get_or-set_self threads id (resumed id time threads) no_thread h in
    (ap (λ (t : Thread). t.status) same, ap (λ (t : Thread). t.wakeup_time) same)

resume_kept :
    (id other time : ℕ) (threads : List Thread)
    → other < length threads
    → Woken time threads id
    → Woken time (resume_thread other time threads) id
resume_kept id other time threads h w = elim (ℕ_discrete id other) [
  | yes e ↦ rw e (resumed-Woken other time threads h)
  | no ne ↦
      let same =
        get_or-set_ne threads other id (resumed other time threads) no_thread (λ e. ne (sym e)) in
      (ap (λ (t : Thread). t.status) same ∙ w.0, ap (λ (t : Thread). t.wakeup_time) same ∙ w.1)
]

resume_all_kept :
    (ws : List ℕ) (id time : ℕ) (threads : List Thread)
    → All (λ w. w < length threads) ws
    → Woken time threads id
    → Woken time (resume_all ws time threads) id
resume_all_kept [] id time threads a w = w
resume_all_kept (x ∷ ws) id time threads a w =
    resume_all_kept ws id time (resume_thread x time threads) (in_range x time threads ws a.1)
      (resume_kept id x time threads a.0 w)

pub resume_all_wakes :
    (ws : List ℕ) (time : ℕ) (threads : List Thread)
    → All (λ w. w < length threads) ws
    → All (Woken time (resume_all ws time threads)) ws
resume_all_wakes [] time threads a = tt
resume_all_wakes (x ∷ ws) time threads a = (
  resume_all_kept ws x time (resume_thread x time threads) (in_range x time threads ws a.1)
      (resumed-Woken x time threads a.0),
  resume_all_wakes ws time (resume_thread x time threads) (in_range x time threads ws a.1),
)

last_releases :
    (ws : List ℕ) (count last time : ℕ) (threads : List Thread)
    → suc (length ws) ≡ count
    → count < 2 ^ 32
    → wait (record { waiting = ws; count = count }) last time threads
      ≡ (returns time, create_barrier count, resume_all ws time threads)
unfolding wait
last_releases ws count last time threads e l =
    let full : (length ws == (count + (2 ^ 32 - 1)) % 2 ^ 32) ≡ true = ground (arith, e) in
    rw (full, wait) refl

-- A barrier for `count` threads, less than 2 ^ 32, whose ids are in range: the first `count - 1` of
-- them wait, whatever their order and their times. The last one returns at its own time, all the
-- others run again from that time on, and the barrier is as new.
pub barrier_round :
    (count : ℕ) (arrivals : List (ℕ × ℕ)) (last time : ℕ) (threads : List Thread)
    → suc (length arrivals) ≡ count
    → count < 2 ^ 32
    → All (λ id. id < length threads) (map (λ p. p.0) arrivals)
    → let early = wait_all (create_barrier count) arrivals threads in
      let end = wait early.1 last time early.2 in
      (early.0 ≡ replicate (length arrivals) waits)
      × (end.0 ≡ returns time)
      × (end.1 ≡ create_barrier count)
      × All (Woken time end.2) (map (λ p. p.0) arrivals)
unfolding wait
barrier_round count arrivals last time threads e l a =
    let (outs, after, len) =
      early_waits (create_barrier count) arrivals threads (omega (arith, e)) l in
    let ids = map (λ (p : ℕ × ℕ). p.0) arrivals in
    let after' = (wait_all (create_barrier count) arrivals threads).2 in
    let full =
      last_releases ids count last time after'
        (omega (arith, e, length-map (λ (p : ℕ × ℕ). p.0) arrivals)) l in
    let range = subst (λ n. All (λ w. w < n) ids) (sym len) a in
    let end : wait (wait_all (create_barrier count) arrivals threads).1 last time after'
        ≡ (returns time, create_barrier count, resume_all ids time after') =
      rw after full in
    (
      outs,
      ap (λ (r : Outcome × Barrier × List Thread). r.0) end,
      ap (λ (r : Outcome × Barrier × List Thread). r.1) end,
      subst (λ (r : Outcome × Barrier × List Thread). All (Woken time r.2) ids) (sym end)
          (resume_all_wakes ids time after' range),
    )
