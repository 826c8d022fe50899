-- ===== src/Performance/Contention/Fence.antt =====
-- A request that waits for all slots of a contended resource.
use model_lib.Prelude.{
  All, List, [], arith, false, inl, inr, length, ltb, ltb-cases, map, refl, subst, sym, ℕ, ◌<◌,
  ◌==◌, ◌∷◌, ◌≡◌, ◌≤◌,
}
use model_lib.System.Threads.{plus}
use model_lib.Performance.Contention.{
  Slot, ContentionModel, latest, used_in, get_num_used, get_barrier_completion_time,
}

-- The time is not before `t`, nor before any slot is free.
abbrev IsAfterAll : List Slot → ℕ → ℕ → Type 0
IsAfterAll ss t time = (t ≤ time) × All (λ (s : Slot). s.free_at ≤ time) ss

latest-IsAfterAll : (ss : List Slot) (t : ℕ) → IsAfterAll ss t (latest ss t)
latest-IsAfterAll [] t = (omega arith, tt)
latest-IsAfterAll (s ∷ ss) t = elim (ltb-cases t s.free_at) [
  | inl (e, l) ↦
      let (below, all) = latest-IsAfterAll ss s.free_at in
      let step : latest (s ∷ ss) t ≡ latest ss s.free_at = rw e refl in
      subst (λ time. IsAfterAll (s ∷ ss) t time) (sym step) (omega (arith, l, below), (below, all))
  | inr (e, l) ↦
      let (below, all) = latest-IsAfterAll ss t in
      let step : latest (s ∷ ss) t ≡ latest ss t = rw e refl in
      subst (λ time. IsAfterAll (s ∷ ss) t time) (sym step) (below, (omega (arith, l, below), all))
]

none_used :
    (ss : List Slot) (tag time : ℕ)
    → used_in (map (λ _. record { free_at = time; tag = tag }) ss) time ≡ 0
none_used [] tag time = refl
none_used (s ∷ ss) tag time =
    let passed : ltb time time ≡ false = ground arith in rw passed (none_used ss tag time)

-- A barrier on a model with slots starts when the request has arrived and all slots are free, at
-- `start`; it ends `t_delay` later, and at its end no slot is in use.
pub barrier_waits_for_all :
    (c : ContentionModel) (t_start t_delay tag : ℕ)
    → 0 < length c.slots
    → let r = get_barrier_completion_time c t_start t_delay tag in
      (start : ℕ) × (r.0 ≡ plus start t_delay)
      × (t_start ≤ start)
      × All (λ (s : Slot). s.free_at ≤ start) c.slots
      × (get_num_used r.1 r.0 ≡ 0)
unfolding get_barrier_completion_time get_num_used
barrier_waits_for_all c t d tag n =
    let some_slots : (length c.slots == 0) ≡ false = ground arith in
    let (below, all) = latest-IsAfterAll c.slots t in
    let start = latest c.slots t in
    rw some_slots (start, refl, below, all, none_used c.slots tag (plus start d))
