-- ===== src/Performance/Contention/Start.antt =====
-- When a request for a contended resource starts.
use model_lib.Prelude.{
  All, Bool-cases, List, [], ap, arith, false, get_elem?, if◌then◌else◌, inl, inr, leb, length, ltb,
  ltb-cases, refl, set, some, subst, suc, sym, ℕ, ◌+◌, ◌<◌, ◌==◌, ◌∷◌, ◌≡◌, ◌≢◌, ◌≤◌,
}
use model_lib.System.Threads.{plus}
use model_lib.Performance.Contention.{
  Slot, ContentionModel, find_unit, first_time, get_completion_time, peek_start, get_start_time,
}

-- The two loops agree on when the request starts.
find_unit-peek_start :
    (ss : List Slot) (t i least : ℕ) (u : ℕ)
    → let time = (find_unit t ss i (u, least)).1 in
      (if ltb t time then time else t) ≡ peek_start t ss least
find_unit-peek_start [] t i least u = refl
find_unit-peek_start (s ∷ ss) t i least u = elim (Bool-cases (leb s.free_at t)) [
  | inl e ↦ let passed : ltb t s.free_at ≡ false = ground (arith, e) in rw (e, passed) refl
  | inr e ↦ elim (Bool-cases (ltb s.free_at least)) [
    | inl l ↦ rw (e, l) (find_unit-peek_start ss t (suc i) s.free_at i)
    | inr l ↦ rw (e, l) (find_unit-peek_start ss t (suc i) least u)
  ]
]

-- The time of the request is that of the slot at its place.
abbrev IsHeld : List Slot → ℕ × ℕ → Type 0
IsHeld ss unit = (s : Slot) × (get_elem? ss unit.0 ≡ some s) × (s.free_at ≡ unit.1)

find_unit-IsHeld :
    (all ss : List Slot) (t i : ℕ) (unit : ℕ × ℕ)
    → ((j : ℕ) → get_elem? all (i + j) ≡ get_elem? ss j)
    → IsHeld all unit
    → IsHeld all (find_unit t ss i unit)
find_unit-IsHeld all [] t i unit at h = h
find_unit-IsHeld all (s ∷ ss) t i unit at h =
    let here : IsHeld all (i, s.free_at) =
      (s, subst (λ n. get_elem? all n ≡ some s) (omega arith) (at 0), refl) in
    let later : (j : ℕ) → get_elem? all (suc i + j) ≡ get_elem? ss j =
      λ j. subst (λ n. get_elem? all n ≡ get_elem? ss j) (omega arith) (at (suc j)) in
    elim (Bool-cases (leb s.free_at t)) [
      | inl e ↦ rw e here
      | inr e ↦ elim (Bool-cases (ltb s.free_at unit.1)) [
        | inl l ↦ rw (e, l) (find_unit-IsHeld all ss t (suc i) (i, s.free_at) later here)
        | inr l ↦ rw (e, l) (find_unit-IsHeld all ss t (suc i) unit later h)
      ]
    ]

-- If the request has to wait until `time`, that is at most `bound` and no slot is free before it.
abbrev IsLeast : ℕ → List Slot → ℕ → ℕ → Type 0
IsLeast t ss bound time = t < time → (time ≤ bound) × All (λ (s : Slot). time ≤ s.free_at) ss

find_unit-IsLeast :
    (ss : List Slot) (t i : ℕ) (unit : ℕ × ℕ) → IsLeast t ss unit.1 (find_unit t ss i unit).1
find_unit-IsLeast [] t i unit = λ h. (omega arith, tt)
find_unit-IsLeast (s ∷ ss) t i unit =
    let goal = λ (r : ℕ × ℕ). IsLeast t (s ∷ ss) unit.1 r.1 in
    elim (Bool-cases (leb s.free_at t)) [
      | inl e ↦
          let step : find_unit t (s ∷ ss) i unit ≡ (i, s.free_at) = rw e refl in
          subst goal (sym step) (λ h. absurd (ground (arith, e)))
      | inr e ↦ elim (Bool-cases (ltb s.free_at unit.1)) [
        | inl l ↦
            let next = find_unit t ss (suc i) (i, s.free_at) in
            let step : find_unit t (s ∷ ss) i unit ≡ next = rw (e, l) refl in
            subst goal (sym step) (λ h.
              let (below, all) = find_unit-IsLeast ss t (suc i) (i, s.free_at) h in
              (ground (arith, l), (below, all)))
        | inr l ↦
            let next = find_unit t ss (suc i) unit in
            let step : find_unit t (s ∷ ss) i unit ≡ next = rw (e, l) refl in
            subst goal (sym step) (λ h.
              let (below, all) = find_unit-IsLeast ss t (suc i) unit h in
              (below, (ground (arith, l, below), all)))
      ]
    ]

-- No slot is free at a time from `t` on and before `start`.
abbrev pub AreBusyUntil : List Slot → ℕ → ℕ → Type 0
AreBusyUntil ss t start =
    (other : ℕ) → t ≤ other → other < start → All (λ (s : Slot). other < s.free_at) ss

all_later :
    (ss : List Slot) (other time : ℕ)
    → other < time
    → All (λ (s : Slot). time ≤ s.free_at) ss
    → All (λ (s : Slot). other < s.free_at) ss
all_later [] other time h a = tt
all_later (s ∷ ss) other time h a = (omega (arith, a.0), all_later ss other time h a.1)

-- The request at `t` starts at `start` on a slot of `ss`.
abbrev IsStart : List Slot → ℕ → ℕ → ℕ → Type 0
IsStart ss t unit start =
    (t ≤ start)
    × AreBusyUntil ss t start
    × (s : Slot) × (get_elem? ss unit ≡ some s)
    × (s.free_at ≤ start)

find_unit-IsStart :
    (ss : List Slot) (t : ℕ)
    → 0 < length ss
    → let r = find_unit t ss 0 (0, first_time ss) in IsStart ss t r.0 (if ltb t r.1 then r.1 else t)
find_unit-IsStart [] t n = absurd (omega arith)
find_unit-IsStart (s ∷ ss) t n =
    let all = s ∷ ss in
    let r = find_unit t all 0 (0, s.free_at) in
    let least = find_unit-IsLeast all t 0 (0, s.free_at) in
    let (x, at, time) =
      find_unit-IsHeld all all t 0 (0, s.free_at) (λ j. ap (get_elem? all) (omega arith))
        (s, refl, refl) in
    elim (ltb-cases t r.1) [
      | inl (e, l) ↦ rw e (
        omega arith,
        (λ other a b. all_later all other r.1 b (least l).1),
        x,
        at,
        omega (arith, time),
      )
      | inr (e, l) ↦
          rw e (omega arith, (λ other a b. absurd (omega arith)), x, at, omega (arith, time))
    ]

-- A call with `t_start` other than zero on a model with slots, in its order or not: `getStartTime`
-- tells when `getCompletionTime` starts the request, which ends after `t_delay` more.
pub completion-start :
    (c : ContentionModel) (t_start t_delay tag : ℕ)
    → t_start ≢ 0
    → (get_completion_time c t_start t_delay tag).0 ≡ plus (get_start_time c t_start) t_delay
unfolding get_completion_time get_start_time
completion-start c t d tag h = elim (Bool-cases (length c.slots == 0)) [
  | inl e ↦ rw e refl
  | inr e ↦
      let nonzero : (t == 0) ≡ false = ground arith in
      elim (Bool-cases (ltb t c.last)) [
        | inl l ↦ rw (e, nonzero, l) refl
        | inr l ↦
            rw (e, nonzero, l)
              (ap (λ start. plus start d) (find_unit-peek_start c.slots t 0 (first_time c.slots) 0))
      ]
]

-- A request in its order, after time zero, on a model with slots starts at the earliest time from
-- its arrival on at which a slot is free; it takes such a slot until it ends, that time and its
-- delay later, and leaves all the others and counts as the last one.
pub get_completion_time_lem :
    (c : ContentionModel) (t_start t_delay tag : ℕ)
    → 0 < length c.slots
    → t_start ≢ 0
    → c.last ≤ t_start
    → let start = get_start_time c t_start in
      let r = get_completion_time c t_start t_delay tag in
      (r.0 ≡ plus start t_delay)
      × (t_start ≤ start)
      × AreBusyUntil c.slots t_start start
      × (unit : ℕ) × (s : Slot) × (get_elem? c.slots unit ≡ some s)
      × (s.free_at ≤ start)
      × (r.1.slots ≡ set c.slots unit (record { free_at = r.0; tag = tag }))
      × (r.1.last ≡ t_start)
unfolding get_completion_time get_start_time
get_completion_time_lem c t d tag n h l =
    let some_slots : (length c.slots == 0) ≡ false = ground arith in
    let nonzero : (t == 0) ≡ false = ground arith in
    let ordered : ltb t c.last ≡ false = ground arith in
    let r = find_unit t c.slots 0 (0, first_time c.slots) in
    let (later, busy, s, at, free) =
      subst (λ start. IsStart c.slots t r.0 start)
        (find_unit-peek_start c.slots t 0 (first_time c.slots) 0) (find_unit-IsStart c.slots t n) in
    let begins : (if ltb t r.1 then r.1 else t) ≡ peek_start t c.slots (first_time c.slots) =
      find_unit-peek_start c.slots t 0 (first_time c.slots) 0 in
    rw (some_slots, nonzero, ordered)
      (ap (λ start. plus start d) begins, later, busy, r.0, s, at, free, refl, refl)
