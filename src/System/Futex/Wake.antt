-- ===== src/System/Futex/Wake.antt =====
-- The order in which `SimFutex` wakes its waiters.
use model_lib.Prelude.{
  Bool, Bool-cases, List, Option, Option-cases, [], ap, arith, drop, false, if◌then◌else◌, inl, inr,
  length, length-drop, none, not, refl, some, subst, suc, sym, take, true, zero, ℕ, ◌+◌, ◌>>=◌, ◌∙◌,
  ◌∷◌, ◌≡◌, ◌≤◌,
}
use model_lib.System.Futex.Queue.{Waiter, ThreadTable, take_first, matches, resume, dequeue_waiter}
use model_lib.System.Futex.{wake_up}

-- The waiters of a kind, and the others.
abbrev pub filter : (Waiter → Bool) → List Waiter → List Waiter
filter p [] = []
filter p (w ∷ ws) = let rest = filter p ws in if p w then w ∷ rest else rest

abbrev pub others : (Waiter → Bool) → List Waiter → List Waiter
others p ws = filter (λ w. not (p w)) ws

-- Threads resumed one after the other at one time.
abbrev pub resume_each : List Waiter → ℕ → Bool → ThreadTable → ThreadTable
resume_each [] time msg t = t
resume_each (w ∷ ws) time msg t = resume_each ws time msg (resume w.thread_id time msg t)

-- `ws'` is `ws` without the waiter `w`, the first of its kind.
abbrev pub IsTaken : (Waiter → Bool) → List Waiter → Option (Waiter × List Waiter) → Type 0
IsTaken p ws none = filter p ws ≡ []
IsTaken p ws (some (w, ws')) = (filter p ws ≡ w ∷ filter p ws') × (others p ws ≡ others p ws')

put_back-IsTaken :
    (p : Waiter → Bool) (w : Waiter) (ws : List Waiter) (o : Option (Waiter × List Waiter))
    → p w ≡ false
    → IsTaken p ws o
    → IsTaken p (w ∷ ws) (do r ← o; some (r.0, w ∷ r.1))
put_back-IsTaken p w ws none e h = rw e h
put_back-IsTaken p w ws (some (v, ws')) e h = rw e (h.0, ap (λ vs. w ∷ vs) h.1)

take_first_lem : (p : Waiter → Bool) (ws : List Waiter) → IsTaken p ws (take_first p ws)
take_first_lem p [] = refl
take_first_lem p (w ∷ ws) = elim (Bool-cases (p w)) [
  | inl e ↦
      let hit : take_first p (w ∷ ws) ≡ some (w, ws) = rw e refl in
      subst (λ (o : Option (Waiter × List Waiter)). IsTaken p (w ∷ ws) o) (sym hit)
        (rw e refl, rw e refl)
  | inr e ↦
      subst (λ (o : Option (Waiter × List Waiter)). IsTaken p (w ∷ ws) o) (rw e refl)
        (put_back-IsTaken p w ws (take_first p ws) e (take_first_lem p ws))
]

pub IsTaken-at :
    (p : Waiter → Bool) (ws : List Waiter) (o : Option (Waiter × List Waiter))
    → take_first p ws ≡ o
    → IsTaken p ws o
IsTaken-at p ws o e =
    subst (λ (o : Option (Waiter × List Waiter)). IsTaken p ws o) e (take_first_lem p ws)

-- What waking up to `n` waiters of a mask leaves of the queue `ws` and of the threads `t`.
abbrev pub AreWoken : ℕ → ℕ → ℕ → List Waiter → ThreadTable → ℕ × List Waiter × ThreadTable → Type 0
AreWoken n mask time ws t r =
    let woken = take n (filter (matches mask) ws) in
    (r.0 ≡ length woken)
    × (filter (matches mask) r.1 ≡ drop n (filter (matches mask) ws))
    × (others (matches mask) r.1 ≡ others (matches mask) ws)
    × (r.2 ≡ resume_each woken time true t)

pub wake_up_lem :
    (n : ℕ) (ws : List Waiter) (mask time : ℕ) (t : ThreadTable)
    → AreWoken n mask time ws t (wake_up n ws mask time t)
unfolding dequeue_waiter
wake_up_lem zero ws mask time t = (refl, refl, refl, refl)
wake_up_lem (suc n) ws mask time t = elim (Option-cases (take_first (matches mask) ws)) [
  | inl e ↦
      let empty = IsTaken-at (matches mask) ws none e in
      rw (wake_up, dequeue_waiter, e, empty) (refl, refl, refl, refl)
  | inr ((w, ws'), e) ↦
      let taken = IsTaken-at (matches mask) ws (some (w, ws')) e in
      let (count, left, rest, table) =
        wake_up_lem n ws' mask time (resume w.thread_id time true t) in
      rw (wake_up, dequeue_waiter, e, taken.0) (ap suc count, left, rest ∙ sym taken.1, table)
]

length-filter :
    (p : Waiter → Bool) (ws : List Waiter) → length (filter p ws) + length (others p ws) ≡ length ws
length-filter p [] = refl
length-filter p (w ∷ ws) = elim (Bool-cases (p w)) [
  | inl e ↦ rw e (omega (arith, length-filter p ws))
  | inr e ↦ rw e (omega (arith, length-filter p ws))
]

pub AreWoken-shorter :
    (n mask time : ℕ) (ws : List Waiter) (t : ThreadTable) (r : ℕ × List Waiter × ThreadTable)
    → AreWoken n mask time ws t r
    → length r.1 ≤ length ws
AreWoken-shorter n mask time ws t r (count, left, rest, table) =
    let p = matches mask in
    omega (
      arith,
      length-filter p ws,
      length-filter p r.1,
      ap (λ (vs : List Waiter). length vs) left,
      ap (λ (vs : List Waiter). length vs) rest,
      length-drop n (filter p ws),
    )
