-- ===== src/Misc/CircularQueue/Slots.antt =====
-- The slots of circular_queue.h: sums of indices around the ring.
use model_lib.Prelude.{
  ap, arith, inl, inr, ltb-cases, suc, ℕ, ◌%◌, ◌+◌, ◌-◌, ◌<◌, ◌^◌, ◌↔◌, ◌∙◌, ◌≡◌, ◌≢◌, ◌≤◌, ◌⊎◌,
}
use native.Mathlib.Nat.{mod-eq_of_lt, mod-eq-sub-mod, mod-lt, mod-add-mod}
use model_lib.Misc.CircularQueue.{next_slot}

-- A sum of two slots, around the ring.
pub wrap_cases : (a n : ℕ) → a < n + n → ((a < n) × (a % n ≡ a)) ⊎ ((n ≤ a) × (a % n ≡ a - n))
wrap_cases a n h = elim (ltb-cases a n) [
  | inl (e, l) ↦ inl (l, mod-eq_of_lt l)
  | inr (e, l) ↦ inr (l, mod-eq-sub-mod l ∙ mod-eq_of_lt (omega arith))
]

pub next_cases :
    (size i : ℕ)
    → size ≤ 2 ^ 31
    → i < size
    → ((suc i < size) × (next_slot size i ≡ suc i)) ⊎ ((suc i ≡ size) × (next_slot size i ≡ 0))
next_cases size i s h =
    let small : (i + 1) % 2 ^ 32 ≡ suc i = omega arith in
    elim (wrap_cases (suc i) size (omega arith)) [
      | inl (l, e) ↦ inl (l, rw small e)
      | inr (l, e) ↦ inr (omega arith, rw small (e ∙ omega arith))
    ]

-- The slot behind the last of `n` elements, and the slot behind that.
module _ (size last n : ℕ) (s : size ≤ 2 ^ 31) (h : n < size) (l : last < size) where
  pub ring_count : ((last + n) % size + size + (2 ^ 32 - last)) % 2 ^ 32 % size ≡ n
  ring_count = elim (wrap_cases (last + n) size (omega arith)) [
    | inl (b, e) ↦ elim (wrap_cases (n + size) size (omega arith)) [
      | inl (c, f) ↦ absurd (omega arith)
      | inr (c, f) ↦
          let m : ((last + n) % size + size + (2 ^ 32 - last)) % 2 ^ 32 ≡ n + size =
            omega (arith, e) in
          rw m (f ∙ omega arith)
    ]
    | inr (b, e) ↦
        let m : ((last + n) % size + size + (2 ^ 32 - last)) % 2 ^ 32 ≡ n = omega (arith, e) in
        rw m (mod-eq_of_lt h)
  ]

  pub ring_next : next_slot size ((last + n) % size) ≡ (last + suc n) % size
  ring_next =
      let small : ((last + n) % size + 1) % 2 ^ 32 ≡ (last + n) % size + 1 =
        omega (arith, mod-lt (last + n) (pos)) in
      let sum : last + n + 1 ≡ last + suc n = omega arith in
      rw small (mod-add-mod (last + n) size 1 ∙ ap (λ a. a % size) sum)
    where
      pos : 0 < size
      pos = omega arith

  pub ring_full : (next_slot size ((last + n) % size) ≡ last) ↔ (suc n ≡ size)
  ring_full = rw ring_next (elim (wrap_cases (last + suc n) size (omega arith)) [
    | inl (b, e) ↦ (λ f. omega (arith, e, f), λ f. omega (arith, e, f))
    | inr (b, e) ↦ (λ f. omega (arith, e, f), λ f. omega (arith, e, f))
  ])

  pub ring_empty : ((last + n) % size ≡ last) ↔ (n ≡ 0)
  ring_empty = elim (wrap_cases (last + n) size (omega arith)) [
    | inl (b, e) ↦ (λ f. omega (arith, e, f), λ f. omega (arith, e, f))
    | inr (b, e) ↦ (λ f. omega (arith, e, f), λ f. omega (arith, e, f))
  ]

  -- Other slots of the elements are not that one.
  pub ring_other : (i : ℕ) → i < n → (last + i) % size ≢ (last + n) % size
  ring_other i b f = elim (wrap_cases (last + i) size (omega arith)) [
    | inl (c, d) ↦ elim (wrap_cases (last + n) size (omega arith)) [
      | inl (c', d') ↦ omega (arith, d, d', f)
      | inr (c', d') ↦ omega (arith, d, d', f)
    ]
    | inr (c, d) ↦ elim (wrap_cases (last + n) size (omega arith)) [
      | inl (c', d') ↦ omega (arith, d, d', f)
      | inr (c', d') ↦ omega (arith, d, d', f)
    ]
  ]

  -- Slots counted from the next one.
  pub ring_shift : (i : ℕ) → i < size → (next_slot size last + i) % size ≡ (last + suc i) % size
  ring_shift i b =
      let small : (last + 1) % 2 ^ 32 ≡ last + 1 = omega arith in
      let sum : last + 1 + i ≡ last + suc i = omega arith in
      rw small (mod-add-mod (last + 1) size i ∙ ap (λ a. a % size) sum)
