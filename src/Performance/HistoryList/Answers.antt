-- ===== src/Performance/HistoryList/Answers.antt =====
-- `computeUsingHistoryList` as a whole: when it answers, and what the list is afterwards.
use model_lib.Prelude.{
  Bool-cases, [], ap, arith, drop, false, if◌then◌else◌, inl, inr, leb, length, ltb, ltb-cases,
  refl, some, some_injective, subst, suc, sym, true, ℕ, ◌&&◌, ◌+◌, ◌-◌, ◌<◌, ◌^◌, ◌∙◌, ◌∷◌, ◌≡◌,
  ◌≤◌, ◌⊎◌,
}
use model_lib.System.Threads.{plus}
use model_lib.Performance.HistoryList.{
  FreeIntervalList, minus, give_back, allocate, compute_using_history_list,
}
use model_lib.Performance.HistoryList.Left.{Left, allocate-Left}
use model_lib.Performance.HistoryList.Slots.{
  Ordered, IsFree, Served, chosen, allocate-Served, Ordered-lower,
}

-- Some interval ends at `time` or later.
abbrev pub EndsAfter : ℕ → FreeIntervalList → Type 0
EndsAfter time [] = ⊥
EndsAfter time ((first, second) ∷ rest) = (time ≤ second) ⊎ EndsAfter time rest

allocate_finds :
    (min pkt proc : ℕ) (xs : FreeIntervalList)
    → pkt + proc < 2 ^ 64
    → EndsAfter (pkt + proc) xs
    → (r : ℕ × FreeIntervalList) × (allocate min pkt proc xs ≡ some r)
unfolding allocate
allocate_finds min pkt proc [] p e = absurd e
allocate_finds min pkt proc ((a, b) ∷ rest) p e =
    elim (Bool-cases (leb a pkt && leb (plus pkt proc) b)) [
      | inl t ↦
          ((0, give_back min a pkt (give_back min (plus pkt proc) b rest)), rw (t, allocate) refl)
      | inr t ↦ elim (ltb-cases pkt a) [
        | inl (u, l) ↦
            ((minus a pkt, give_back min (plus a proc) b rest), rw (t, allocate) (rw u refl))
        | inr (u, l) ↦
            let (r, runs) = allocate_finds min pkt proc rest p (ends e t l) in
            ((r.0, (a, b) ∷ r.1), rw (t, allocate) (rw u (rw runs refl)))
      ]
    ]
  where
    ends :
        (pkt + proc ≤ b) ⊎ EndsAfter (pkt + proc) rest
        → (leb a pkt && leb (plus pkt proc) b) ≡ false
        → a ≤ pkt
        → EndsAfter (pkt + proc) rest
    ends (inl x) t l =
        let sum : plus pkt proc ≡ pkt + proc = omega arith in absurd (ground (arith, sum))
    ends (inr x) t l = x

-- The oldest interval is forgotten when the list is too long.
abbrev trimmed : ℕ → FreeIntervalList → FreeIntervalList
trimmed max_size xs = if ltb max_size (length xs) then drop 1 xs else xs

-- A request of a list within its size always gets an answer, if some interval ends when the request
-- would be done without a delay, or later.
pub history_list_answers :
    (max_size min pkt proc : ℕ) (xs : FreeIntervalList)
    → length xs ≤ max_size
    → pkt + proc < 2 ^ 64
    → EndsAfter (pkt + proc) xs
    → (r : ℕ × FreeIntervalList) × (compute_using_history_list max_size min xs pkt proc ≡ some r)
unfolding compute_using_history_list
history_list_answers max_size min pkt proc xs s p e =
    let (r, runs) = allocate_finds min pkt proc xs p e in
    let small : leb (length xs) max_size ≡ true = ground arith in
    ((r.0, trimmed max_size r.1), rw (small, compute_using_history_list) (rw runs refl))

trimmed-Ordered :
    (max_size from : ℕ) (xs : FreeIntervalList)
    → Ordered from xs
    → Ordered from (trimmed max_size xs)
trimmed-Ordered max_size from [] o = ground arith
trimmed-Ordered max_size from ((a, b) ∷ rest) (l, m, s, o) =
    elim (Bool-cases (ltb max_size (suc (length rest)))) [
      | inl e ↦ rw e (Ordered-lower rest from b (omega arith) o)
      | inr e ↦ rw e (l, m, s, o)
    ]

trimmed-IsFree :
    (max_size t : ℕ) (xs : FreeIntervalList) → IsFree (trimmed max_size xs) t → IsFree xs t
trimmed-IsFree max_size t [] f = elim (Bool-cases (ltb max_size 0)) [
  | inl e ↦ subst (λ c. IsFree (if c then [] else []) t) e f
  | inr e ↦ subst (λ c. IsFree (if c then [] else []) t) e f
]
trimmed-IsFree max_size t ((a, b) ∷ rest) f = elim (Bool-cases (ltb max_size (suc (length rest)))) [
  | inl e ↦ inr (subst (λ c. IsFree (if c then rest else (a, b) ∷ rest) t) e f)
  | inr e ↦ subst (λ c. IsFree (if c then rest else (a, b) ∷ rest) t) e f
]

-- In an ordered list within its size, where the loop stops at an interval that has room for the
-- request from the later of the request's time and the interval's start on, the request is delayed
-- until then; all of the time it gets was free before, none of it is free afterwards, no other time
-- becomes free, and the list stays ordered. Of that interval the pieces in front of the request and
-- behind it stay free exactly if they last at least the minimum, and so does all other free time;
-- the list then loses its first interval if it is longer than its size.
pub gives_free_time :
    (max_size min pkt proc first second : ℕ) (xs : FreeIntervalList)
    → length xs ≤ max_size
    → Ordered 0 xs
    → chosen pkt proc xs ≡ some (first, second)
    → pkt + proc < 2 ^ 64
    → pkt + (first - pkt) + proc ≤ second
    → (left : FreeIntervalList) × (after : FreeIntervalList) × (compute_using_history_list max_size
          min xs pkt proc
        ≡ some (first - pkt, after))
      × Served 0 (pkt + (first - pkt)) proc xs after
      × Left min (pkt + (first - pkt)) proc first second xs left
      × (after ≡ (if ltb max_size (length left) then drop 1 left else left))
unfolding compute_using_history_list
gives_free_time max_size min pkt proc first second xs n o c p h =
    let (after, runs, (ordered, kept, was)) =
      allocate-Served min pkt proc 0 first second xs o c p h in
    let (after', runs', left) = allocate-Left min pkt proc 0 first second xs o c p h in
    let same : after' ≡ after =
      ap (λ (r : ℕ × FreeIntervalList). r.1)
        (some_injective (first - pkt, after') (first - pkt, after) (sym runs' ∙ runs)) in
    let small : leb (length xs) max_size ≡ true = ground arith in
    (
      after,
      trimmed max_size after,
      rw (small, compute_using_history_list) (rw runs refl),
      (
        trimmed-Ordered max_size 0 after ordered,
        λ t f. kept t (trimmed-IsFree max_size t after f),
        was,
      ),
      subst (λ xs'. Left min (pkt + (first - pkt)) proc first second xs xs') same left,
      refl,
    )

-- A request that comes before the first interval and is longer than it is not made to fit: the
-- difference of the times wraps around, and an interval that ends before it starts enters the list.
pub interval_reversed :
    (max_size min pkt proc first second : ℕ) (rest : FreeIntervalList)
    → suc (length rest) ≤ max_size
    → pkt < first
    → second < first + proc
    → first + proc < 2 ^ 64
    → min + (first + proc - second) ≤ 2 ^ 64
    → compute_using_history_list max_size min ((first, second) ∷ rest) pkt proc
      ≡ some (first - pkt, (first + proc, second) ∷ rest)
unfolding compute_using_history_list allocate
interval_reversed max_size min pkt proc first second rest n l short p wrap =
    let small : leb (suc (length rest)) max_size ≡ true = ground arith in
    let before : ltb pkt first ≡ true = ground arith in
    let outside : leb first pkt ≡ false = ground arith in
    let end : plus first proc ≡ first + proc = omega arith in
    let delay : minus first pkt ≡ first - pkt = omega arith in
    let gap : minus second (first + proc) ≡ 2 ^ 64 - (first + proc - second) = omega arith in
    let long : leb min (minus second (first + proc)) ≡ true = ground (arith, gap) in
    let room : ltb max_size (suc (length rest)) ≡ false = ground arith in
    rw (small, compute_using_history_list)
      (rw (outside, allocate) (rw (before, end) (rw (long, delay) (rw room refl))))
