-- ===== src/Performance/HistoryList/Slots.antt =====
-- Which time `computeUsingHistoryList` gives to a request.
use model_lib.Prelude.{
  Bool-cases, Option, [], ap, arith, if◌then◌else◌, inl, inr, leb, ltb, ltb-cases, none, refl, some,
  subst, ℕ, ◌&&◌, ◌+◌, ◌-◌, ◌<◌, ◌^◌, ◌∷◌, ◌≡◌, ◌≤◌, ◌⊎◌,
}
use model_lib.System.Threads.{plus}
use model_lib.Performance.HistoryList.{FreeIntervalList, minus, give_back, allocate}

-- The intervals follow one another from `from` on, and none is reversed.
abbrev pub Ordered : ℕ → FreeIntervalList → Type 0
Ordered from [] = Unit
Ordered from ((first, second) ∷ rest) =
    (from ≤ first) × (first ≤ second) × (second < 2 ^ 64) × Ordered second rest

-- An instant of one of the intervals.
abbrev pub IsFree : FreeIntervalList → ℕ → Type 0
IsFree [] t = ⊥
IsFree ((first, second) ∷ rest) t = ((first ≤ t) × (t < second)) ⊎ IsFree rest t

-- The interval that the loop stops at.
unfoldable pub chosen : ℕ → ℕ → FreeIntervalList → Option (ℕ × ℕ)
chosen pkt proc [] = none
chosen pkt proc ((first, second) ∷ rest) =
    let later = chosen pkt proc rest in
    if leb first pkt && leb (plus pkt proc) second
    then some (first, second)
    else if ltb pkt first
    then some (first, second)
    else later

pub Ordered-lower : (xs : FreeIntervalList) (a b : ℕ) → a ≤ b → Ordered b xs → Ordered a xs
Ordered-lower [] a b h o = tt
Ordered-lower ((first, second) ∷ rest) a b h (l, m, s, o) = (omega arith, m, s, o)

-- Later intervals have later instants.
pub free_after : (xs : FreeIntervalList) (from t : ℕ) → Ordered from xs → IsFree xs t → from ≤ t
free_after [] from t o f = absurd f
free_after ((first, second) ∷ rest) from t (l, m, s, o) (inl (a, b)) = omega arith
free_after ((first, second) ∷ rest) from t (l, m, s, o) (inr f) =
    let h = free_after rest second t o f in omega arith

give_back-Ordered :
    (min first second from : ℕ) (rest : FreeIntervalList)
    → from ≤ first
    → first ≤ second
    → second < 2 ^ 64
    → Ordered second rest
    → Ordered from (give_back min first second rest)
give_back-Ordered min first second from rest l m s o =
    elim (Bool-cases (leb min (minus second first))) [
      | inl e ↦ rw e (l, m, s, o)
      | inr e ↦ rw e (Ordered-lower rest from second (omega arith) o)
    ]

give_back-IsFree :
    (min first second t : ℕ) (rest : FreeIntervalList)
    → IsFree (give_back min first second rest) t
    → ((first ≤ t) × (t < second)) ⊎ IsFree rest t
give_back-IsFree min first second t rest f = elim (Bool-cases (leb min (minus second first))) [
  | inl e ↦ subst (λ b. IsFree (if b then (first, second) ∷ rest else rest) t) e f
  | inr e ↦ inr (subst (λ b. IsFree (if b then (first, second) ∷ rest else rest) t) e f)
]

-- The request gets the time from `start` on: it was free before and is not free any more, and nothing
-- else becomes free.
abbrev pub Served : ℕ → ℕ → ℕ → FreeIntervalList → FreeIntervalList → Type 0
Served from start proc before after =
    Ordered from after
    × ((t : ℕ) → IsFree after t → IsFree before t × ((t < start) ⊎ (start + proc ≤ t)))
    × ((t : ℕ) → start ≤ t → t < start + proc → IsFree before t)

-- The request lies inside an interval.
Served-inside :
    (min pkt proc from first second : ℕ) (rest : FreeIntervalList)
    → Ordered from ((first, second) ∷ rest)
    → first ≤ pkt
    → pkt + proc ≤ second
    → Served from pkt proc
        ((first, second) ∷ rest)
        (give_back min first pkt (give_back min (pkt + proc) second rest))
Served-inside min pkt proc from first second rest (l, m, s, o) a b = (
  give_back-Ordered min first pkt from (give_back min (pkt + proc) second rest) l a (omega arith)
      (give_back-Ordered min (pkt + proc) second pkt rest (omega arith) b s o),
  λ t f. left t (give_back-IsFree min first pkt t (give_back min (pkt + proc) second rest) f),
  λ t x y. inl (omega arith),
)
  where
    right :
        (t : ℕ)
        → ((pkt + proc ≤ t) × (t < second)) ⊎ IsFree rest t
        → IsFree ((first, second) ∷ rest) t × ((t < pkt) ⊎ (pkt + proc ≤ t))
    right t (inl (x, y)) = (inl (omega arith), inr x)
    right t (inr f) = let h = free_after rest second t o f in (inr f, inr (omega arith))

    left :
        (t : ℕ)
        → ((first ≤ t) × (t < pkt)) ⊎ IsFree (give_back min (pkt + proc) second rest) t
        → IsFree ((first, second) ∷ rest) t × ((t < pkt) ⊎ (pkt + proc ≤ t))
    left t (inl (x, y)) = (inl (omega arith), inl y)
    left t (inr f) = right t (give_back-IsFree min (pkt + proc) second t rest f)

-- The request gets the start of an interval.
Served-at_start :
    (min proc from first second : ℕ) (rest : FreeIntervalList)
    → Ordered from ((first, second) ∷ rest)
    → first + proc ≤ second
    → Served from first proc ((first, second) ∷ rest) (give_back min (first + proc) second rest)
Served-at_start min proc from first second rest (l, m, s, o) b = (
  give_back-Ordered min (first + proc) second from rest (omega arith) b s o,
  λ t f. right t (give_back-IsFree min (first + proc) second t rest f),
  λ t x y. inl (omega arith),
)
  where
    right :
        (t : ℕ)
        → ((first + proc ≤ t) × (t < second)) ⊎ IsFree rest t
        → IsFree ((first, second) ∷ rest) t × ((t < first) ⊎ (first + proc ≤ t))
    right t (inl (x, y)) = (inl (omega arith), inr x)
    right t (inr f) = let h = free_after rest second t o f in (inr f, inr (omega arith))

-- An interval in front that the request passes.
Served-behind :
    (start proc from first second : ℕ) (rest after : FreeIntervalList)
    → Ordered from ((first, second) ∷ rest)
    → second ≤ start
    → Served second start proc rest after
    → Served from start proc ((first, second) ∷ rest) ((first, second) ∷ after)
Served-behind start proc from first second rest after (l, m, s, o) b (o', kept, was) =
    ((l, m, s, o'), λ t f. cases t f, λ t x y. inr (was t x y))
  where
    cases :
        (t : ℕ)
        → IsFree ((first, second) ∷ after) t
        → IsFree ((first, second) ∷ rest) t × ((t < start) ⊎ (start + proc ≤ t))
    cases t (inl (x, y)) = (inl (x, y), inl (omega arith))
    cases t (inr f) = let (f', d) = kept t f in (inr f', d)

-- The interval at which the loop stops is no earlier than the list.
pub chosen_from :
    (pkt proc from first second : ℕ) (xs : FreeIntervalList)
    → Ordered from xs
    → chosen pkt proc xs ≡ some (first, second)
    → from ≤ first
unfolding chosen
chosen_from pkt proc from first second [] o c = absurd (ground arith)
chosen_from pkt proc from first second ((a, b) ∷ rest) (l, m, s, o) c =
    ground (arith, chosen_from pkt proc b first second rest o)

pub allocate-Served :
    (min pkt proc from first second : ℕ) (xs : FreeIntervalList)
    → Ordered from xs
    → chosen pkt proc xs ≡ some (first, second)
    → pkt + proc < 2 ^ 64
    → pkt + (first - pkt) + proc ≤ second
    → (after : FreeIntervalList) × (allocate min pkt proc xs ≡ some (first - pkt, after))
      × Served from (pkt + (first - pkt)) proc xs after
unfolding chosen allocate
allocate-Served min pkt proc from first second [] o c p h = absurd (ground arith)
allocate-Served min pkt proc from first second ((a, b) ∷ rest) (l, m, s, o) c p h =
    let sum : plus pkt proc ≡ pkt + proc = omega arith in
    elim (Bool-cases (leb a pkt && leb (plus pkt proc) b)) [
      | inl e ↦
          let here : (a ≡ first) × (b ≡ second) = ground arith in
          let inside : (a ≤ pkt) × (plus pkt proc ≤ b) = ground arith in
          let none_yet : 0 ≡ first - pkt = omega (arith, here, inside) in
          let start : pkt ≡ pkt + (first - pkt) = omega (arith, none_yet) in
          let after = give_back min a pkt (give_back min (pkt + proc) b rest) in
          (
            after,
            rw (e, allocate) (rw sum (ap (λ d. some (d, after)) none_yet)),
            subst (λ x. Served from x proc ((a, b) ∷ rest) after) start
                (Served-inside min pkt proc from a b rest (l, m, s, o) inside.0
                  (omega (arith, inside, sum))),
          )
      | inr e ↦ elim (ltb-cases pkt a) [
        | inl (e', l') ↦
            let here : (a ≡ first) × (b ≡ second) = ground arith in
            let wait : minus a pkt ≡ first - pkt = omega (arith, here) in
            let start : a ≡ pkt + (first - pkt) = omega (arith, here) in
            let end : plus a proc ≡ a + proc = omega (arith, here) in
            let after = give_back min (a + proc) b rest in
            (
              after,
              rw (e, allocate) (rw (e', end) (ap (λ d. some (d, after)) wait)),
              subst (λ x. Served from x proc ((a, b) ∷ rest) after) start
                  (Served-at_start min proc from a b rest (l, m, s, o) (omega (arith, here))),
            )
        | inr (e', l') ↦
            let c' : chosen pkt proc rest ≡ some (first, second) = ground arith in
            let (after, runs, v) = allocate-Served min pkt proc b first second rest o c' p h in
            let bound = chosen_from pkt proc b first second rest o c' in
            (
              (a, b) ∷ after,
              rw (e, allocate) (rw e' (rw runs refl)),
              Served-behind (pkt + (first - pkt)) proc from a b rest after (l, m, s, o)
                  (omega (arith, bound)) v,
            )
      ]
    ]
