-- ===== src/Performance/HistoryList/Left.antt =====
-- What is left of the free time when `computeUsingHistoryList` has served a request.
use model_lib.Prelude.{
  Bool-cases, [], ap, arith, inl, inr, leb, ltb-cases, refl, some, subst, ℕ, ◌&&◌, ◌+◌, ◌-◌, ◌<◌,
  ◌^◌, ◌↔◌, ◌∷◌, ◌≡◌, ◌≤◌, ◌⊎◌,
}
use model_lib.System.Threads.{plus}
use model_lib.Performance.HistoryList.{FreeIntervalList, minus, give_back, allocate}
use model_lib.Performance.HistoryList.Slots.{Ordered, IsFree, chosen, free_after, chosen_from}

-- A piece goes back into the list exactly if it is long enough.
give_back_iff :
    (min first second t : ℕ) (rest : FreeIntervalList)
    → first ≤ second
    → second < 2 ^ 64
    → IsFree (give_back min first second rest) t
      ↔ (((min ≤ second - first) × (first ≤ t) × (t < second)) ⊎ IsFree rest t)
give_back_iff min first second t rest m s =
    let gap : minus second first ≡ second - first = omega arith in
    elim (Bool-cases (leb min (minus second first))) [
      | inl e ↦
          let long : min ≤ second - first = ground (arith, e, gap) in
          rw e (
            (λ f. elim f [ inl (x, y) ↦ inl (long, x, y) | inr g ↦ inr g ]),
            λ f. elim f [ inl (_, x, y) ↦ inl (x, y) | inr g ↦ inr g ],
          )
      | inr e ↦ rw e (
        (λ f. inr f),
        λ f. elim f [ inl (l, x, y) ↦ absurd (ground (arith, e, gap)) | inr g ↦ g ],
      )
    ]

-- Of the free interval that holds the request, the pieces in front of it and behind it that last at
-- least `min` stay free; so does all other free time, and nothing else is free.
abbrev pub Left : ℕ → ℕ → ℕ → ℕ → ℕ → FreeIntervalList → FreeIntervalList → Type 0
Left min start proc first second before after =
    (t : ℕ)
    → IsFree after t ↔ (
        IsFree before t
        × ((t < first)
            ⊎ ((second ≤ t)
                ⊎ (((t < start) × (min ≤ start - first))
                    ⊎ ((start + proc ≤ t) × (min ≤ second - (start + proc)))))))

Left-inside :
    (min pkt proc from first second : ℕ) (rest : FreeIntervalList)
    → Ordered from ((first, second) ∷ rest)
    → first ≤ pkt
    → pkt + proc ≤ second
    → Left min pkt proc first second
        ((first, second) ∷ rest)
        (give_back min first pkt (give_back min (pkt + proc) second rest))
Left-inside min pkt proc from first second rest (l, m, s, o) a b t =
    let front =
      give_back_iff min first pkt t (give_back min (pkt + proc) second rest) a (omega arith) in
    let back = give_back_iff min (pkt + proc) second t rest b s in
    (
      (λ f. elim (front.0 f) [
        | inl (long, x, y) ↦ (inl (x, omega arith), inr (inr (inl (y, long))))
        | inr g ↦ elim (back.0 g) [
          | inl (long, x, y) ↦ (inl (omega arith, y), inr (inr (inr (x, long))))
          | inr h ↦ (inr h, inr (inl (free_after rest second t o h)))
        ]
      ]),
      λ f. elim f.0 [
        | inr h ↦ front.1 (inr (back.1 (inr h)))
        | inl (x, y) ↦ elim f.1 [
          | inl early ↦ absurd (omega arith)
          | inr (inl late) ↦ absurd (omega arith)
          | inr (inr (inl (z, long))) ↦ front.1 (inl (long, x, z))
          | inr (inr (inr (z, long))) ↦ front.1 (inr (back.1 (inl (long, z, y))))
        ]
      ],
    )

Left-at_start :
    (min proc from first second : ℕ) (rest : FreeIntervalList)
    → Ordered from ((first, second) ∷ rest)
    → first + proc ≤ second
    → Left min first proc first second
        ((first, second) ∷ rest)
        (give_back min (first + proc) second rest)
Left-at_start min proc from first second rest (l, m, s, o) b t =
    let back = give_back_iff min (first + proc) second t rest b s in
    (
      (λ f. elim (back.0 f) [
        | inl (long, x, y) ↦ (inl (omega arith, y), inr (inr (inr (x, long))))
        | inr h ↦ (inr h, inr (inl (free_after rest second t o h)))
      ]),
      λ f. elim f.0 [
        | inr h ↦ back.1 (inr h)
        | inl (x, y) ↦ elim f.1 [
          | inl early ↦ absurd (omega arith)
          | inr (inl late) ↦ absurd (omega arith)
          | inr (inr (inl (z, long))) ↦ absurd (omega arith)
          | inr (inr (inr (z, long))) ↦ back.1 (inl (long, z, y))
        ]
      ],
    )

Left-behind :
    (min start proc a b first second : ℕ) (rest after : FreeIntervalList)
    → b ≤ first
    → Left min start proc first second rest after
    → Left min start proc first second ((a, b) ∷ rest) ((a, b) ∷ after)
Left-behind min start proc a b first second rest after h left t = (
  (λ f. elim f [
    | inl (x, y) ↦ (inl (x, y), inl (omega arith))
    | inr g ↦ let (free, where_at) = (left t).0 g in (inr free, where_at)
  ]),
  λ f. elim f.0 [ inl (x, y) ↦ inl (x, y) | inr g ↦ inr ((left t).1 (g, f.1)) ],
)

-- The list that `allocate` leaves.
pub allocate-Left :
    (min pkt proc from first second : ℕ) (xs : FreeIntervalList)
    → Ordered from xs
    → chosen pkt proc xs ≡ some (first, second)
    → pkt + proc < 2 ^ 64
    → pkt + (first - pkt) + proc ≤ second
    → (after : FreeIntervalList) × (allocate min pkt proc xs ≡ some (first - pkt, after))
      × Left min (pkt + (first - pkt)) proc first second xs after
unfolding chosen allocate
allocate-Left min pkt proc from first second [] o c p h = absurd (ground arith)
allocate-Left min pkt proc from first second ((a, b) ∷ rest) (l, m, s, o) c p h =
    let sum : plus pkt proc ≡ pkt + proc = omega arith in
    elim (Bool-cases (leb a pkt && leb (plus pkt proc) b)) [
      | inl e ↦
          let here : (a ≡ first) × (b ≡ second) = ground arith in
          let inside : (a ≤ pkt) × (plus pkt proc ≤ b) = ground arith in
          let none_yet : 0 ≡ first - pkt = omega (arith, here, inside) in
          let start : pkt ≡ pkt + (first - pkt) = omega (arith, none_yet) in
          let after = give_back min a pkt (give_back min (pkt + proc) b rest) in
          let left =
            Left-inside min pkt proc from a b rest (l, m, s, o) inside.0
              (omega (arith, inside, sum)) in
          (
            after,
            rw (e, allocate) (rw sum (ap (λ d. some (d, after)) none_yet)),
            subst (λ x. Left min x proc first second ((a, b) ∷ rest) after) start
                (subst (λ x. Left min pkt proc x second ((a, b) ∷ rest) after) here.0
                  (subst (λ y. Left min pkt proc a y ((a, b) ∷ rest) after) here.1 left)),
          )
      | inr e ↦ elim (ltb-cases pkt a) [
        | inl (e', l') ↦
            let here : (a ≡ first) × (b ≡ second) = ground arith in
            let wait : minus a pkt ≡ first - pkt = omega (arith, here) in
            let start : a ≡ pkt + (first - pkt) = omega (arith, here) in
            let end : plus a proc ≡ a + proc = omega (arith, here) in
            let after = give_back min (a + proc) b rest in
            let left = Left-at_start min proc from a b rest (l, m, s, o) (omega (arith, here)) in
            (
              after,
              rw (e, allocate) (rw (e', end) (ap (λ d. some (d, after)) wait)),
              subst (λ x. Left min x proc first second ((a, b) ∷ rest) after) start
                  (subst (λ x. Left min a proc x second ((a, b) ∷ rest) after) here.0
                    (subst (λ y. Left min a proc a y ((a, b) ∷ rest) after) here.1 left)),
            )
        | inr (e', l') ↦
            let c' : chosen pkt proc rest ≡ some (first, second) = ground arith in
            let (after, runs, left) = allocate-Left min pkt proc b first second rest o c' p h in
            let bound = chosen_from pkt proc b first second rest o c' in
            (
              (a, b) ∷ after,
              rw (e, allocate) (rw e' (rw runs refl)),
              Left-behind min (pkt + (first - pkt)) proc a b first second rest after bound left,
            )
      ]
    ]
