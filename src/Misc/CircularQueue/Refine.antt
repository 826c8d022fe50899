-- ===== src/Misc/CircularQueue/Refine.antt =====
-- The ring buffer of circular_queue.h against a list of bounded length.
use model_lib.Prelude.{
  ==_iff, Bool-cases, List, [], ap, arith, false, get_elem?, get_elem?-append_left,
  get_elem?-append_right, get_elem?-set_ne, get_elem?-set_self, inl, inr, length, length-append,
  length-replicate, length-set, ltb-cases, refl, set, some, suc, sym, true, ℕ, ◌%◌, ◌++◌, ◌+◌, ◌<◌,
  ◌^◌, ◌↔◌, ◌∙◌, ◌∷◌, ◌≡◌, ◌≢◌, ◌≤◌,
}
use native.Mathlib.Nat.{mod-eq_of_lt, mod-lt, zero-mod}
use model_lib.Misc.CircularQueue.Slots.{
  ring_count, ring_next, ring_full, ring_empty, ring_other, ring_shift,
}
use model_lib.Misc.CircularQueue.{CircularQueue, create, next_slot, full, empty, count, push, pop}

-- The queue holds the elements of a list, from the last slot on. Sizes stay below half of what
-- `UInt32` counts, so that no index wraps around.
pub record Holds {ℓ} {A : Type ℓ} (q : CircularQueue A) (xs : List A) : Type ℓ where
  pub small : q.size ≤ 2 ^ 31
  pub room : length xs < q.size
  pub slots : length q.queue ≡ q.size
  pub last_in : q.last < q.size
  pub first_at : q.first ≡ (q.last + length xs) % q.size
  pub elements :
      (i : ℕ) → i < length xs → get_elem? q.queue ((q.last + i) % q.size) ≡ get_elem? xs i

-- A list without elements.
length-zero {ℓ} : {A : Type ℓ} (xs : List A) → length xs ≡ 0 → xs ≡ []
length-zero [] e = refl
length-zero (x ∷ xs) e = absurd (omega (arith, e))

module _ {ℓ} {A : Type ℓ} (q : CircularQueue A) (xs : List A) (v : Holds q xs) where
  pub count-Holds : count q ≡ length xs
  unfolding count
  count-Holds = rw (v.first_at) (ring_count q.size q.last (length xs) v.small v.room v.last_in)

  pub first-Holds : q.first < q.size
  first-Holds =
      let pos : 0 < q.size = omega (arith, v.room) in
      rw v.first_at (mod-lt (q.last + length xs) pos)

  pub full-Holds : (full q ≡ true) ↔ (suc (length xs) ≡ q.size)
  unfolding full
  full-Holds =
      let same : next_slot q.size q.first ≡ next_slot q.size ((q.last + length xs) % q.size) =
        ap (next_slot q.size) v.first_at in
      let at_end = ring_full q.size q.last (length xs) v.small v.room v.last_in in
      (
        λ e. at_end.0 (sym same ∙ (==_iff (next_slot q.size q.first) q.last).0 e),
        λ e. (==_iff (next_slot q.size q.first) q.last).1 (same ∙ at_end.1 e),
      )

  pub empty-Holds : (empty q ≡ true) ↔ (xs ≡ [])
  unfolding empty
  empty-Holds =
      let none_left = ring_empty q.size q.last (length xs) v.small v.room v.last_in in
      (
        λ e. length-zero xs (none_left.0 (sym v.first_at ∙ (==_iff q.first q.last).0 e)),
        λ e. (==_iff q.first q.last).1 (v.first_at ∙ none_left.1 (ap length e)),
      )

pub create-Holds {ℓ} :
    {A : Type ℓ} (size : ℕ) (blank : A) → 0 < size → size < 2 ^ 31 → Holds (create size blank) []
unfolding create
create-Holds size blank p l = record {
  small = omega arith;
  room = omega arith;
  slots = length-replicate ((size + 1) % 2 ^ 32) blank;
  last_in = omega arith;
  first_at = sym (zero-mod ((size + 1) % 2 ^ 32));
  elements = λ i h. absurd (omega (arith, h));
}

-- `push` of a queue that is not full appends, and fails on a full one.
pub push-Holds {ℓ} :
    {A : Type ℓ} (q : CircularQueue A) (xs : List A) (t : A)
    → Holds q xs
    → suc (length xs) ≢ q.size
    → (q' : CircularQueue A) × (push q t ≡ some q') × Holds q' (xs ++ (t ∷ [])) × (q'.size ≡ q.size)
unfolding push
push-Holds q xs t v n =
    let free : full q ≡ false = ground (arith, full-Holds q xs v) in
    (
      record q { first = next_slot q.size q.first; queue = set q.queue q.first t },
      rw (free, push) refl,
      record {
        small = v.small;
        room = omega (arith, len, v.room, n);
        slots = length-set q.queue q.first t ∙ v.slots;
        last_in = v.last_in;
        first_at =
            ap (next_slot q.size) v.first_at
            ∙ ring_next q.size q.last (length xs) v.small v.room v.last_in
            ∙ ap (λ k. (q.last + k) % q.size) (sym len);
        elements = λ i h. pushed i (omega (arith, len));
      },
      refl,
    )
  where
    len : length (xs ++ (t ∷ [])) ≡ suc (length xs)
    len = omega (arith, length-append xs (t ∷ []))

    first_in : q.first < length q.queue
    first_in = omega (arith, first-Holds q xs v, v.slots)

    pushed :
        (i : ℕ)
        → i < suc (length xs)
        → get_elem? (set q.queue q.first t) ((q.last + i) % q.size) ≡ get_elem? (xs ++ (t ∷ [])) i
    pushed i h = elim (ltb-cases i (length xs)) [
      | inl (b, l) ↦
          get_elem?-set_ne q.queue q.first ((q.last + i) % q.size) t (λ e.
            ring_other q.size q.last (length xs) v.small v.room v.last_in i l (sym e ∙ v.first_at))
          ∙ v.elements i l
          ∙ sym (get_elem?-append_left xs (t ∷ []) i l)
      | inr (b, l) ↦
          let here : i ≡ length xs = omega arith in
          let end : length xs + 0 ≡ i = omega arith in
          ap (get_elem? (set q.queue q.first t))
            (ap (λ k. (q.last + k) % q.size) here ∙ sym v.first_at)
          ∙ get_elem?-set_self q.queue q.first t first_in
          ∙ sym (get_elem?-append_right xs (t ∷ []) 0)
          ∙ ap (get_elem? (xs ++ (t ∷ []))) end
    ]

-- The first element stands in the last slot.
pub head-Holds {ℓ} :
    {A : Type ℓ} (q : CircularQueue A) (x : A) (xs : List A)
    → Holds q (x ∷ xs)
    → (empty q ≡ false) × (get_elem? q.queue q.last ≡ some x)
head-Holds q x xs v = (
  elim (Bool-cases (empty q)) [
    | inl e ↦ absurd (omega (arith, ap length ((empty-Holds q (x ∷ xs) v).0 e)))
    | inr e ↦ e
  ],
  ap (get_elem? q.queue) (sym start) ∙ v.elements 0 (omega arith),
)
  where
    start : (q.last + 0) % q.size ≡ q.last
    start =
        let zero_more : q.last + 0 ≡ q.last = omega arith in
        ap (λ a. a % q.size) zero_more ∙ mod-eq_of_lt v.last_in

-- `pop` of a queue that is not empty takes its first element.
pub pop-Holds {ℓ} :
    {A : Type ℓ} (q : CircularQueue A) (x : A) (xs : List A)
    → Holds q (x ∷ xs)
    → (q' : CircularQueue A) × (pop q ≡ some (x, q')) × Holds q' xs × (q'.size ≡ q.size)
unfolding pop
pop-Holds q x xs v =
    let (some_left, head) = head-Holds q x xs v in
    (
      record q { last = next_slot q.size q.last },
      rw (some_left, pop) (rw head refl),
      record {
        small = v.small;
        room = omega (arith, v.room);
        slots = v.slots;
        last_in = mod-lt ((q.last + 1) % 2 ^ 32) pos;
        first_at =
            v.first_at
            ∙ sym (
                ring_shift q.size q.last (suc (length xs)) v.small v.room v.last_in (length xs)
                  (omega (arith, v.room)));
        elements = λ i h.
            ap (get_elem? q.queue) (
              ring_shift q.size q.last (suc (length xs)) v.small v.room v.last_in i
                (omega (arith, v.room, h)))
            ∙ v.elements (suc i) (omega (arith, h));
      },
      refl,
    )
  where
    pos : 0 < q.size
    pos = omega (arith, v.room)
