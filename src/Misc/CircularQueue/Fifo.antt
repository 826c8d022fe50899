-- ===== src/Misc/CircularQueue/Fifo.antt =====
-- What the operations of circular_queue.h do to the list of elements.
use model_lib.Prelude.{
  Bool-cases, List, [], arith, drop, false, get_elem?, get_elem?-past, if◌then◌else◌, inl, inr,
  length, ltb, ltb-cases, none, refl, some, subst, suc, sym, true, ℕ, ◌%◌, ◌++◌, ◌+◌, ◌<◌, ◌^◌, ◌↔◌,
  ◌∷◌, ◌≡◌, ◌≢◌,
}
use model_lib.Misc.CircularQueue.{
  CircularQueue, full, empty, count, push, pop, push_circular, front, element_at,
}
use model_lib.Misc.CircularQueue.Refine.{
  Holds, count-Holds, full-Holds, empty-Holds, push-Holds, pop-Holds, head-Holds,
}

-- A queue that holds a list of fewer than `m_size` elements: `size`, `empty` and `full` tell its
-- length; `push` appends, and fails exactly on a full queue; `pop` takes the first element, and
-- fails exactly on an empty queue.
pub queue_refines_list {ℓ} :
    {A : Type ℓ} (q : CircularQueue A) (xs : List A) (t : A)
    → Holds q xs
    → (count q ≡ length xs)
      × ((empty q ≡ true) ↔ (xs ≡ []))
      × ((full q ≡ true) ↔ (suc (length xs) ≡ q.size))
      × (suc (length xs) ≢ q.size
          → (q' : CircularQueue A) × (push q t ≡ some q') × Holds q' (xs ++ (t ∷ [])))
      × (suc (length xs) ≡ q.size → push q t ≡ none)
      × ((x : A) (rest : List A)
          → xs ≡ x ∷ rest
          → (q' : CircularQueue A) × (pop q ≡ some (x, q')) × Holds q' rest)
      × (xs ≡ [] → pop q ≡ none)
unfolding push pop
queue_refines_list q xs t v = (
  count-Holds q xs v,
  empty-Holds q xs v,
  full-Holds q xs v,
  λ n. let (q', e, w, _) = push-Holds q xs t v n in (q', e, w),
  λ f. let is_full : full q ≡ true = (full-Holds q xs v).1 f in rw (is_full, push) refl,
  λ x rest e. let (q', p, w, _) = pop-Holds q x rest (subst (Holds q) e v) in (q', p, w),
  λ e. let is_empty : empty q ≡ true = (empty-Holds q xs v).1 e in rw (is_empty, pop) refl,
)

-- `pushCircular` always succeeds on a queue with room for an element: it appends, and drops the first
-- element if the queue was full.
pub push_circular_drops {ℓ} :
    {A : Type ℓ} (q : CircularQueue A) (xs : List A) (t : A)
    → Holds q xs
    → 1 < q.size
    → (q' : CircularQueue A) × (push_circular q t ≡ some q')
      × Holds q' ((if full q then drop 1 xs else xs) ++ (t ∷ []))
unfolding push_circular
push_circular_drops q [] t v h =
    let free : full q ≡ false = ground (arith, full-Holds q [] v) in
    let (q', e, w, _) = push-Holds q [] t v (λ e. omega (arith, e)) in
    (q', rw (free, push_circular) e, rw free w)
push_circular_drops q (x ∷ xs) t v h = elim (Bool-cases (full q)) [
  | inl e ↦
      let (q1, p, w, size) = pop-Holds q x xs v in
      let (q2, p2, w2, _) = push-Holds q1 xs t w (λ n. omega (arith, n, size, v.room)) in
      (q2, rw (e, push_circular) (rw p p2), rw e w2)
  | inr e ↦
      let (q', p, w, _) =
        push-Holds q (x ∷ xs) t v (λ n. ground (arith, full-Holds q (x ∷ xs) v)) in
      (q', rw (e, push_circular) p, rw e w)
]

-- `front` and `at` read the elements of the list, and fail where it has none.
pub reads_list {ℓ} :
    {A : Type ℓ} (q : CircularQueue A) (xs : List A) (i : ℕ)
    → Holds q xs
    → (front q ≡ get_elem? xs 0) × (element_at q i ≡ get_elem? xs i)
unfolding front element_at
reads_list {A = A} q xs i v = (
  first xs v,
  elim (ltb-cases i (length xs)) [
    | inl (e, l) ↦
        let inside : ltb i (count q) ≡ true = ground (arith, count-Holds q xs v) in
        let small : (q.last + i) % 2 ^ 32 ≡ q.last + i =
          omega (arith, v.room, v.small, v.last_in) in
        rw (inside, element_at) (rw small (v.elements i l))
    | inr (e, l) ↦
        let outside : ltb i (count q) ≡ false = ground (arith, count-Holds q xs v) in
        rw (outside, element_at) (sym (get_elem?-past xs i l))
  ],
)
  where
    first : (ys : List A) → Holds q ys → front q ≡ get_elem? ys 0
    first [] w =
        let is_empty : empty q ≡ true = (empty-Holds q [] w).1 refl in rw (is_empty, front) refl
    first (y ∷ ys) w = let (left, head) = head-Holds q y ys w in rw (left, front) head
