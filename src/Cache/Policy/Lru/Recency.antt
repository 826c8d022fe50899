-- ===== src/Cache/Policy/Lru/Recency.antt =====
-- `m_lru_bits` of cache_set_lru.cc stands for a list of the ways, the most recently used first.
use model_lib.Prelude.{
  List, [], ap, arith, get_or, if◌then◌else◌, inl, inr, length, ltb, ltb-cases, refl, suc, sym,
  zero, ℕ, ◌<◌, ◌==◌, ◌∙◌, ◌∷◌, ◌≡◌, ◌≢◌, ◌≤◌,
}
use native.Mathlib.Decide.{ℕ_discrete}
use model_lib.Cache.Policy.Ages.{
  age, touch, initial_ages_from, length-initial_ages_from, get_or-initial_ages_from, length-touch,
  get_or-touch_self, get_or-touch_ne,
}

-- The order and the ages are inverse to one another.
pub record Ranks (order ages : List ℕ) : Type 0 where
  pub same_length : length order ≡ length ages
  pub small : length ages ≤ 256
  pub place :
      (i : ℕ)
      → i < length ages
      → (get_or ages i 0 < length ages) × (get_or order (get_or ages i 0) 0 ≡ i)
  pub way :
      (k : ℕ)
      → k < length ages
      → (get_or order k 0 < length ages) × (get_or ages (get_or order k 0) 0 ≡ k)

pub remove : ℕ → List ℕ → List ℕ
remove w [] = []
remove w (x ∷ xs) = if x == w then xs else x ∷ remove w xs

-- A use of way `w`: it goes to the front and the others keep their order.
pub move_to_front : ℕ → List ℕ → List ℕ
move_to_front w order = w ∷ remove w order

length-remove :
    (order : List ℕ) (w k : ℕ)
    → k < length order
    → get_or order k 0 ≡ w
    → suc (length (remove w order)) ≡ length order
unfolding remove
length-remove [] w k h e = absurd (omega arith)
length-remove (x ∷ xs) w zero h e = ground arith
length-remove (x ∷ xs) w (suc k) h e = ground (arith, length-remove xs w k (omega arith) e)

get_or-remove :
    (order : List ℕ) (w k j : ℕ)
    → ((i : ℕ) → i < k → get_or order i 0 ≢ w)
    → k < length order
    → get_or order k 0 ≡ w
    → get_or (remove w order) j 0 ≡ (if ltb j k then get_or order j 0 else get_or order (suc j) 0)
unfolding remove
get_or-remove [] w k j first h e = absurd (omega arith)
get_or-remove (x ∷ xs) w zero j first h e = ground arith
get_or-remove (x ∷ xs) w (suc k) zero first h e = ground (arith, first 0 (omega arith))
get_or-remove (x ∷ xs) w (suc k) (suc j) first h e = ground (
  arith,
  first 0 (omega arith),
  get_or-remove xs w k j (λ i p. first (suc i) (omega arith)) (omega arith) e,
)

module _ (order ages : List ℕ) (r : Ranks order ages) (w : ℕ) (inside : w < length ages) where
  remove_at :
      (j : ℕ)
      → get_or (remove w order) j 0
        ≡ (if ltb j (get_or ages w 0) then get_or order j 0 else get_or order (suc j) 0)
  remove_at j =
      get_or-remove order w (get_or ages w 0) j
        (λ i p e. let q = (r.way i (omega (arith, r.place w inside))).1 in ground (arith, q, e))
        (omega (arith, r.same_length, r.place w inside)) (r.place w inside).1

  -- The age of another way after the use, and its place in the new order.
  moved :
      (i m : ℕ)
      → i < length ages
      → i ≢ w
      → age (get_or ages w 0) (get_or ages i 0) ≡ m
      → (m < length ages) × (get_or (move_to_front w order) m 0 ≡ i)
  unfolding move_to_front
  moved i zero h ne e = ground (arith, r.place i h, r.place w inside, r.small)
  moved i (suc m) h ne e = ground (arith, r.place i h, r.place w inside, r.small, remove_at m)

  place_touched :
      (i : ℕ)
      → i < length ages
      → (get_or (touch ages w) i 0 < length ages)
        × (get_or (move_to_front w order) (get_or (touch ages w) i 0) 0 ≡ i)
  unfolding move_to_front
  place_touched i h = elim (ℕ_discrete i w) [
    | yes e ↦ rw (e, get_or-touch_self ages w inside) (omega arith, refl)
    | no ne ↦ moved i _ h ne (sym (get_or-touch_ne ages w i h (λ e. ne (sym e))))
  ]

  -- The way at place `q` of the old order, other than that of `w`.
  other_way :
      (q : ℕ)
      → q < length ages
      → q ≢ get_or ages w 0
      → (get_or order q 0 < length ages)
        × (get_or (touch ages w) (get_or order q 0) 0 ≡ age (get_or ages w 0) q)
  other_way q h ne =
      let ne' : w ≢ get_or order q 0 =
        λ e. ne (sym (r.way q h).1 ∙ ap (λ x. get_or ages x 0) (sym e)) in
      (
        (r.way q h).0,
        get_or-touch_ne ages w (get_or order q 0) (r.way q h).0 ne'
            ∙ ap (age (get_or ages w 0)) (r.way q h).1,
      )

  way_touched :
      (k : ℕ)
      → k < length ages
      → (get_or (move_to_front w order) k 0 < length ages)
        × (get_or (touch ages w) (get_or (move_to_front w order) k 0) 0 ≡ k)
  unfolding move_to_front
  way_touched zero h = (inside, get_or-touch_self ages w inside)
  way_touched (suc k) h = rw (remove_at k) (elim (ltb-cases k (get_or ages w 0)) [
    | inl (e, p) ↦ rw e (
        let o = other_way k (omega arith) (omega arith) in
        (o.0, ground (arith, o.1, r.place w inside, r.small)))
    | inr (e, p) ↦ rw e (let o = other_way (suc k) h (omega arith) in (o.0, ground (arith, o.1)))
  ])

  pub touch-Ranks : Ranks (move_to_front w order) (touch ages w)
  unfolding move_to_front
  touch-Ranks = record {
    same_length = omega (
      arith,
      length-touch ages w,
      r.same_length,
      length-remove order w (get_or ages w 0) (omega (arith, r.same_length, r.place w inside))
          (r.place w inside).1,
    );
    small = omega (arith, length-touch ages w, r.small);
    place = λ i h. rw (length-touch ages w) (place_touched i (omega (arith, length-touch ages w)));
    way = λ k h. rw (length-touch ages w) (way_touched k (omega (arith, length-touch ages w)));
  }

-- The constructor ranks way `i` at place `i`.
pub initial_ages-Ranks : (n : ℕ) → n ≤ 256 → Ranks (initial_ages_from n 0) (initial_ages_from n 0)
initial_ages-Ranks n h = record {
  same_length = refl;
  small = omega (arith, length-initial_ages_from n 0);
  place = λ i p. own i (omega (arith, length-initial_ages_from n 0));
  way = λ i p. own i (omega (arith, length-initial_ages_from n 0));
}
  where
    at : (i : ℕ) → i < n → get_or (initial_ages_from n 0) i 0 ≡ i
    at i p = omega (arith, get_or-initial_ages_from n 0 i p)

    own :
        (i : ℕ)
        → i < n
        → (get_or (initial_ages_from n 0) i 0 < length (initial_ages_from n 0))
          × (get_or (initial_ages_from n 0) (get_or (initial_ages_from n 0) i 0) 0 ≡ i)
    own i p = rw (at i p) (omega (arith, length-initial_ages_from n 0), at i p)
