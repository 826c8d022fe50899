-- ===== src/Cache/Policy/Mru.antt =====
-- cache_set_mru.cc: the state is `m_lru_bits`, the ages that `touch` updates.
use model_lib.Prelude.{
  All, All-get_or, Bool-cases, List, Option, Option-cases, [], arith, get_or, if◌then◌else◌, inl,
  inr, length, none, some, suc, sym, true, zero, ℕ, ◌&&◌, ◌+◌, ◌-◌, ◌<◌, ◌==◌, ◌>>=◌, ◌∷◌, ◌≡◌, ◌≢◌,
  ◌≤◌,
}
use model_lib.Cache.Block.{Block, create, is_valid_replacement, block_at}
use model_lib.Cache.Policy.Ages.{touch}
use model_lib.Cache.Policy.Ways.{first_invalid, first_invalid-some}
use model_lib.Cache.Policy.Lru.Recency.{Ranks}

-- The inner loop: the first replaceable way of age `target`, from way `i` on.
pub way_of_age : List Block → List ℕ → ℕ → ℕ → Option ℕ
way_of_age [] ages target i = none
way_of_age (b ∷ bs) [] target i = none
way_of_age (b ∷ bs) (a ∷ as') target i =
    let rest = way_of_age bs as' target (i + 1) in
    if a == target && is_valid_replacement b then some i else rest

-- The outer loop, `n` targets from `target` on.
pub youngest : List Block → List ℕ → ℕ → ℕ → Option ℕ
youngest blocks ages zero target = none
youngest blocks ages (suc n) target =
    let rest = youngest blocks ages n (target + 1) in
    elim (way_of_age blocks ages target 0) [ some i ↦ some i | none ↦ rest ]

pub get_replacement_index : List Block → List ℕ → Option (ℕ × List ℕ)
get_replacement_index blocks ages = elim (first_invalid blocks 0) [
  | some i ↦ some (i, touch ages i)
  | none ↦ do i ← youngest blocks ages (length blocks) 0; some (i, touch ages i)
]

way_of_age_from :
    (bs : List Block) (ages : List ℕ) (target i k : ℕ)
    → way_of_age bs ages target i ≡ some k
    → (i ≤ k)
      × (k < i + length bs)
      × (get_or ages (k - i) 0 ≡ target)
      × (is_valid_replacement (block_at bs (k - i)) ≡ true)
unfolding way_of_age
way_of_age_from [] ages target i k h = absurd (ground arith)
way_of_age_from (b ∷ bs) [] target i k h = absurd (ground arith)
way_of_age_from (b ∷ bs) (a ∷ as') target i k h =
    elim (Bool-cases (a == target && is_valid_replacement b)) [
      | inl e ↦
          let s : i ≡ k = ground arith in
          let z : k - i ≡ 0 = omega arith in (omega arith, omega arith, ground arith, ground arith)
      | inr e ↦
          let ih = way_of_age_from bs as' target (i + 1) k (ground arith) in
          let s : k - i ≡ suc (k - (i + 1)) = omega arith in
          (omega arith, omega arith, ground arith, ground arith)
    ]

-- A replaceable way of the right age is not passed over.
way_of_age_complete :
    (bs : List Block) (ages : List ℕ) (target i j : ℕ)
    → length ages ≡ length bs
    → j < length bs
    → get_or ages j 0 ≡ target
    → is_valid_replacement (block_at bs j) ≡ true
    → way_of_age bs ages target i ≢ none
unfolding way_of_age
way_of_age_complete [] ages target i j l h e r = absurd (omega arith)
way_of_age_complete (b ∷ bs) [] target i j l h e r = absurd (omega arith)
way_of_age_complete (b ∷ bs) (a ∷ as') target i zero l h e r = ground arith
way_of_age_complete (b ∷ bs) (a ∷ as') target i (suc j) l h e r =
    ground (arith, way_of_age_complete bs as' target (i + 1) j (omega arith) (omega arith) e r)

-- What the search finds is in the set, replaceable, and at most as old as any replaceable way whose
-- age is in the range searched.
record Youngest (blocks : List Block) (ages : List ℕ) (n target k : ℕ) : Type 0 where
  inside : k < length blocks
  replaceable : is_valid_replacement (block_at blocks k) ≡ true
  least :
      (j : ℕ)
      → j < length blocks
      → is_valid_replacement (block_at blocks j) ≡ true
      → target ≤ get_or ages j 0
      → get_or ages k 0 ≤ get_or ages j 0

youngest_lem :
    (blocks : List Block) (ages : List ℕ) (n target k : ℕ)
    → length ages ≡ length blocks
    → youngest blocks ages n target ≡ some k
    → Youngest blocks ages n target k
unfolding youngest
youngest_lem blocks ages zero target k l h = absurd (ground arith)
youngest_lem blocks ages (suc n) target k l h =
    elim (Option-cases (way_of_age blocks ages target 0)) [
      | inl e ↦
          let ih = youngest_lem blocks ages n (target + 1) k l (ground arith) in
          record {
            inside = ih.inside;
            replaceable = ih.replaceable;
            least = λ j p r t.
                ground (arith, ih.least j p r, way_of_age_complete blocks ages target 0 j l p);
          }
      | inr (v, e) ↦
          let at = way_of_age_from blocks ages target 0 k (ground arith) in
          let z : k - 0 ≡ k = omega arith in
          record {
            inside = omega (arith, at.1);
            replaceable = ground (arith, at.3);
            least = λ j p r t. ground (arith, at.2);
          }
    ]

-- A replaceable way whose age is in the range searched makes the search succeed.
youngest_total :
    (blocks : List Block) (ages : List ℕ) (n target j : ℕ)
    → length ages ≡ length blocks
    → j < length blocks
    → is_valid_replacement (block_at blocks j) ≡ true
    → target ≤ get_or ages j 0
    → get_or ages j 0 < target + n
    → (k : ℕ) × (youngest blocks ages n target ≡ some k)
unfolding youngest
youngest_total blocks ages zero target j l p r a b = absurd (omega arith)
youngest_total blocks ages (suc n) target j l p r a b =
    elim (Option-cases (way_of_age blocks ages target 0)) [
      | inl e ↦
          let more : target ≢ get_or ages j 0 =
            λ s. way_of_age_complete blocks ages target 0 j l p (sym s) r e in
          let (k, h) =
            youngest_total blocks ages n (target + 1) j l p r (omega arith) (omega arith) in
          (k, ground arith)
      | inr (v, e) ↦ (v, ground arith)
    ]

-- In a full set in which some replaceable way has an age below the associativity, the victim is a
-- replaceable way, no replaceable way is younger, and it becomes the youngest.
pub victim_youngest :
    (blocks : List Block) (ages : List ℕ) (j : ℕ)
    → length ages ≡ length blocks
    → first_invalid blocks 0 ≡ none
    → j < length blocks
    → is_valid_replacement (block_at blocks j) ≡ true
    → get_or ages j 0 < length blocks
    → (k : ℕ) × (get_replacement_index blocks ages ≡ some (k, touch ages k))
      × (k < length blocks)
      × (is_valid_replacement (block_at blocks k) ≡ true)
      × (get_or ages k 0 ≤ get_or ages j 0)
unfolding get_replacement_index
victim_youngest blocks ages j l f p r a =
    let (k, h) = youngest_total blocks ages (length blocks) 0 j l p r (omega arith) (omega arith) in
    let y = youngest_lem blocks ages (length blocks) 0 k l h in
    (k, ground arith, y.inside, y.replaceable, y.least j p r (omega arith))

-- With ages that rank the ways, a set of replaceable lines always has a victim.
pub victim_total :
    (blocks : List Block) (order ages : List ℕ)
    → Ranks order ages
    → length ages ≡ length blocks
    → 0 < length blocks
    → All (λ b. is_valid_replacement b ≡ true) blocks
    → (w : ℕ) × (get_replacement_index blocks ages ≡ some (w, touch ages w)) × (w < length blocks)
unfolding get_replacement_index
victim_total blocks order ages r l h ok = elim (Option-cases (first_invalid blocks 0)) [
  | inl e ↦
      let j = get_or order 0 0 in
      let first = r.way 0 (omega arith) in
      let (k, c, i, _, _) =
        victim_youngest blocks ages j l e (omega (arith, first))
          (All-get_or _ blocks j create ok (omega (arith, first))) (omega (arith, first)) in
      (k, c, i)
  | inr (k, e) ↦ (k, ground arith, (first_invalid-some blocks k e).0)
]
