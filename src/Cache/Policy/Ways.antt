-- ===== src/Cache/Policy/Ways.antt =====
-- Searches over the ways of a set that several of the policies in cache_set_*.cc make.
use model_lib.Prelude.{
  Bool, Bool-cases, List, Option, [], arith, false, if◌then◌else◌, inl, inr, length, ltb-cases,
  none, refl, some, subst, suc, true, zero, ℕ, ◌%◌, ◌+◌, ◌-◌, ◌<◌, ◌∷◌, ◌≡◌, ◌≤◌, ◌⊎◌,
}
use model_lib.Cache.Block.{Block, is_valid, block_at}
use native.Mathlib.Nat.{mod-eq_of_lt, mod_self}

-- The loop over `i` that every policy starts with: the first way that holds no line.
unfoldable pub first_invalid : List Block → ℕ → Option ℕ
first_invalid [] i = none
first_invalid (b ∷ bs) i =
    let rest = first_invalid bs (i + 1) in if is_valid b then rest else some i

first_invalid_from :
    (bs : List Block) (i k : ℕ)
    → first_invalid bs i ≡ some k
    → (i ≤ k) × (k < i + length bs) × (is_valid (block_at bs (k - i)) ≡ false)
unfolding first_invalid
first_invalid_from [] i k h = absurd (ground arith)
first_invalid_from (b ∷ bs) i k h = elim (Bool-cases (is_valid b)) [
  | inl v ↦
      let ih = first_invalid_from bs (i + 1) k (ground arith) in
      let e : k - i ≡ suc (k - (i + 1)) = omega arith in (omega arith, omega arith, ground arith)
  | inr v ↦
      let e : i ≡ k = ground arith in
      let z : k - i ≡ 0 = omega arith in (omega arith, omega arith, ground arith)
]

-- The way found is inside the set and holds no line.
pub first_invalid-some :
    (bs : List Block) (k : ℕ)
    → first_invalid bs 0 ≡ some k
    → (k < length bs) × (is_valid (block_at bs k) ≡ false)
first_invalid-some bs k h =
    let f = first_invalid_from bs 0 k h in (omega (arith, f.1), ground (arith, f.2))

-- A search that starts at the replacement pointer and goes round the set once: it stops at the first
-- way that passes the test, and leaves the pointer (a byte) behind it.
pub data Search : Type 0 where
  found : ℕ → ℕ → Search
  missing : ℕ → Search

pub Search-cases :
    (r : Search) → ((w : ℕ) × (p : ℕ) × (r ≡ found w p)) ⊎ ((p : ℕ) × (r ≡ missing p))
Search-cases (found w p) = inl (w, p, refl)
Search-cases (missing p) = inr (p, refl)

abbrev pub next_way : ℕ → ℕ → ℕ
next_way assoc p = (p + 1) % assoc % 256

unfoldable pub search_round : (ℕ → Bool) → ℕ → ℕ → ℕ → Search
search_round test assoc zero p = missing p
search_round test assoc (suc n) p =
    let rest = search_round test assoc n (next_way assoc p) in
    if test p then found p (next_way assoc p) else rest

-- What is found passes the test and lies in the set; the pointer stays in the set.
abbrev Sound : (ℕ → Bool) → ℕ → Search → Type 0
Sound test assoc (found w p) = (w < assoc) × (p < assoc) × (test w ≡ true)
Sound test assoc (missing p) = p < assoc

module _ (test : ℕ → Bool) (assoc : ℕ) (small : assoc ≤ 256) where
  next_way-lt : (p : ℕ) → p < assoc → next_way assoc p < assoc
  next_way-lt p h = omega arith

  search_round-Sound : (n p : ℕ) → p < assoc → Sound test assoc (search_round test assoc n p)
  unfolding search_round
  search_round-Sound zero p h = h
  search_round-Sound (suc n) p h = elim (Bool-cases (test p)) [
    | inl e ↦ rw e (h, next_way-lt p h, e)
    | inr e ↦ rw e (search_round-Sound n (next_way assoc p) (next_way-lt p h))
  ]

  next_way_cases :
      (p : ℕ)
      → p < assoc
      → ((p + 1 < assoc) × (next_way assoc p ≡ p + 1)) ⊎ ((p + 1 ≡ assoc) × (next_way assoc p ≡ 0))
  next_way_cases p h = elim (ltb-cases (p + 1) assoc) [
    | inl (e, l) ↦ inl (l, omega (arith, mod-eq_of_lt l))
    | inr (e, g) ↦
        let whole : p + 1 ≡ assoc = omega arith in
        inr (whole, rw whole (omega (arith, mod_self assoc)))
  ]

  -- A way that passes the test and is fewer than `n` steps ahead is not missed.
  search_round_reaches :
      (n p k w : ℕ)
      → p < assoc
      → w < assoc
      → k < n
      → (p + k ≡ w) ⊎ (p + k ≡ w + assoc)
      → test w ≡ true
      → (v : ℕ) × (q : ℕ) × (search_round test assoc n p ≡ found v q)
  unfolding search_round
  search_round_reaches zero p k w h i l e t = absurd (omega arith)
  search_round_reaches (suc n) p zero w h i l e t =
      let same : p ≡ w = omega arith in (p, next_way assoc p, ground arith)
  search_round_reaches (suc n) p (suc k) w h i l e t = elim (Bool-cases (test p)) [
    | inl f ↦ (p, next_way assoc p, rw f)
    | inr f ↦ rw f (
        search_round_reaches n (next_way assoc p) k w (next_way-lt p h) i (omega arith)
          (ground (arith, next_way_cases p h)) t)
  ]

  -- One round finds a way that passes the test if there is one.
  pub search_round_finds :
      (p w : ℕ)
      → p < assoc
      → w < assoc
      → test w ≡ true
      → (v : ℕ) × (q : ℕ) × (search_round test assoc assoc p ≡ found v q)
        × (v < assoc)
        × (q < assoc)
        × (test v ≡ true)
  search_round_finds p w h i t =
      let (v, q, e) = reached in
      let sound : Sound test assoc (found v q) =
        subst (Sound test assoc) e (search_round-Sound assoc p h) in
      (v, q, e, sound.0, sound.1, sound.2)
    where
      reached : (v : ℕ) × (q : ℕ) × (search_round test assoc assoc p ≡ found v q)
      reached = elim (ltb-cases w p) [
        | inl (e, l) ↦
            search_round_reaches assoc p (w + assoc - p) w h i (omega arith) (inr (omega arith)) t
        | inr (e, g) ↦
            search_round_reaches assoc p (w - p) w h i (omega arith) (inl (omega arith)) t
      ]

  pub search_round_found :
      (p v q : ℕ)
      → p < assoc
      → search_round test assoc assoc p ≡ found v q
      → (v < assoc) × (q < assoc) × (test v ≡ true)
  search_round_found p v q h e = subst (Sound test assoc) e (search_round-Sound assoc p h)

  -- A round that finds none leaves the pointer in the set, and every way fails the test.
  pub search_round_missing :
      (p q : ℕ)
      → p < assoc
      → search_round test assoc assoc p ≡ missing q
      → (q < assoc) × ((w : ℕ) → w < assoc → test w ≡ false)
  search_round_missing p q h e = (
    subst (Sound test assoc) e (search_round-Sound assoc p h),
    λ w i. fails w i (Bool-cases (test w)),
  )
    where
      fails : (w : ℕ) → w < assoc → (test w ≡ true) ⊎ (test w ≡ false) → test w ≡ false
      fails w i (inl t) = let (v, r, f, _, _, _) = search_round_finds p w h i t in cc
      fails w i (inr t) = t
