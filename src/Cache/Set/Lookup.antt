-- ===== src/Cache/Set/Lookup.antt =====
-- A set of cache_set.cc seen as a map from tags to lines.
use model_lib.Prelude.{
  Bool-cases, List, Option-cases, ap, arith, inl, inr, length, none, some, suc, sym, true, zero, ℕ,
  ◌<◌, ◌==◌, ◌∙◌, ◌≡◌, ◌≢◌,
}
use model_lib.Cache.Block.{Block, is_valid, no_tag, block_at}
use model_lib.Cache.Set.{find_below, find}

-- No two ways hold lines of the same tag.
abbrev pub Unique : List Block → Type 0
Unique blocks =
    (i j : ℕ)
    → i < length blocks
    → j < length blocks
    → is_valid (block_at blocks i) ≡ true
    → (block_at blocks i).tag ≡ (block_at blocks j).tag
    → i ≡ j

find_below-some :
    (tag : ℕ) (blocks : List Block) (n w : ℕ)
    → find_below tag blocks n ≡ some w
    → (w < n) × ((block_at blocks w).tag ≡ tag)
unfolding find_below
find_below-some tag blocks zero w h = absurd (ground arith)
find_below-some tag blocks (suc n) w h = elim (Bool-cases ((block_at blocks n).tag == tag)) [
  | inl e ↦ let s : n ≡ w = ground arith in (omega arith, ground arith)
  | inr e ↦ let ih = find_below-some tag blocks n w (ground arith) in (omega (arith, ih.0), ih.1)
]

find_below-none :
    (tag : ℕ) (blocks : List Block) (n i : ℕ)
    → find_below tag blocks n ≡ none
    → i < n
    → (block_at blocks i).tag ≢ tag
unfolding find_below
find_below-none tag blocks zero i h l = absurd (omega arith)
find_below-none tag blocks (suc n) i h l =
    let ih = find_below-none tag blocks n i in ground (arith, ih)

-- A tag that is found stands at the way returned; one that is not found stands nowhere.
pub find-some :
    (tag : ℕ) (blocks : List Block) (w : ℕ)
    → find tag blocks ≡ some w
    → (w < length blocks) × ((block_at blocks w).tag ≡ tag)
unfolding find
find-some tag blocks w h = find_below-some tag blocks (length blocks) w h

pub find-none :
    (tag : ℕ) (blocks : List Block) (i : ℕ)
    → find tag blocks ≡ none
    → i < length blocks
    → (block_at blocks i).tag ≢ tag
unfolding find
find-none tag blocks i h l = find_below-none tag blocks (length blocks) i h l

-- With unique tags the way of a line is the one that is found.
pub find_at :
    (tag : ℕ) (blocks : List Block) (w : ℕ)
    → Unique blocks
    → tag ≢ no_tag
    → w < length blocks
    → (block_at blocks w).tag ≡ tag
    → find tag blocks ≡ some w
find_at tag blocks w u t l e = elim (Option-cases (find tag blocks)) [
  | inl n ↦ absurd (find-none tag blocks w n l e)
  | inr (v, s) ↦
      let (i, f) = find-some tag blocks v s in
      let same : w ≡ v = u w v l i (ground arith) (e ∙ sym f) in s ∙ ap some (sym same)
]

pub find_nowhere :
    (tag : ℕ) (blocks : List Block)
    → ((i : ℕ) → i < length blocks → (block_at blocks i).tag ≢ tag)
    → find tag blocks ≡ none
find_nowhere tag blocks h = elim (Option-cases (find tag blocks)) [
  | inl n ↦ n
  | inr (v, s) ↦ let (i, f) = find-some tag blocks v s in absurd (h v i f)
]
