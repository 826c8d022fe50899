-- ===== src/Cache/Policy/Nmru.antt =====
-- cache_set_nmru.cc: ages as in LRU, and a replacement pointer that goes round the set.
use model_lib.Prelude.{
  All, All-get_or, Bool, List, Option, Option-cases, arith, get_or, inl, inr, length, none, not,
  some, true, ℕ, ◌&&◌, ◌<◌, ◌==◌, ◌≡◌, ◌≢◌, ◌≤◌,
}
use model_lib.Cache.Block.{Block, create, is_valid_replacement, block_at}
use model_lib.Cache.Policy.Ages.{touch}
use model_lib.Cache.Policy.Lru.Recency.{Ranks}
use model_lib.Cache.Policy.Ways.{
  first_invalid, first_invalid-some, search_round, found, missing, search_round_finds,
}

pub record Nmru : Type 0 where
  pub ages : List ℕ
  pub pointer : ℕ

-- The test of the search, at a way.
pub not_most_recent : List Block → List ℕ → ℕ → Bool
not_most_recent blocks ages w =
    not (get_or ages w 0 == 0) && is_valid_replacement (block_at blocks w)

unfoldable pub update_replacement_index : Nmru → ℕ → Nmru
update_replacement_index s w = record s { ages = touch s.ages w }

-- `none` is the `LOG_PRINT_ERROR` at the end.
pub get_replacement_index : List Block → Nmru → Option (ℕ × Nmru)
unfolding update_replacement_index
get_replacement_index blocks s = elim (first_invalid blocks 0) [
  | some i ↦ some (i, update_replacement_index s i)
  | none ↦
      elim (search_round (not_most_recent blocks s.ages) (length blocks) (length blocks)
        s.pointer) [
          | found w p ↦ some (w, update_replacement_index (record s { pointer = p }) w)
          | missing p ↦ none
        ]
]

-- In a full set of at most 256 ways, with the pointer in it and a replaceable way that is not the
-- most recently used one, the victim is such a way, it becomes the most recently used one, and the
-- pointer stays in the set.
pub victim_not_most_recent :
    (blocks : List Block) (s : Nmru) (j : ℕ)
    → length blocks ≤ 256
    → s.pointer < length blocks
    → first_invalid blocks 0 ≡ none
    → j < length blocks
    → get_or s.ages j 0 ≢ 0
    → is_valid_replacement (block_at blocks j) ≡ true
    → (w : ℕ) × (p : ℕ) × (get_replacement_index blocks s
        ≡ some (w, record { ages = touch s.ages w; pointer = p }))
      × (w < length blocks)
      × (p < length blocks)
      × (get_or s.ages w 0 ≢ 0)
      × (is_valid_replacement (block_at blocks w) ≡ true)
unfolding get_replacement_index not_most_recent
victim_not_most_recent blocks s j small h f i a r =
    let test = not_most_recent blocks s.ages in
    let (w, p, e, inside, stays, passes) =
      search_round_finds test (length blocks) small s.pointer j h i (ground arith) in
    (w, p, ground arith, inside, stays, ground arith, ground arith)

-- With ages that rank two ways or more, a set of replaceable lines always has a victim.
pub victim_total :
    (blocks : List Block) (order : List ℕ) (s : Nmru)
    → Ranks order s.ages
    → length s.ages ≡ length blocks
    → 1 < length blocks
    → s.pointer < length blocks
    → All (λ b. is_valid_replacement b ≡ true) blocks
    → (w : ℕ) × (p : ℕ) × (get_replacement_index blocks s
        ≡ some (w, record { ages = touch s.ages w; pointer = p }))
      × (w < length blocks)
      × (p < length blocks)
unfolding get_replacement_index
victim_total blocks order s r l two h ok = elim (Option-cases (first_invalid blocks 0)) [
  | inl e ↦
      let j = get_or order 1 0 in
      let second = r.way 1 (omega arith) in
      let (w, p, c, i, q, _, _) =
        victim_not_most_recent blocks s j (omega (arith, r.small)) h e (omega (arith, second))
          (omega (arith, second)) (All-get_or _ blocks j create ok (omega (arith, second))) in
      (w, p, c, i, q)
  | inr (k, e) ↦ (k, s.pointer, ground arith, (first_invalid-some blocks k e).0, h)
]
