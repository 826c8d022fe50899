-- ===== src/Cache/Policy/Lru/Scan.antt =====
-- What the loop of `CacheSetLRU::getReplacementIndex` returns.
use model_lib.Prelude.{
  All, List, [], arith, get_or, length, refl, suc, true, zero, ℕ, ◌+◌, ◌<◌, ◌∷◌, ◌≡◌, ◌≢◌, ◌≤◌,
}
use model_lib.Cache.Block.{Block, is_valid, is_valid_replacement, block_at}
use model_lib.Cache.Policy.Lru.{scan}

-- Every way holds a line.
abbrev pub Full : List Block → Type 0
Full = All (λ b. is_valid b ≡ true)

-- Way `j` may be replaced only at an age of at most `bound`.
abbrev pub NotOlder : List Block → List ℕ → ℕ → ℕ → Type 0
NotOlder bs ages bound j = is_valid_replacement (block_at bs j) ≡ true → get_or ages j 0 ≤ bound

-- No way beats the maximum so far: the index so far is the result.
pub scan_done :
    (bs : List Block) (ages : List ℕ) (i index max : ℕ)
    → Full bs
    → ((j : ℕ) → j < length bs → NotOlder bs ages max j)
    → scan bs ages i index max ≡ index
unfolding scan
scan_done [] ages i index max f n = refl
scan_done (b ∷ bs) [] i index max f n = refl
scan_done (b ∷ bs) (a ∷ as') i index max f n = ground (
  arith,
  n 0 (omega arith),
  scan_done bs as' (i + 1) index max f.1 (λ j h. n (suc j) (omega arith)),
)

-- One replaceable way is older than all the others: it is the result.
pub scan_finds :
    (bs : List Block) (ages : List ℕ) (i index max m : ℕ)
    → length ages ≡ length bs
    → Full bs
    → m < length bs
    → is_valid_replacement (block_at bs m) ≡ true
    → max < get_or ages m 0
    → ((j : ℕ)
        → j < length bs
        → j ≢ m
        → is_valid_replacement (block_at bs j) ≡ true
        → get_or ages j 0 < get_or ages m 0)
    → scan bs ages i index max ≡ i + m
unfolding scan
scan_finds [] ages i index max m e f h r p o = absurd (omega arith)
scan_finds (b ∷ bs) [] i index max m e f h r p o = absurd (omega arith)
scan_finds (b ∷ bs) (a ∷ as') i index max zero e f h r p o = ground (
  arith,
  scan_done bs as' (i + 1) i a f.1
      (λ j h' r'. let q = o (suc j) (omega arith) (omega arith) r' in omega arith),
)
scan_finds (b ∷ bs) (a ∷ as') i index max (suc m) e f h r p o =
    let rest = λ (k top : ℕ) (q : top < get_or as' m 0).
      scan_finds bs as' (i + 1) k top m (omega arith) f.1 (omega arith) r q
        (λ j h' ne r'. o (suc j) (omega arith) (omega arith) r') in
    ground (arith, o 0 (omega arith) (omega arith), rest i a, rest index max p)
