-- ===== src/Cache/Policy/Random.antt =====
-- cache_set_random.cc, with the generator of common/misc/random.h: the state is its seed.
use model_lib.Prelude.{
  All, All-get_or, Bool-cases, List, Option, Option-cases, arith, if◌then◌else◌, inl, inr, length,
  none, some, suc, true, zero, ℕ, ◌%◌, ◌*◌, ◌+◌, ◌/◌, ◌<◌, ◌^◌, ◌≡◌,
}
use model_lib.Cache.Block.{Block, create, is_valid_replacement, block_at}
use model_lib.Cache.Policy.Ways.{first_invalid, first_invalid-some}

-- `Random::next` on 32-bit words, with its default limit: the number drawn and the new seed.
unfoldable pub next : ℕ → ℕ × ℕ
next seed = let seed' = (seed * 1103515245 + 12345) % 2 ^ 32 in (seed' / 65536 % 32768, seed')

-- The draws from `seed` on, until one hits a replaceable way. The source calls itself without a
-- bound; the fuel is the number of calls.
pub draws : List Block → ℕ → ℕ → Option (ℕ × ℕ)
draws blocks zero seed = none
draws blocks (suc n) seed =
    let (v, seed') = next seed in
    let w = v % length blocks in
    let rest = draws blocks n seed' in
    if is_valid_replacement (block_at blocks w) then some (w, seed') else rest

pub get_replacement_index : ℕ → List Block → ℕ → Option (ℕ × ℕ)
get_replacement_index fuel blocks seed = elim (first_invalid blocks 0) [
  | some i ↦ some (i, seed)
  | none ↦ draws blocks fuel seed
]

-- The seed after `k` draws, and the way that the next draw hits.
unfoldable pub seed_after : ℕ → ℕ → ℕ
seed_after zero seed = seed
seed_after (suc k) seed = seed_after k (next seed).1

unfoldable pub drawn : List Block → ℕ → ℕ → ℕ
drawn blocks k seed = (next (seed_after k seed)).0 % length blocks

draws_reach :
    (blocks : List Block) (n j s : ℕ)
    → 0 < length blocks
    → j < n
    → is_valid_replacement (block_at blocks (drawn blocks j s)) ≡ true
    → (w : ℕ) × (s' : ℕ) × (draws blocks n s ≡ some (w, s'))
      × (w < length blocks)
      × (is_valid_replacement (block_at blocks w) ≡ true)
unfolding draws drawn seed_after
draws_reach blocks zero j s pos h r = absurd (omega arith)
draws_reach blocks (suc n) zero s pos h r =
    ((next s).0 % length blocks, (next s).1, rw r, omega arith, r)
draws_reach blocks (suc n) (suc j) s pos h r =
    elim (Bool-cases (is_valid_replacement (block_at blocks ((next s).0 % length blocks)))) [
      | inl t ↦ ((next s).0 % length blocks, (next s).1, rw t, omega arith, t)
      | inr t ↦ rw t (draws_reach blocks n j (next s).1 pos (omega arith) r)
    ]

-- In a full set, if one of the first `fuel` draws hits a replaceable way, the call returns a
-- replaceable way of the set.
pub victim_drawn :
    (fuel : ℕ) (blocks : List Block) (seed k : ℕ)
    → 0 < length blocks
    → first_invalid blocks 0 ≡ none
    → k < fuel
    → is_valid_replacement (block_at blocks (drawn blocks k seed)) ≡ true
    → (w : ℕ) × (seed' : ℕ) × (get_replacement_index fuel blocks seed ≡ some (w, seed'))
      × (w < length blocks)
      × (is_valid_replacement (block_at blocks w) ≡ true)
unfolding get_replacement_index
victim_drawn fuel blocks seed k pos f h r =
    let (w, seed', e, p, v) = draws_reach blocks fuel k seed pos h r in
    (w, seed', rw (f, get_replacement_index) e, p, v)

-- In a set of replaceable lines one draw is enough.
pub victim_total :
    (fuel : ℕ) (blocks : List Block) (seed : ℕ)
    → 0 < fuel
    → 0 < length blocks
    → All (λ b. is_valid_replacement b ≡ true) blocks
    → (w : ℕ) × (seed' : ℕ) × (get_replacement_index fuel blocks seed ≡ some (w, seed'))
      × (w < length blocks)
unfolding get_replacement_index
victim_total fuel blocks seed f pos ok = elim (Option-cases (first_invalid blocks 0)) [
  | inl e ↦
      let hit =
        All-get_or _ blocks (drawn blocks 0 seed) create ok
          (unfold drawn seed_after in omega arith) in
      let (w, s', c, i, _) = victim_drawn fuel blocks seed 0 pos e f hit in (w, s', c, i)
  | inr (k, e) ↦ (k, seed, ground arith, (first_invalid-some blocks k e).0)
]
