-- ===== src/Cache/Policy/Srrip.antt =====
-- cache_set_srrip.cc: a re-reference counter (a byte) for each way and a replacement pointer.
pub mod Victim
use model_lib.Prelude.{
  All, All-get_or, Bool, Bool-cases, List, Option, [], arith, get_or, guard, if◌then◌else◌, inl,
  inr, length, length-replicate, length-set, ltb, map, none, replicate, set, some, suc, zero, ℕ,
  ◌%◌, ◌+◌, ◌-◌, ◌<◌, ◌==◌, ◌>>=◌, ◌>>◌, ◌^◌, ◌∷◌, ◌≡◌, ◌≤◌,
}
use model_lib.Cache.Block.{Block, create, is_valid_replacement, block_at}
use model_lib.Cache.Policy.Ways.{
  first_invalid, first_invalid-some, search_round, found, missing, search_round_found,
  search_round_missing, Search-cases,
}

pub record Srrip : Type 0 where
  pub rrip_max : ℕ
  pub rrip_insert : ℕ
  pub bits : List ℕ
  pub pointer : ℕ

-- The constructor, for `n` ways; `numbits` is the configured width, and the fields are bytes.
pub initial : ℕ → ℕ → Srrip
initial n numbits =
    let top = (2 ^ numbits + 255) % 256 in
    let insert = (top + 255) % 256 in
    record { rrip_max = top; rrip_insert = insert; bits = replicate n insert; pointer = 0 }

-- The loop that increments all counters.
abbrev pub incremented : List ℕ → List ℕ
incremented = map (λ b. (b + 1) % 256)

-- The test of the search, at a way.
pub distant : Srrip → ℕ → Bool
distant s w = get_or s.bits w 0 == s.rrip_max

-- The loop over `j`: `n` rounds, each followed by an increment of all counters. `none` is the
-- assertion on the victim, or the `LOG_PRINT_ERROR` at the end.
pub rounds : List Block → ℕ → Srrip → Option (ℕ × Srrip)
rounds blocks zero s = none
rounds blocks (suc n) s =
    elim (search_round (distant s) (length blocks) (length blocks) s.pointer) [
      | found w p ↦ do
        guard (is_valid_replacement (block_at blocks w))
        some (w, record s { bits = set s.bits w s.rrip_insert; pointer = p })
      | missing p ↦ rounds blocks n (record s { bits = incremented s.bits; pointer = p })
    ]

pub get_replacement_index : List Block → Srrip → Option (ℕ × Srrip)
get_replacement_index blocks s = elim (first_invalid blocks 0) [
  | some i ↦ some (i, record s { bits = set s.bits i s.rrip_insert })
  | none ↦ rounds blocks (s.rrip_max + 1) s
]

pub update_replacement_index : Srrip → ℕ → Srrip
update_replacement_index s w =
    if ltb 0 (get_or s.bits w 0)
    then record s { bits = set s.bits w (get_or s.bits w 0 - 1) }
    else s

-- The counters stay within their width, and the pointer in the set.
pub record Inv (n : ℕ) (s : Srrip) : Type 0 where
  pub ways : length s.bits ≡ n
  pub pointer_in : s.pointer < n
  pub narrow : s.rrip_max < 256
  pub insert_le : s.rrip_insert ≤ s.rrip_max
  pub counters : All (λ b. b ≤ s.rrip_max) s.bits

pub All-set :
    (top : ℕ) (bits : List ℕ) (w v : ℕ)
    → v ≤ top
    → All (λ b. b ≤ top) bits
    → All (λ b. b ≤ top) (set bits w v)
All-set top [] w v h a = tt
All-set top (b ∷ bs) zero v h a = (h, a.1)
All-set top (b ∷ bs) (suc w) v h a = (a.0, All-set top bs w v h a.1)

All-replicate : (top n v : ℕ) → v ≤ top → All (λ b. b ≤ top) (replicate n v)
All-replicate top zero v h = tt
All-replicate top (suc n) v h = (h, All-replicate top n v h)

-- Widths of one to eight bits.
pub initial-Inv :
    (n numbits : ℕ) → 0 < n → 0 < 2 ^ numbits - 1 → 2 ^ numbits ≤ 256 → Inv n (initial n numbits)
unfolding initial
initial-Inv n numbits h wide small =
    let top = (2 ^ numbits + 255) % 256 in
    let insert = (top + 255) % 256 in
    let le : insert ≤ top = omega arith in
    record {
      ways = length-replicate n insert;
      pointer_in = h;
      narrow = omega arith;
      insert_le = le;
      counters = All-replicate top n insert le;
    }

pub update_replacement_index-Inv :
    (n : ℕ) (s : Srrip) (w : ℕ) → w < n → Inv n s → Inv n (update_replacement_index s w)
unfolding update_replacement_index
update_replacement_index-Inv n s w h v = elim (Bool-cases (ltb 0 (get_or s.bits w 0))) [
  | inl e ↦
      rw (e, update_replacement_index)
        (record {
          ways = omega (arith, length-set s.bits w (get_or s.bits w 0 - 1), v.ways);
          pointer_in = v.pointer_in;
          narrow = v.narrow;
          insert_le = v.insert_le;
          counters =
              All-set s.rrip_max s.bits w (get_or s.bits w 0 - 1) (omega (arith, le)) v.counters;
        })
  | inr e ↦ rw (e, update_replacement_index) v
]
  where
    le : get_or s.bits w 0 ≤ s.rrip_max
    le = All-get_or (λ b. b ≤ s.rrip_max) s.bits w 0 v.counters (omega (arith, v.ways))
