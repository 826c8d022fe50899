-- ===== src/Cache/Policy/Lru.antt =====
-- cache_set_lru.cc: the state is `m_lru_bits`, an age for each way, beside the hit counters that all
-- sets of a cache share (`CacheSetInfoLRU::m_access`).
pub mod Recency
pub mod Scan
pub mod Victim
use model_lib.Prelude.{
  List, Option, [], get_or, guard, if◌then◌else◌, length, ltb, set, some, ℕ, ◌%◌, ◌&&◌, ◌+◌, ◌>>=◌,
  ◌>>◌, ◌^◌, ◌∷◌,
}
use model_lib.Cache.Block.{Block, is_valid, is_valid_replacement}
use model_lib.Cache.Policy.Ages.{touch}

-- The loop of `getReplacementIndex`, without the call of `moveToMRU` that follows on every exit.
-- The two lists are the arrays from way `i` on.
pub scan : List Block → List ℕ → ℕ → ℕ → ℕ → ℕ
scan [] ages i index max_bits = index
scan (b ∷ bs) [] i index max_bits = index
scan (b ∷ bs) (a ∷ as') i index max_bits =
    let older = ltb max_bits a && is_valid_replacement b in
    let rest = scan bs as' (i + 1) (if older then i else index) (if older then a else max_bits) in
    if is_valid b then rest else i

pub get_replacement_index : List Block → List ℕ → Option (ℕ × List ℕ)
get_replacement_index blocks ages = do
  let index = scan blocks ages 0 0 0
  guard (ltb index (length blocks))
  some (index, touch ages index)

-- `CacheSetInfoLRU::increment`, on a 64-bit counter.
pub increment : List ℕ → ℕ → Option (List ℕ)
increment access index = do
  guard (ltb index (length access))
  some (set access index ((get_or access index 0 + 1) % 2 ^ 64))

pub update_replacement_index : List ℕ → List ℕ → ℕ → Option (List ℕ × List ℕ)
update_replacement_index access ages accessed_index = do
  access' ← increment access (get_or ages accessed_index 0)
  some (access', touch ages accessed_index)
