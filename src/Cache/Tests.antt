-- ===== src/Cache/Tests.antt =====
-- Runs of cache.cc, cache_set.cc and cache_base.cc on a cache of two sets of two ways.
use model_lib.Prelude.{
  Bool, List, [], arith, false, inr, length, none, refl, some, suc, true, zero, ℕ, ◌+◌, ◌<◌, ◌↔◌,
  ◌∷◌, ◌≡◌, ◌≢◌, ◌⊎◌,
}
use model_lib.Cache.Block.{Block, shared, create, no_tag, set_tag}
use model_lib.Cache.Policy.RoundRobin
use model_lib.Cache.Address.{
  CacheBase, IsBase, hash_mask, set_index-lt, tag_to_address-split, split_address, block_offset,
  tag_to_address, block_num, hashed,
}
use model_lib.Cache.Replacement
use model_lib.Cache.Replacement.{
  Policy, PolicyType, round_robin, round_robin_state, plru, plru_state, create_policy,
  update_replacement_index,
}
use model_lib.Cache.Replacement.Total.{
  IsReady, get_replacement_index_total, update_replacement_index-IsReady, create_policy-IsReady,
}
use model_lib.Cache.Set.{
  read_line, write_line, create_set, CacheSet, Inserted, find, find_below, insert, invalidate,
  read_into, write_from,
}
use model_lib.Cache.Set.Lookup.{Unique}
use model_lib.Cache.Set.Data.{read_line-write_line}
use model_lib.Cache.Set.Contents.{insert_lem, invalidate_lem}
use model_lib.Cache.Lines.{
  set_at, Cache, LineInserted, create_cache, with_set, insert_single_line, invalidate_single_line,
  peek_single_line, located,
}
use model_lib.Cache.Lines.Total.{insert_single_line_total}
use model_lib.Cache.Lines.Sound.{IsCache, IsOther, tag_of, set_of, create_cache-IsCache}
use model_lib.Cache.Lines.Contents.{insert_single_line_lem, invalidate_single_line_lem}

abbrev base : CacheBase
base = record {
  cache_size = 256;
  associativity = 2;
  blocksize = 64;
  hash = hash_mask;
  num_sets = 2;
  log_blocksize = 6;
  ahl = none;
}

base-IsBase : IsBase base
base-IsBase = record { sets_small = omega arith; masked = λ _. (1, refl) }

set_index-lt_example : (split_address base 0x1240).1 < 2
set_index-lt_example = set_index-lt base 0x1240 base-IsBase (omega arith)

tag_to_address-split_example :
    tag_to_address base (split_address base 0x1247).0 + block_offset base 0x1247 ≡ 0x1247
tag_to_address-split_example = tag_to_address-split base 0x1247 refl (omega arith) (omega arith)

abbrev line : ℕ → Block
line tag = record { tag = tag; cstate = shared; owner = 0; used = 0; options = 0 }

abbrev lines : List Block
lines = line 10 ∷ line 11 ∷ []

abbrev policy : Policy
policy = round_robin_state 1

get_replacement_index_total_example :
    (w : ℕ) × (p' : Policy) × (Replacement.get_replacement_index 1 lines policy ≡ some (w, p'))
    × (w < 2)
    × IsReady 2 p'
get_replacement_index_total_example =
    get_replacement_index_total lines (refl, (refl, tt)) (omega arith) (omega arith) 1 policy
      (omega arith) (omega arith)

update_replacement_index-IsReady_example :
    (access' : List ℕ) × (p' : Policy) × (update_replacement_index 2 (0 ∷ 0 ∷ []) policy 0
      ≡ some (access', p'))
    × IsReady 2 p'
    × (length access' ≡ 2)
update_replacement_index-IsReady_example =
    update_replacement_index-IsReady 2 (0 ∷ 0 ∷ []) policy 0 (omega arith) refl (omega arith)

create_policy-IsReady_example : (p : Policy) × (create_policy plru 8 2 0 ≡ some p) × IsReady 8 p
create_policy-IsReady_example =
    create_policy-IsReady plru 8 2 0 (omega arith) (omega arith) (inr refl)

abbrev full_set : CacheSet
full_set = record { blocks = lines; policy = policy; blocksize = 64; content = none }

lines-Unique : Unique lines
lines-Unique zero zero hi hj v e = refl
lines-Unique zero (suc zero) hi hj v e = absurd (omega (arith, e))
lines-Unique (suc zero) zero hi hj v e = absurd (omega (arith, e))
lines-Unique (suc zero) (suc zero) hi hj v e = refl
lines-Unique (suc (suc i)) j hi hj v e = absurd (omega arith)
lines-Unique zero (suc (suc j)) hi hj v e = absurd (omega arith)
lines-Unique (suc zero) (suc (suc j)) hi hj v e = absurd (omega arith)

abbrev inserted : Inserted
inserted = record {
  way = 1;
  eviction = true;
  evict_block = line 11;
  evict_buff = none;
  after = record {
    blocks = line 10 ∷ line 12 ∷ [];
    policy = round_robin_state 0;
    blocksize = 64;
    content = none;
  };
}

insert_lem_example :
    (find 12 (line 10 ∷ line 12 ∷ []) ≡ some 1)
    × Unique (line 10 ∷ line 12 ∷ [])
    × (true ≡ true → (find 11 lines ≡ some 1) × (find 11 (line 10 ∷ line 12 ∷ []) ≡ none))
    × ((t : ℕ)
        → t ≢ no_tag
        → t ≢ 12
        → (true ≡ true → t ≢ 11)
        → find t (line 10 ∷ line 12 ∷ []) ≡ find t lines)
unfolding insert Replacement.get_replacement_index RoundRobin.get_replacement_index RoundRobin.calls
    RoundRobin.previous read_into write_from find find_below
insert_lem_example =
    insert_lem 1 (line 12) none create none full_set inserted refl lines-Unique
      (λ e. omega (arith, e)) refl

invalidate_lem_example :
    let (present, s') = invalidate 10 full_set in
    (find 10 s'.blocks ≡ none)
    × Unique s'.blocks
    × ((t : ℕ) → t ≢ no_tag → t ≢ 10 → find t s'.blocks ≡ find t lines)
    × ((present ≡ true) ↔ (find 10 lines ≢ none))
invalidate_lem_example = invalidate_lem 10 full_set lines-Unique (λ e. omega (arith, e))

abbrev cache : Cache
cache = create_cache base policy false

cache-IsCache : IsCache cache
cache-IsCache = create_cache-IsCache base policy false base-IsBase (omega arith)

abbrev inserted_line : LineInserted
inserted_line = record {
  eviction = false;
  evict_addr = tag_to_address base no_tag;
  evict_block = create;
  evict_buff = none;
  cache = with_set cache 1 (record {
    blocks = create ∷ set_tag create 73 ∷ [];
    policy = round_robin_state 0;
    blocksize = 64;
    content = none;
  });
}

insert_single_line_lem_example :
    IsCache inserted_line.cache
    × ((w : ℕ) × (peek_single_line inserted_line.cache 0x1240 ≡ some (set_of cache 0x1240, w)))
    × ((a : ℕ)
        → IsOther cache 0x1240 a
        → (false ≡ true → (set_of cache a ≢ set_of cache 0x1240) ⊎ (tag_of cache a ≢ no_tag))
        → peek_single_line inserted_line.cache a ≡ peek_single_line cache a)
unfolding insert_single_line insert Replacement.get_replacement_index
    RoundRobin.get_replacement_index RoundRobin.calls RoundRobin.previous read_into write_from find
    find_below split_address hashed block_num create_cache create_set peek_single_line located
insert_single_line_lem_example =
    insert_single_line_lem 1 cache 0x1240 none create none inserted_line refl cache-IsCache
      (λ e. omega (arith, e)) refl

invalidate_single_line_lem_example :
    (present : Bool) × (c' : Cache) × (invalidate_single_line cache 0x1240 ≡ some (present, c'))
    × IsCache c'
    × (peek_single_line c' 0x1240 ≡ none)
    × ((present ≡ true) ↔ (peek_single_line cache 0x1240 ≢ none))
    × ((a : ℕ) → IsOther cache 0x1240 a → peek_single_line c' a ≡ peek_single_line cache a)
unfolding split_address hashed block_num create_cache
invalidate_single_line_lem_example =
    invalidate_single_line_lem cache 0x1240 cache-IsCache (λ e. omega (arith, e))

insert_single_line_total_example :
    (r : LineInserted) × (insert_single_line 1 cache 0x1240 none create none ≡ some r)
    × IsReady
        (length (set_at r.cache (set_of cache 0x1240)).blocks)
        (set_at r.cache (set_of cache 0x1240)).policy
unfolding split_address hashed block_num create_cache create_set
insert_single_line_total_example =
    insert_single_line_total 1 cache 0x1240 none create none (omega arith) cache-IsCache (record {
      some_way = omega arith;
      few_ways = omega arith;
      replaceable = (refl, (refl, tt));
      ready = omega arith;
    })

-- A set of two ways of four bytes that keeps its data.
abbrev data_set : CacheSet
data_set = record {
  blocks = lines;
  policy = policy;
  blocksize = 4;
  content = some (0 ∷ 1 ∷ 2 ∷ 3 ∷ 4 ∷ 5 ∷ 6 ∷ 7 ∷ []);
}

read_line-write_line_example :
    ((s' : CacheSet) × (write_line [] data_set 1 1 (some (8 ∷ 9 ∷ [])) 2 false ≡ some ([], s')))
    × ((update : Bool) (access' : List ℕ) (s' : CacheSet)
        → write_line [] data_set 1 1 (some (8 ∷ 9 ∷ [])) 2 update ≡ some (access', s')
        → read_line access' s' 1 1 (some (0 ∷ 0 ∷ 0 ∷ [])) 2 false
          ≡ some (some (8 ∷ 9 ∷ 0 ∷ []), access', s'))
read_line-write_line_example =
    read_line-write_line [] data_set (0 ∷ 1 ∷ 2 ∷ 3 ∷ 4 ∷ 5 ∷ 6 ∷ 7 ∷ []) (8 ∷ 9 ∷ [])
      (0 ∷ 0 ∷ 0 ∷ []) 1 1 refl refl (omega arith) (omega arith)
