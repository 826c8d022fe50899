-- ===== src/Cache/Lines.antt =====
-- cache.h and cache.cc: a cache of many sets, without a fault injector. What the locks guard runs as
-- one step.
pub mod Sound
pub mod Contents
pub mod Total
use model_lib.Prelude.{
  Bool, List, Option, [], false, get_or, guard, if◌then◌else◌, length, ltb, none, replicate, set,
  some, true, ℕ, ◌%◌, ◌+◌, ◌>>=◌, ◌>>◌, ◌^◌,
}
use model_lib.Cache.Block.{Block, create, set_tag}
use model_lib.Cache.Address.{CacheBase, split_address, block_offset, tag_to_address}
use model_lib.Cache.Replacement.{Policy, random_state}
use model_lib.Cache.Set.{
  Inserted, CacheSet, create_set, read_line, write_line, find, invalidate, insert,
}

-- `set_info` is `CacheSetInfoLRU::m_access`; the counters are 64-bit words.
pub record Cache : Type 0 where
  pub base : CacheBase
  pub enabled : Bool
  pub num_accesses : ℕ
  pub num_hits : ℕ
  pub sets : List CacheSet
  pub set_info : List ℕ

-- The constructor, with the policy state that each set starts from.
unfoldable pub create_cache : CacheBase → Policy → Bool → Cache
create_cache base policy faults = record {
  base = base;
  enabled = false;
  num_accesses = 0;
  num_hits = 0;
  sets = replicate base.num_sets (create_set base.associativity base.blocksize policy faults);
  set_info = replicate base.associativity 0;
}

abbrev pub no_set : CacheSet
no_set = record { blocks = []; policy = random_state 0; blocksize = 0; content = none }

-- `m_sets[i]`; every index that the code makes is below `m_num_sets`.
abbrev pub set_at : Cache → ℕ → CacheSet
set_at c i = get_or c.sets i no_set

pub with_set : Cache → ℕ → CacheSet → Cache
with_set c i s = record c { sets = set c.sets i s }

pub invalidate_single_line : Cache → ℕ → Option (Bool × Cache)
unfolding with_set
invalidate_single_line c addr = do
  let at = split_address c.base addr
  guard (ltb at.1 (length c.sets))
  let r = invalidate at.0 (set_at c at.1)
  some (r.0, with_set c at.1 r.1)

-- `CacheBase::access_t`
pub data Access : Type 0 where
  load store : Access

-- `line` is the set and the way whose block the source returns, `none` for `NULL`.
pub record Accessed : Type 0 where
  pub line : Option (ℕ × ℕ)
  pub buff : Option (List ℕ)
  pub cache : Cache

abbrev pub access_single_line : Cache → ℕ → Access → Option (List ℕ) → ℕ → Bool → Option Accessed
unfolding with_set
access_single_line c addr access buff bytes update =
    let at = split_address c.base addr in
    let s = set_at c at.1 in
    elim (find at.0 s.blocks) [
      | none ↦ some (record { line = none; buff = buff; cache = c })
      | some w ↦ elim access [
        | load ↦ do
          r ← read_line c.set_info s w (block_offset c.base addr) buff bytes update
          some (record {
            line = some (at.1, w);
            buff = r.0;
            cache = record c { sets = set c.sets at.1 r.2; set_info = r.1 };
          })
        | store ↦ do
          r ← write_line c.set_info s w (block_offset c.base addr) buff bytes update
          some (record {
            line = some (at.1, w);
            buff = buff;
            cache = record c { sets = set c.sets at.1 r.1; set_info = r.0 };
          })
      ]
    ]

-- What `insertSingleLine` leaves behind its pointers, and the cache.
pub record LineInserted : Type 0 where
  pub eviction : Bool
  pub evict_addr : ℕ
  pub evict_block : Block
  pub evict_buff : Option (List ℕ)
  pub cache : Cache

-- What `insertSingleLine` makes of the result of `insert`, at set `i`.
abbrev pub line_inserted : Cache → ℕ → Inserted → LineInserted
line_inserted c i r = record {
  eviction = r.eviction;
  evict_addr = tag_to_address c.base r.evict_block.tag;
  evict_block = r.evict_block;
  evict_buff = r.evict_buff;
  cache = with_set c i r.after;
}

unfoldable pub insert_single_line :
    ℕ → Cache → ℕ → Option (List ℕ) → Block → Option (List ℕ) → Option LineInserted
insert_single_line fuel c addr fill_buff evict_block evict_buff = do
  let at = split_address c.base addr
  r ← insert fuel (set_tag create at.0) fill_buff evict_block evict_buff (set_at c at.1)
  some (line_inserted c at.1 r)

-- A line by its set and its way.
unfoldable pub located : ℕ → Option ℕ → Option (ℕ × ℕ)
located i none = none
located i (some w) = some (i, w)

-- `peekSingleLine`
unfoldable pub peek_single_line : Cache → ℕ → Option (ℕ × ℕ)
peek_single_line c addr =
    let at = split_address c.base addr in located at.1 (find at.0 (set_at c at.1).blocks)

abbrev pub update_counters : Cache → Bool → Cache
update_counters c hit =
    if c.enabled
    then record c {
      num_accesses = (c.num_accesses + 1) % 2 ^ 64;
      num_hits = if hit then (c.num_hits + 1) % 2 ^ 64 else c.num_hits;
    }
    else c

abbrev pub update_hits : Cache → ℕ → Cache
update_hits c hits =
    if c.enabled
    then record c {
      num_accesses = (c.num_accesses + hits) % 2 ^ 64;
      num_hits = (c.num_hits + hits) % 2 ^ 64;
    }
    else c

-- `enable` and `disable`
abbrev pub enable : Cache → Cache
enable c = record c { enabled = true }

abbrev pub disable : Cache → Cache
disable c = record c { enabled = false }
