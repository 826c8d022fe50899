-- ===== src/Cache/Set.antt =====
-- cache_set.h and cache_set.cc: one set of a cache, over a replacement policy.
pub mod Lookup
pub mod Contents
pub mod Total
pub mod Data
use model_lib.Prelude.{
  Bool, List, Option, drop, false, guard, if◌then◌else◌, leb, length, ltb, none, replicate, set,
  some, suc, take, true, zero, ℕ, ◌*◌, ◌++◌, ◌+◌, ◌==◌, ◌>>=◌, ◌>>◌,
}
use model_lib.Cache.Block.{Block, create, is_valid, invalidate_block, block_at}
use model_lib.Cache.Replacement.{Policy, get_replacement_index, update_replacement_index}

-- `m_associativity` is the length of `blocks`. `content` is `m_blocks`, null without a fault
-- injection manager.
pub record CacheSet : Type 0 where
  pub blocks : List Block
  pub policy : Policy
  pub blocksize : ℕ
  pub content : Option (List ℕ)

-- The constructor.
unfoldable pub create_set : ℕ → ℕ → Policy → Bool → CacheSet
create_set assoc blocksize policy faults = record {
  blocks = replicate assoc create;
  policy = policy;
  blocksize = blocksize;
  content = if faults then some (replicate (assoc * blocksize) 0) else none;
}

-- `memcpy` out of and into an array of bytes.
abbrev pub copy_out : List ℕ → ℕ → ℕ → List ℕ
copy_out bytes from n = take n (drop from bytes)

abbrev pub copy_in : List ℕ → ℕ → List ℕ → List ℕ
copy_in bytes from buff = take from bytes ++ (buff ++ drop (from + length buff) bytes)

-- `if (update_replacement) updateReplacementIndex(line_index);`
abbrev pub update_if : Bool → List ℕ → CacheSet → ℕ → Option (List ℕ × CacheSet)
update_if false access s w = some (access, s)
update_if true access s w = do
  r ← update_replacement_index (length s.blocks) access s.policy w
  some (r.0, record s { policy = r.1 })

-- The `memcpy` of `read_line`, if neither pointer is null.
unfoldable pub read_into : Option (List ℕ) → Option (List ℕ) → ℕ → ℕ → Option (List ℕ)
read_into (some content) (some buff) from n = some (copy_in buff 0 (copy_out content from n))
read_into (some content) none from n = none
read_into none buff from n = buff

-- The `memcpy` of `write_line` and of the fill in `insert`.
unfoldable pub write_from : Option (List ℕ) → ℕ → Option (List ℕ) → ℕ → Option (List ℕ)
write_from (some content) to (some buff) n = some (copy_in content to (take n buff))
write_from (some content) to none n = some content
write_from none to buff n = none

-- `out_buff` is the caller's buffer, `none` if null; the first result is what the call leaves in it.
abbrev pub read_line :
    List ℕ
    → CacheSet
    → ℕ
    → ℕ
    → Option (List ℕ)
    → ℕ
    → Bool
    → Option (Option (List ℕ) × List ℕ × CacheSet)
read_line access s line offset out_buff bytes update = do
  guard (leb (offset + bytes) s.blocksize)
  r ← update_if update access s line
  some (read_into s.content out_buff (line * s.blocksize + offset) bytes, r.0, r.1)

abbrev pub write_line :
    List ℕ → CacheSet → ℕ → ℕ → Option (List ℕ) → ℕ → Bool → Option (List ℕ × CacheSet)
write_line access s line offset in_buff bytes update = do
  guard (leb (offset + bytes) s.blocksize)
  let content = write_from s.content (line * s.blocksize + offset) in_buff bytes
  update_if update access (record s { content = content }) line

-- The loop of `find`, down from way `n - 1`.
unfoldable pub find_below : ℕ → List Block → ℕ → Option ℕ
find_below tag blocks zero = none
find_below tag blocks (suc n) =
    if (block_at blocks n).tag == tag then some n else find_below tag blocks n

-- `find`: the way, whose block the source returns.
unfoldable pub find : ℕ → List Block → Option ℕ
find tag blocks = find_below tag blocks (length blocks)

-- `invalidate`: whether a line was found, and the set.
pub invalidate : ℕ → CacheSet → Bool × CacheSet
invalidate tag s = elim (find tag s.blocks) [
  | none ↦ (false, s)
  | some w ↦ (true, record s { blocks = set s.blocks w (invalidate_block (block_at s.blocks w)) })
]

-- What `insert` leaves behind its pointers, and the set.
pub record Inserted : Type 0 where
  pub way : ℕ
  pub eviction : Bool
  pub evict_block : Block
  pub evict_buff : Option (List ℕ)
  pub after : CacheSet

-- The rest of `insert` once the way `w` is chosen. `evict_block` and `evict_buff` hold what the caller
-- passes; they change only on an eviction.
abbrev pub replaced :
    Block → Option (List ℕ) → Block → Option (List ℕ) → CacheSet → ℕ → Policy → Inserted
replaced block fill_buff evict_block evict_buff s w policy =
    let old = block_at s.blocks w in
    record {
      way = w;
      eviction = is_valid old;
      evict_block = if is_valid old then old else evict_block;
      evict_buff =
          if is_valid old
          then read_into s.content evict_buff (w * s.blocksize) s.blocksize
          else evict_buff;
      after = record s {
        blocks = set s.blocks w block;
        policy = policy;
        content = write_from s.content (w * s.blocksize) fill_buff s.blocksize;
      };
    }

unfoldable pub insert :
    ℕ → Block → Option (List ℕ) → Block → Option (List ℕ) → CacheSet → Option Inserted
insert fuel block fill_buff evict_block evict_buff s = do
  r ← get_replacement_index fuel s.blocks s.policy
  guard (ltb r.0 (length s.blocks))
  some (replaced block fill_buff evict_block evict_buff s r.0 r.1)
