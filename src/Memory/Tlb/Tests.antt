-- ===== src/Memory/Tlb/Tests.antt =====
-- A run of tlb.cc on a buffer of two sets of two ways of pages.
use model_lib.Prelude.{[], arith, false, none, refl, some, true, ℕ, ◌∷◌, ◌≡◌, ◌≢◌, ◌⊎◌}
use model_lib.Cache.Block.{create}
use model_lib.Cache.Address.{CacheBase, IsBase, hash_mask, split_address, block_num, hashed}
use model_lib.Cache.Replacement.{round_robin_state}
use model_lib.Cache.Set.{create_set, find, find_below}
use model_lib.Cache.Lines.{
  Cache, LineInserted, create_cache, insert_single_line, peek_single_line, located,
}
use model_lib.Cache.Lines.Sound.{IsCache, IsOther, tag_of, set_of, create_cache-IsCache}
use model_lib.Memory.Tlb.{Tlb, lookup_page}
use model_lib.Memory.Tlb.Fill.{miss_fills}

abbrev pages : CacheBase
pages = record {
  cache_size = 16384;
  associativity = 2;
  blocksize = 4096;
  hash = hash_mask;
  num_sets = 2;
  log_blocksize = 12;
  ahl = none;
}

pages-IsBase : IsBase pages
pages-IsBase = record { sets_small = omega arith; masked = λ _. (1, refl) }

abbrev cache : Cache
cache = create_cache pages (round_robin_state 1) false

cache-IsCache : IsCache cache
cache-IsCache = create_cache-IsCache pages (round_robin_state 1) false pages-IsBase (omega arith)

abbrev tlb : Tlb
tlb = record { cache = cache; access = 4; miss = 1 }

miss_fills_example :
    (t' : Tlb) × (r : LineInserted) × (lookup_page 1 (tlb ∷ []) 0x5240 true ≡ some (false, t' ∷ []))
    × (insert_single_line 1 cache 0x5240 none create none ≡ some r)
    × IsCache t'.cache
    × (peek_single_line t'.cache 0x5240 ≢ none)
    × (t'.access ≡ 5)
    × (t'.miss ≡ 2)
    × ((a : ℕ)
        → IsOther cache 0x5240 a
        → (r.eviction ≡ true
            → (set_of cache a ≢ set_of cache 0x5240) ⊎ (tag_of cache a ≢ r.evict_block.tag))
        → peek_single_line t'.cache a ≡ peek_single_line cache a)
unfolding split_address hashed block_num create_cache create_set find find_below peek_single_line
    located
miss_fills_example =
    miss_fills 1 tlb 0x5240 (omega arith) cache-IsCache
      (record {
        some_way = omega arith;
        few_ways = omega arith;
        replaceable = (refl, (refl, tt));
        ready = omega arith;
      })
      (λ e. omega (arith, e)) refl
