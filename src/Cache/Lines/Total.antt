-- ===== src/Cache/Lines/Total.antt =====
-- When `Cache::insertSingleLine` returns.
use model_lib.Prelude.{List, Option, length, refl, some, subst, sym, ℕ, ◌<◌, ◌≡◌}
use model_lib.Cache.Block.{Block, create, set_tag}
use model_lib.Cache.Set.{CacheSet}
use model_lib.Cache.Set.Total.{Takes, insert-total}
use model_lib.Cache.Replacement.Total.{IsReady}
use model_lib.Cache.Lines.{Cache, LineInserted, set_at, line_inserted, insert_single_line}
use model_lib.Cache.Lines.Sound.{IsCache, tag_of, set_of, set_at_same}

-- `insertSingleLine` into a sound cache, at an address whose set has 1 to 256 ways of replaceable
-- lines and a policy that is ready, always returns, with fuel for one draw of the random policy, and
-- leaves the set's policy ready.
pub insert_single_line_total :
    (fuel : ℕ) (c : Cache) (addr : ℕ) (fill : Option (List ℕ)) (eb : Block)
    (ebuff : Option (List ℕ))
    → 0 < fuel
    → IsCache c
    → Takes (set_at c (set_of c addr))
    → (r : LineInserted) × (insert_single_line fuel c addr fill eb ebuff ≡ some r)
      × IsReady
          (length (set_at r.cache (set_of c addr)).blocks)
          (set_at r.cache (set_of c addr)).policy
unfolding insert_single_line
insert_single_line_total fuel c addr fill eb ebuff h v t =
    let (r, e, ready) =
      insert-total fuel (set_tag create (tag_of c addr)) fill eb ebuff (set_at c (set_of c addr)) h
        t in
    (
      line_inserted c (set_of c addr) r,
      rw (e, insert_single_line) refl,
      subst (λ (s : CacheSet). IsReady (length s.blocks) s.policy)
          (sym (set_at_same c addr v r.after)) ready,
    )
