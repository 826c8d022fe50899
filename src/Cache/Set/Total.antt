-- ===== src/Cache/Set/Total.antt =====
-- When `CacheSet::insert` returns.
use model_lib.Prelude.{
  All, List, Option, arith, length, length-set, ltb, refl, some, subst, sym, true, ℕ, ◌<◌, ◌≡◌, ◌≤◌,
}
use model_lib.Cache.Block.{Block, is_valid_replacement}
use model_lib.Cache.Replacement.Total.{IsReady, get_replacement_index_total}
use model_lib.Cache.Set.{CacheSet, Inserted, insert, replaced}

-- What the insertion needs of a set: 1 to 256 ways of replaceable lines, and a policy that is ready.
pub record Takes (s : CacheSet) : Type 0 where
  pub some_way : 0 < length s.blocks
  pub few_ways : length s.blocks ≤ 256
  pub replaceable : All (λ b. is_valid_replacement b ≡ true) s.blocks
  pub ready : IsReady (length s.blocks) s.policy

-- A set that takes a line returns from `insert`, and its policy is ready for the next one.
pub insert-total :
    (fuel : ℕ) (b : Block) (fill : Option (List ℕ)) (eb : Block) (ebuff : Option (List ℕ))
    (s : CacheSet)
    → 0 < fuel
    → Takes s
    → (r : Inserted) × (insert fuel b fill eb ebuff s ≡ some r)
      × IsReady (length r.after.blocks) r.after.policy
unfolding insert
insert-total fuel b fill eb ebuff s h t =
    let (w, p', e, i, v) =
      get_replacement_index_total s.blocks t.replaceable t.some_way t.few_ways fuel s.policy h
        t.ready in
    let inside : ltb w (length s.blocks) ≡ true = ground arith in
    (
      replaced b fill eb ebuff s w p',
      rw (e, insert) (rw inside refl),
      subst (λ n. IsReady n p') (sym (length-set s.blocks w b)) v,
    )
