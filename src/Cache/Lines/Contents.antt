-- ===== src/Cache/Lines/Contents.antt =====
-- The operations of cache.cc on single lines against the map from addresses to lines.
use model_lib.Prelude.{
  Bool, List, Option, Option-cases, ap, arith, inl, inr, none, refl, some, true, ℕ, ◌↔◌, ◌∙◌, ◌≡◌,
  ◌≢◌, ◌⊎◌,
}
use model_lib.Cache.Block.{Block, create, no_tag, set_tag}
use model_lib.Cache.Set.{Inserted, find, invalidate, insert}
use model_lib.Cache.Set.Contents.{insert_lem, invalidate_lem}
use model_lib.Cache.Lines.{
  access_single_line, load, Cache, LineInserted, set_at, with_set, invalidate_single_line,
  insert_single_line, peek_single_line, located,
}
use model_lib.Cache.Lines.Sound.{
  IsCache, tag_of, set_of, IsOther, set_of-lt, with_set-IsCache, peek_kept, peek_same,
}

-- A line is found nowhere exactly if its way is.
located-none : (i : ℕ) (o : Option ℕ) → (located i o ≡ none) ↔ (o ≡ none)
unfolding located
located-none i none = (λ e. refl, λ e. refl)
located-none i (some w) = (λ e. absurd (ground arith), λ e. absurd (ground arith))

pub peek-none :
    (c : Cache) (addr : ℕ)
    → (peek_single_line c addr ≡ none)
      ↔ (find (tag_of c addr) (set_at c (set_of c addr)).blocks ≡ none)
unfolding peek_single_line
peek-none c addr =
    located-none (set_of c addr) (find (tag_of c addr) (set_at c (set_of c addr)).blocks)

-- A load of a line that is not there changes nothing.
pub access_single_line_missed :
    (c : Cache) (addr : ℕ)
    → peek_single_line c addr ≡ none
    → access_single_line c addr load none 0 true
      ≡ some (record { line = none; buff = none; cache = c })
unfolding access_single_line
access_single_line_missed c addr n = rw (access_single_line, (peek-none c addr).0 n) refl

-- The call of `insert` in the line's set.
inserted_in_set :
    (fuel : ℕ) (c : Cache) (addr : ℕ) (fill : Option (List ℕ)) (eb : Block)
    (ebuff : Option (List ℕ)) (r : LineInserted)
    → insert_single_line fuel c addr fill eb ebuff ≡ some r
    → (q : Inserted) × (insert fuel
          (set_tag create (tag_of c addr))
          fill
          eb
          ebuff
          (set_at c (set_of c addr))
        ≡ some q)
      × (r.cache ≡ with_set c (set_of c addr) q.after)
      × (r.eviction ≡ q.eviction)
      × (r.evict_block ≡ q.evict_block)
unfolding insert_single_line
inserted_in_set fuel c addr fill eb ebuff r e =
    elim (Option-cases
      (insert fuel (set_tag create (tag_of c addr)) fill eb ebuff (set_at c (set_of c addr)))) [
        | inl n ↦ absurd (ground arith)
        | inr (q, f) ↦ (q, f, (ground arith), (ground arith), (ground arith))
      ]

-- After a successful `insertSingleLine` into a sound cache of a line that was not there it is found
-- in its set, and the cache is still sound. Every other line that was not evicted is found where it
-- was.
pub insert_single_line_lem :
    (fuel : ℕ) (c : Cache) (addr : ℕ) (fill : Option (List ℕ)) (eb : Block)
    (ebuff : Option (List ℕ)) (r : LineInserted)
    → insert_single_line fuel c addr fill eb ebuff ≡ some r
    → IsCache c
    → tag_of c addr ≢ no_tag
    → peek_single_line c addr ≡ none
    → IsCache r.cache
      × ((w : ℕ) × (peek_single_line r.cache addr ≡ some (set_of c addr, w)))
      × ((a : ℕ)
          → IsOther c addr a
          → (r.eviction ≡ true → (set_of c a ≢ set_of c addr) ⊎ (tag_of c a ≢ r.evict_block.tag))
          → peek_single_line r.cache a ≡ peek_single_line c a)
insert_single_line_lem fuel c addr fill eb ebuff r e v t n =
    let (q, f, cache, evicts, old) = inserted_in_set fuel c addr fill eb ebuff r e in
    let was : find (tag_of c addr) (set_at c (set_of c addr)).blocks ≡ none =
      (peek-none c addr).0 n in
    let u = v.unique (set_of c addr) (set_of-lt c addr v) in
    let (found, u', gone, kept) =
      insert_lem fuel (set_tag create (tag_of c addr)) fill eb ebuff (set_at c (set_of c addr)) q f
        u t was in
    rw cache (
      with_set-IsCache c addr v q.after u',
      (
        q.way,
        peek_same c addr v q.after ∙ ap (located (set_of c addr)) found ∙ unfold located in refl,
      ),
      λ a o d. peek_kept c addr v q.after a λ same.
          kept (tag_of c a) o.0 (ground (arith, o)) (λ h. ground (arith, o, d, evicts, old)),
    )

invalidate_single_line-runs :
    (c : Cache) (addr : ℕ)
    → IsCache c
    → let r = invalidate (tag_of c addr) (set_at c (set_of c addr)) in
      invalidate_single_line c addr ≡ some (r.0, with_set c (set_of c addr) r.1)
unfolding invalidate_single_line
invalidate_single_line-runs c addr v = ground (arith, set_of-lt c addr v)

-- On a sound cache `invalidateSingleLine` always returns. Afterwards the cache is sound, the line
-- is not found and every other line is found where it was; it reports whether the line was there.
pub invalidate_single_line_lem :
    (c : Cache) (addr : ℕ)
    → IsCache c
    → tag_of c addr ≢ no_tag
    → (present : Bool) × (c' : Cache) × (invalidate_single_line c addr ≡ some (present, c'))
      × IsCache c'
      × (peek_single_line c' addr ≡ none)
      × ((present ≡ true) ↔ (peek_single_line c addr ≢ none))
      × ((a : ℕ) → IsOther c addr a → peek_single_line c' a ≡ peek_single_line c a)
invalidate_single_line_lem c addr v t =
    let s = set_at c (set_of c addr) in
    let u = v.unique (set_of c addr) (set_of-lt c addr v) in
    let (gone, u', kept, there) = invalidate_lem (tag_of c addr) s u t in
    let s' = (invalidate (tag_of c addr) s).1 in
    (
      (invalidate (tag_of c addr) s).0,
      with_set c (set_of c addr) s',
      invalidate_single_line-runs c addr v,
      with_set-IsCache c addr v s' u',
      peek_same c addr v s'
          ∙ (located-none (set_of c addr) (find (tag_of c addr) s'.blocks)).1 gone,
      (λ p q. there.0 p ((peek-none c addr).0 q), λ p. there.1 λ q. p ((peek-none c addr).1 q)),
      λ a o. peek_kept c addr v s' a λ same. kept (tag_of c a) o.0 (ground (arith, o)),
    )
