-- ===== src/Cache/Set/Contents.antt =====
-- `insert` and `invalidate` of cache_set.cc against the map from tags to lines.
use model_lib.Prelude.{
  Bool-cases, List, Option, Option-cases, ap, arith, false, get_or-set_ne, get_or-set_self, inl,
  inr, length, length-set, none, refl, set, some, sym, true, ℕ, ◌<◌, ◌↔◌, ◌∙◌, ◌≡◌, ◌≢◌, ◌⊎◌,
}
use native.Mathlib.Decide.{ℕ_discrete}
use model_lib.Cache.Block.{Block, create, is_valid, no_tag, invalidate_block, block_at}
use model_lib.Cache.Set.{CacheSet, Inserted, find, invalidate, insert}
use model_lib.Cache.Set.Lookup.{Unique, find-some, find-none, find_at, find_nowhere}

-- Way `w` of a set is overwritten by the line `b`.
module _ (blocks : List Block) (w : ℕ) (b : Block) (inside : w < length blocks) where
  after_self : block_at (set blocks w b) w ≡ b
  after_self = get_or-set_self blocks w b create inside

  after_ne : (i : ℕ) → i ≢ w → block_at (set blocks w b) i ≡ block_at blocks i
  after_ne i ne = get_or-set_ne blocks w i b create (λ e. ne (sym e))

  -- Every tag but those of the old and the new line keeps its way.
  find_other :
      (t : ℕ)
      → Unique blocks
      → Unique (set blocks w b)
      → t ≢ no_tag
      → t ≢ b.tag
      → t ≢ (block_at blocks w).tag
      → find t (set blocks w b) ≡ find t blocks
  find_other t u u' v nb old = elim (Option-cases (find t blocks)) [
    | inl n ↦ find_nowhere t (set blocks w b) (gone n) ∙ sym n
    | inr (k, s) ↦
        let (i, f) = find-some t blocks k s in
        let ne : k ≢ w = λ e. old (sym f ∙ ap (λ x. (block_at blocks x).tag) e) in
        find_at t (set blocks w b) k u' v (omega (arith, length-set blocks w b))
          (ap (λ (x : Block). x.tag) (after_ne k ne) ∙ f)
        ∙ sym s
  ]
    where
      gone :
          find t blocks ≡ none
          → (i : ℕ) → i < length (set blocks w b)
          → (block_at (set blocks w b) i).tag ≢ t
      gone n i h e = elim (ℕ_discrete i w) [
        | yes p ↦ nb (
            sym e
            ∙ ap (λ x. (block_at (set blocks w b) x).tag) p
            ∙ ap (λ (x : Block). x.tag) after_self)
        | no p ↦
            find-none t blocks i n (omega (arith, length-set blocks w b))
              (ap (λ (x : Block). x.tag) (sym (after_ne i p)) ∙ e)
      ]

  -- What the new line needs: a tag that stands nowhere else, or none at all.
  abbrev pub IsNew : Type 0
  IsNew = (i : ℕ) → i < length blocks → i ≢ w → is_valid b ≡ true → (block_at blocks i).tag ≢ b.tag

  overwritten-Unique : Unique blocks → IsNew → Unique (set blocks w b)
  overwritten-Unique u new i j hi hj v e = cases (ℕ_discrete i w) (ℕ_discrete j w)
    where
      li : i < length blocks
      li = omega (arith, length-set blocks w b)

      lj : j < length blocks
      lj = omega (arith, length-set blocks w b)

      cases : Dec (i ≡ w) → Dec (j ≡ w) → i ≡ j
      cases (yes p) (yes q) = p ∙ sym q
      cases (yes p) (no q) =
          absurd
            (new j lj q (ground (arith, after_self)) (ground (arith, after_self, after_ne j q)))
      cases (no p) (yes q) = absurd (
          new i li p (ground (arith, after_self, after_ne i p))
            (ground (arith, after_self, after_ne i p)))
      cases (no p) (no q) =
          u i j li lj (ground (arith, after_ne i p)) (ground (arith, after_ne i p, after_ne j q))

  -- The old line's tag is nowhere any more.
  old_gone :
      (t : ℕ)
      → Unique blocks
      → (block_at blocks w).tag ≡ t
      → t ≢ no_tag
      → b.tag ≢ t
      → find t (set blocks w b) ≡ none
  old_gone t u e v ne =
      find_nowhere t (set blocks w b)
        λ i h f. cases i (omega (arith, length-set blocks w b)) f (ℕ_discrete i w)
    where
      cases : (i : ℕ) → i < length blocks → (block_at (set blocks w b) i).tag ≡ t → Dec (i ≡ w) → ⊥
      cases i h f (yes p) = ne (ground (arith, after_self))
      cases i h f (no p) = p (sym (u w i inside h (ground arith) (ground (arith, after_ne i p))))

-- In a set with unique tags `invalidate` reports whether the tag was there. Afterwards it is nowhere,
-- every other tag keeps its way, and tags are still unique.
pub invalidate_lem :
    (tag : ℕ) (s : CacheSet)
    → Unique s.blocks
    → tag ≢ no_tag
    → let (present, s') = invalidate tag s in
      (find tag s'.blocks ≡ none)
      × Unique s'.blocks
      × ((t : ℕ) → t ≢ no_tag → t ≢ tag → find t s'.blocks ≡ find t s.blocks)
      × ((present ≡ true) ↔ (find tag s.blocks ≢ none))
unfolding invalidate
invalidate_lem tag s u v = elim (Option-cases (find tag s.blocks)) [
  | inl n ↦ rw (n, invalidate) (n, u, λ t a b. refl, (λ e. cc, λ e. absurd (e refl)))
  | inr (w, f) ↦ rw (f, invalidate) (removed w f)
]
  where
    removed :
        (w : ℕ)
        → find tag s.blocks ≡ some w
        → let blocks = set s.blocks w (invalidate_block (block_at s.blocks w)) in
          (find tag blocks ≡ none)
          × Unique blocks
          × ((t : ℕ) → t ≢ no_tag → t ≢ tag → find t blocks ≡ find t s.blocks)
          × ((true ≡ true) ↔ (some w ≢ none))
    removed w f =
        let (i, e) = find-some tag s.blocks w f in
        let b = invalidate_block (block_at s.blocks w) in
        let u' = overwritten-Unique s.blocks w b i u (λ j h n x. absurd (ground arith)) in
        (
          old_gone s.blocks w b i tag u e v (λ q. v (sym q)),
          u',
          λ t a n. find_other s.blocks w b i t u u' a a (λ q. n (q ∙ e)),
          (λ _. λ q. cc, λ _. refl),
        )

insert-fields :
    (fuel : ℕ) (b : Block) (fill : Option (List ℕ)) (eb : Block) (ebuff : Option (List ℕ))
    (s : CacheSet) (r : Inserted)
    → insert fuel b fill eb ebuff s ≡ some r
    → (r.way < length s.blocks)
      × (r.after.blocks ≡ set s.blocks r.way b)
      × (r.eviction ≡ is_valid (block_at s.blocks r.way))
      × (r.eviction ≡ true → r.evict_block ≡ block_at s.blocks r.way)
unfolding insert
insert-fields fuel b fill eb ebuff s r e = ground arith

-- What a successful `insert` does to a set with unique tags, for a tag that was not there: it is
-- found at the way returned and tags stay unique. Without an eviction every other tag keeps its
-- way. With one, the evicted line stood at that way, its tag is nowhere any more, and every other
-- tag keeps its way.
pub insert_lem :
    (fuel : ℕ) (b : Block) (fill : Option (List ℕ)) (eb : Block) (ebuff : Option (List ℕ))
    (s : CacheSet) (r : Inserted)
    → insert fuel b fill eb ebuff s ≡ some r
    → Unique s.blocks
    → b.tag ≢ no_tag
    → find b.tag s.blocks ≡ none
    → (find b.tag r.after.blocks ≡ some r.way)
      × Unique r.after.blocks
      × (r.eviction ≡ true
          → (find r.evict_block.tag s.blocks ≡ some r.way)
            × (find r.evict_block.tag r.after.blocks ≡ none))
      × ((t : ℕ)
          → t ≢ no_tag
          → t ≢ b.tag
          → (r.eviction ≡ true → t ≢ r.evict_block.tag)
          → find t r.after.blocks ≡ find t s.blocks)
insert_lem fuel b fill eb ebuff s r e u v n =
    let (i, blocks, evicts, old) = insert-fields fuel b fill eb ebuff s r e in
    let new : IsNew s.blocks r.way b i = λ j h q x. find-none b.tag s.blocks j n h in
    let u' : Unique (set s.blocks r.way b) = overwritten-Unique s.blocks r.way b i u new in
    let at : block_at (set s.blocks r.way b) r.way ≡ b = after_self s.blocks r.way b i in
    rw blocks (
      find_at b.tag (set s.blocks r.way b) r.way u' v (omega (arith, length-set s.blocks r.way b))
          (ap (λ (x : Block). x.tag) at),
      u',
      λ h.
          let was : r.evict_block ≡ block_at s.blocks r.way = old h in
          let held : is_valid (block_at s.blocks r.way) ≡ true = sym evicts ∙ h in
          let tagged : (block_at s.blocks r.way).tag ≢ no_tag = ground arith in
          let other : b.tag ≢ (block_at s.blocks r.way).tag =
            λ q. find-none b.tag s.blocks r.way n i (sym q) in
          rw was (
            find_at (block_at s.blocks r.way).tag s.blocks r.way u tagged i refl,
            old_gone s.blocks r.way b i (block_at s.blocks r.way).tag u refl tagged other,
          ),
      λ t a c d. find_other s.blocks r.way b i t u u' a c (others t a d (Bool-cases r.eviction)),
    )
  where
    others :
        (t : ℕ)
        → t ≢ no_tag
        → (r.eviction ≡ true → t ≢ r.evict_block.tag)
        → (r.eviction ≡ true) ⊎ (r.eviction ≡ false)
        → t ≢ (block_at s.blocks r.way).tag
    others t a d (inl h) =
        let f = insert-fields fuel b fill eb ebuff s r e in
        λ q. d h (q ∙ ap (λ (x : Block). x.tag) (sym (f.3 h)))
    others t a d (inr h) =
        let f = insert-fields fuel b fill eb ebuff s r e in λ q. a (ground (arith, f.2))
