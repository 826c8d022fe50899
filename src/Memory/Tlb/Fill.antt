-- ===== src/Memory/Tlb/Fill.antt =====
-- What a miss of a translation buffer leaves in it.
use model_lib.Prelude.{
  Bool, [], false, none, refl, some, true, ℕ, ◌%◌, ◌+◌, ◌<◌, ◌^◌, ◌∷◌, ◌≡◌, ◌≢◌, ◌⊎◌,
}
use model_lib.Cache.Block.{create, no_tag}
use model_lib.Cache.Set.Total.{Takes}
use model_lib.Cache.Lines.{LineInserted, set_at, insert_single_line, peek_single_line}
use model_lib.Cache.Lines.Sound.{IsCache, IsOther, tag_of, set_of}
use model_lib.Cache.Lines.Contents.{insert_single_line_lem, access_single_line_missed}
use model_lib.Cache.Lines.Total.{insert_single_line_total}
use model_lib.Memory.Tlb.{Tlb, allocate_page, lookup_page}

last_level :
    (fuel addr : ℕ) (b : Bool)
    → (elim b [ true ↦ allocate_page fuel [] addr | false ↦ some [] ]) ≡ some []
unfolding allocate_page
last_level fuel addr true = refl
last_level fuel addr false = refl

-- `allocate_page` at the last level is one insertion.
allocate_last :
    (fuel : ℕ) (t : Tlb) (addr : ℕ) (r : LineInserted)
    → insert_single_line fuel t.cache addr none create none ≡ some r
    → allocate_page fuel (t ∷ []) addr ≡ some (record t { cache = r.cache } ∷ [])
unfolding allocate_page
allocate_last fuel t addr r e =
    let last : (elim r.eviction [ true ↦ allocate_page fuel [] addr | false ↦ some [] ]) ≡ some [] =
      unfold allocate_page in last_level fuel addr r.eviction in
    rw (e, last) refl

-- A look-up that may allocate, of a page that the last level does not hold, in a sound cache
-- whose set for the page has replaceable lines and a policy that is ready: it returns a miss, the
-- page is there afterwards, the cache is sound, the access and the miss are counted, and every
-- other page that was not evicted is where it was.
pub miss_fills :
    (fuel : ℕ) (t : Tlb) (addr : ℕ)
    → 0 < fuel
    → IsCache t.cache
    → Takes (set_at t.cache (set_of t.cache addr))
    → tag_of t.cache addr ≢ no_tag
    → peek_single_line t.cache addr ≡ none
    → (t' : Tlb) × (r : LineInserted) × (lookup_page fuel (t ∷ []) addr true
        ≡ some (false, t' ∷ []))
      × (insert_single_line fuel t.cache addr none create none ≡ some r)
      × IsCache t'.cache
      × (peek_single_line t'.cache addr ≢ none)
      × (t'.access ≡ (t.access + 1) % 2 ^ 64)
      × (t'.miss ≡ (t.miss + 1) % 2 ^ 64)
      × ((a : ℕ)
          → IsOther t.cache addr a
          → (r.eviction ≡ true
              → (set_of t.cache a ≢ set_of t.cache addr) ⊎ (tag_of t.cache a ≢ r.evict_block.tag))
          → peek_single_line t'.cache a ≡ peek_single_line t.cache a)
unfolding lookup_page
miss_fills fuel t addr h v takes tag n =
    let (r, run, ready) = insert_single_line_total fuel t.cache addr none create none h v takes in
    let (sound, there, kept) =
      insert_single_line_lem fuel t.cache addr none create none r run v tag n in
    let missed = record t { access = (t.access + 1) % 2 ^ 64; miss = (t.miss + 1) % 2 ^ 64 } in
    (
      record missed { cache = r.cache },
      r,
      rw (access_single_line_missed t.cache addr n, allocate_last fuel missed addr r run) refl,
      run,
      sound,
      (λ e. cc),
      refl,
      refl,
      kept,
    )
