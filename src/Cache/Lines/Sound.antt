-- ===== src/Cache/Lines/Sound.antt =====
-- What a cache of cache.cc keeps when one of its sets is replaced.
use model_lib.Prelude.{
  Bool, ap, arith, get_or, get_or-replicate, get_or-set_ne, get_or-set_self, length,
  length-replicate, length-set, replicate, set, subst, sym, ℕ, ◌<◌, ◌∙◌, ◌≡◌, ◌≢◌, ◌⊎◌,
}
use native.Mathlib.Decide.{ℕ_discrete}
use model_lib.Cache.Block.{create, no_tag}
use model_lib.Cache.Address.{CacheBase, IsBase, split_address, set_index-lt}
use model_lib.Cache.Replacement.{Policy}
use model_lib.Cache.Set.{create_set, CacheSet, find}
use model_lib.Cache.Set.Lookup.{Unique}
use model_lib.Cache.Lines.{create_cache, Cache, no_set, set_at, with_set, peek_single_line, located}

-- A cache as its constructor makes it, in which no set holds a tag twice.
pub record IsCache (c : Cache) : Type 0 where
  pub sound : IsBase c.base
  pub some_set : 0 < c.base.num_sets
  pub all_sets : length c.sets ≡ c.base.num_sets
  pub unique : (i : ℕ) → i < length c.sets → Unique (set_at c i).blocks

-- The tag and the set of an address.
abbrev pub tag_of : Cache → ℕ → ℕ
tag_of c addr = (split_address c.base addr).0

abbrev pub set_of : Cache → ℕ → ℕ
set_of c addr = (split_address c.base addr).1

-- Another line: in another set, or of another tag; and no address at the end of the address space.
abbrev pub IsOther : Cache → ℕ → ℕ → Type 0
IsOther c addr a =
    (tag_of c a ≢ no_tag) × ((set_of c a ≢ set_of c addr) ⊎ (tag_of c a ≢ tag_of c addr))

pub set_of-lt : (c : Cache) (addr : ℕ) → IsCache c → set_of c addr < length c.sets
set_of-lt c addr v = omega (arith, set_index-lt c.base addr v.sound v.some_set, v.all_sets)

-- One set of the cache is replaced.
module _ (c : Cache) (addr : ℕ) (v : IsCache c) (s : CacheSet) where
  pub set_at_same : set_at (with_set c (set_of c addr) s) (set_of c addr) ≡ s
  unfolding with_set
  set_at_same = get_or-set_self c.sets (set_of c addr) s no_set (set_of-lt c addr v)

  pub set_at_ne : (i : ℕ) → i ≢ set_of c addr → set_at (with_set c (set_of c addr) s) i ≡ set_at c i
  unfolding with_set
  set_at_ne i ne = get_or-set_ne c.sets (set_of c addr) i s no_set (λ e. ne (sym e))

  pub with_set-IsCache : Unique s.blocks → IsCache (with_set c (set_of c addr) s)
  with_set-IsCache u = record {
    sound = unfold with_set in v.sound;
    some_set = unfold with_set in v.some_set;
    all_sets = unfold with_set in omega (arith, length-set c.sets (set_of c addr) s, v.all_sets);
    unique = λ i h. elim (ℕ_discrete i (set_of c addr)) [
      | yes e ↦ rw (e, set_at_same) u
      | no ne ↦
          rw (set_at_ne i ne)
            (v.unique i (unfold with_set in omega (arith, length-set c.sets (set_of c addr) s)))
    ];
  }

  -- An address whose set and tag keep their way in the set is found as before.
  pub peek_kept :
      (a : ℕ)
      → (set_of c a ≡ set_of c addr
          → find (tag_of c a) s.blocks ≡ find (tag_of c a) (set_at c (set_of c addr)).blocks)
      → peek_single_line (with_set c (set_of c addr) s) a ≡ peek_single_line c a
  unfolding peek_single_line with_set
  peek_kept a same = elim (ℕ_discrete (set_of c a) (set_of c addr)) [
    | yes e ↦
        ap
          (λ i.
            located (set_of c a)
              (find (tag_of c a) (get_or (set c.sets (set_of c addr) s) i no_set).blocks))
          e
        ∙ ap (λ (x : CacheSet). located (set_of c a) (find (tag_of c a) x.blocks)) self
        ∙ ap (located (set_of c a)) (same e)
        ∙ ap (λ i. located (set_of c a) (find (tag_of c a) (set_at c i).blocks)) (sym e)
    | no ne ↦
        ap (λ (x : CacheSet). located (set_of c a) (find (tag_of c a) x.blocks))
          (get_or-set_ne c.sets (set_of c addr) (set_of c a) s no_set (λ e. ne (sym e)))
  ]
    where
      self : get_or (set c.sets (set_of c addr) s) (set_of c addr) no_set ≡ s
      self = get_or-set_self c.sets (set_of c addr) s no_set (set_of-lt c addr v)

  -- The address itself is looked up in the new set.
  pub peek_same :
      peek_single_line (with_set c (set_of c addr) s) addr
      ≡ located (set_of c addr) (find (tag_of c addr) s.blocks)
  unfolding peek_single_line with_set
  peek_same =
      ap (λ (x : CacheSet). located (set_of c addr) (find (tag_of c addr) x.blocks))
        (get_or-set_self c.sets (set_of c addr) s no_set (set_of-lt c addr v))

fresh-Unique : (n : ℕ) → Unique (replicate n create)
fresh-Unique n i j hi hj held e =
    let fresh = get_or-replicate n i create create (omega (arith, length-replicate n create)) in
    absurd (ground (arith, fresh))

-- The constructor of a cache with sets makes such a cache, whatever its policy.
pub create_cache-IsCache :
    (base : CacheBase) (policy : Policy) (faults : Bool)
    → IsBase base
    → 0 < base.num_sets
    → IsCache (create_cache base policy faults)
unfolding create_cache create_set
create_cache-IsCache base policy faults b h =
    let s = create_set base.associativity base.blocksize policy faults in
    record {
      sound = b;
      some_set = h;
      all_sets = length-replicate base.num_sets s;
      unique = λ i l.
          let same =
            get_or-replicate base.num_sets i s no_set
              (omega (arith, length-replicate base.num_sets s)) in
          subst (λ (x : CacheSet). Unique x.blocks) (sym same) (fresh-Unique base.associativity);
    }
