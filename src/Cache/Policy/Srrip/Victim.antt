-- ===== src/Cache/Policy/Srrip/Victim.antt =====
-- Which way `CacheSetSRRIP::getReplacementIndex` chooses.
use model_lib.Prelude.{
  All, All-get_or, List, Option-cases, [], arith, false, get_or, get_or-map, inl, inr, length,
  length-map, length-set, none, set, some, suc, true, zero, ℕ, ◌%◌, ◌+◌, ◌<◌, ◌∷◌, ◌≡◌, ◌≢◌, ◌≤◌,
}
use model_lib.Cache.Block.{Block, create, is_valid_replacement}
use model_lib.Cache.Policy.Ways.{
  first_invalid, first_invalid-some, search_round, found, missing, search_round_found,
  search_round_missing, Search-cases,
}
use model_lib.Cache.Policy.Srrip.{
  Srrip, incremented, distant, rounds, get_replacement_index, Inv, All-set,
}

-- No counter at its maximum: an increment keeps them all within their width.
All-incremented :
    (top : ℕ) (bits : List ℕ)
    → top < 256
    → All (λ b. b ≤ top) bits
    → ((w : ℕ) → w < length bits → get_or bits w 0 ≢ top)
    → All (λ b. b ≤ top) (incremented bits)
All-incremented top [] h a ne = tt
All-incremented top (b ∷ bs) h a ne = (
  omega (arith, ne 0 (omega arith)),
  All-incremented top bs h a.1 (λ w p. ne (suc w) (omega arith)),
)

-- What the rounds come to: a way of the set, at least as distant as any other at the start, and a
-- state that satisfies the invariant.
record Distant (blocks : List Block) (s : Srrip) (w : ℕ) (s' : Srrip) : Type 0 where
  pub inside : w < length blocks
  pub greatest : (i : ℕ) → i < length blocks → get_or s.bits i 0 ≤ get_or s.bits w 0
  pub kept : Inv (length blocks) s'

module _ (blocks : List Block) (small : length blocks ≤ 256)
    (ok : All (λ b. is_valid_replacement b ≡ true) blocks) where
  found_Distant :
      (s : Srrip) (w p : ℕ)
      → Inv (length blocks) s
      → search_round (distant s) (length blocks) (length blocks) s.pointer ≡ found w p
      → Distant blocks s w (record s { bits = set s.bits w s.rrip_insert; pointer = p })
  unfolding distant
  found_Distant s w p v e =
      let (i, q, t) =
        search_round_found (distant s) (length blocks) small s.pointer w p v.pointer_in e in
      let top : get_or s.bits w 0 ≡ s.rrip_max = ground arith in
      record {
        inside = i;
        greatest = λ j h. omega (
          arith,
          top,
          All-get_or (λ b. b ≤ s.rrip_max) s.bits j 0 v.counters (omega (arith, v.ways)),
        );
        kept = record {
          ways = omega (arith, length-set s.bits w s.rrip_insert, v.ways);
          pointer_in = q;
          narrow = v.narrow;
          insert_le = v.insert_le;
          counters = All-set s.rrip_max s.bits w s.rrip_insert v.insert_le v.counters;
        };
      }

  missing_Inv :
      (s : Srrip) (p : ℕ)
      → Inv (length blocks) s
      → search_round (distant s) (length blocks) (length blocks) s.pointer ≡ missing p
      → Inv (length blocks) (record s { bits = incremented s.bits; pointer = p })
        × ((i : ℕ) → i < length blocks → get_or (incremented s.bits) i 0 ≡ get_or s.bits i 0 + 1)
  unfolding distant
  missing_Inv s p v e = (kept, counted)
    where
      m : (p < length blocks) × ((w : ℕ) → w < length blocks → distant s w ≡ false)
      m = search_round_missing (distant s) (length blocks) small s.pointer p v.pointer_in e

      below : (w : ℕ) → w < length s.bits → get_or s.bits w 0 ≢ s.rrip_max
      below w h = let f = m.1 w (omega (arith, v.ways)) in ground arith

      kept : Inv (length blocks) (record s { bits = incremented s.bits; pointer = p })
      kept = record {
        ways = omega (arith, length-map {B = ℕ} (λ b. (b + 1) % 256) s.bits, v.ways);
        pointer_in = m.0;
        narrow = v.narrow;
        insert_le = v.insert_le;
        counters = All-incremented s.rrip_max s.bits v.narrow v.counters below;
      }

      counted :
          (i : ℕ) → i < length blocks → get_or (incremented s.bits) i 0 ≡ get_or s.bits i 0 + 1
      counted i h =
          let inside : i < length s.bits = omega (arith, v.ways) in
          omega (
            arith,
            get_or-map {B = ℕ} (λ b. (b + 1) % 256) s.bits i 0 0 inside,
            All-get_or (λ b. b ≤ s.rrip_max) s.bits i 0 v.counters inside,
            v.narrow,
            below i inside,
          )

  rounds_total :
      (n j : ℕ) (s : Srrip)
      → Inv (length blocks) s
      → j < length blocks
      → s.rrip_max < n + get_or s.bits j 0
      → (w : ℕ) × (s' : Srrip) × (rounds blocks n s ≡ some (w, s')) × Distant blocks s w s'
  unfolding rounds
  rounds_total zero j s v h l = absurd (
      omega (arith, All-get_or (λ b. b ≤ s.rrip_max) s.bits j 0 v.counters (omega (arith, v.ways))))
  rounds_total (suc n) j s v h l =
      elim (Search-cases (search_round (distant s) (length blocks) (length blocks) s.pointer)) [
        | inl (w, p, e) ↦
            let d = found_Distant s w p v e in
            let r = All-get_or _ blocks w create ok d.inside in (w, _, rw (e, rounds, r), d)
        | inr (p, e) ↦
            let (kept, counted) = missing_Inv s p v e in
            let (w, s', q, d) =
              rounds_total n j (record s { bits = incremented s.bits; pointer = p }) kept h
                (omega (arith, counted j h)) in
            (
              w,
              s',
              rw (e, rounds) q,
              record {
                inside = d.inside;
                greatest = λ i b. omega (arith, d.greatest i b, counted i b, counted w d.inside);
                kept = d.kept;
              },
            )
      ]

  -- In a full set of 1 to 256 replaceable ways, with counters within their width, the policy always
  -- finds a victim: a way whose counter is the greatest of all. The invariant is kept.
  pub victim_distant :
      (s : Srrip)
      → 0 < length blocks
      → Inv (length blocks) s
      → first_invalid blocks 0 ≡ none
      → (w : ℕ) × (s' : Srrip) × (get_replacement_index blocks s ≡ some (w, s'))
        × (w < length blocks)
        × ((i : ℕ) → i < length blocks → get_or s.bits i 0 ≤ get_or s.bits w 0)
        × Inv (length blocks) s'
  unfolding get_replacement_index
  victim_distant s h v f =
      let (w, s', e, d) = rounds_total (s.rrip_max + 1) 0 s v h (omega arith) in
      (w, s', rw (f, get_replacement_index) e, d.inside, d.greatest, d.kept)

  -- A free way is taken first; its counter is set as for any new line.
  pub victim_some :
      (s : Srrip)
      → 0 < length blocks
      → Inv (length blocks) s
      → (w : ℕ) × (s' : Srrip) × (get_replacement_index blocks s ≡ some (w, s'))
        × (w < length blocks)
        × Inv (length blocks) s'
  unfolding get_replacement_index
  victim_some s h v = elim (Option-cases (first_invalid blocks 0)) [
    | inl f ↦ let (w, s', e, i, _, v') = victim_distant s h v f in (w, s', e, i, v')
    | inr (k, f) ↦ (
      k,
      record s { bits = set s.bits k s.rrip_insert },
      ground arith,
      (first_invalid-some blocks k f).0,
      record {
        ways = omega (arith, length-set s.bits k s.rrip_insert, v.ways);
        pointer_in = v.pointer_in;
        narrow = v.narrow;
        insert_le = v.insert_le;
        counters = All-set s.rrip_max s.bits k s.rrip_insert v.insert_le v.counters;
      },
    )
  ]
