-- ===== src/Memory/Ghb/Bounds.antt =====
-- The history of ghb_prefetcher.cc is never read outside of its arrays.
use native.Mathlib.Nat.{mod-lt}
use model_lib.Prelude.{
  ==_iff, >>=-eq-some, All, All-get_elem?, Bool, Bool-cases, List, Option-cases, [], arith, false,
  get_elem?, if◌then◌else◌, inl, inr, length, ltb, none, refl, some, some_injective, subst, suc,
  sym, true, zero, ℕ, ◌%◌, ◌&&◌, ◌+◌, ◌<◌, ◌==◌, ◌^◌, ◌||◌, ◌∙◌, ◌∷◌, ◌≡◌, ◌≢◌, ◌⊎◌,
}
use model_lib.Memory.Ghb.{
  GhbEntry, TableEntry, GhbPrefetcher, invalid_delta, invalid_index, entry_of, stop_at, add_once,
  add_deltas, next_of, walk, is_live, prefetches,
}

-- An index into a history of `n` entries, or none.
abbrev pub IsLink : ℕ → ℕ → Type 0
IsLink n index = (index < n) ⊎ (index ≡ invalid_index)

-- A table entry in use points into the history.
abbrev pub PointsInto : ℕ → TableEntry → Type 0
PointsInto n e = (e.table_delta ≡ invalid_delta) ⊎ (e.ghb_index < n)

-- A prefetcher with a history and a table, whose indices are in range.
pub record InRange (p : GhbPrefetcher) : Type 0 where
  pub some_table : 0 < length p.ghb_table
  pub head : p.ghb_head < length p.ghb
  pub table_head : p.table_head < length p.ghb_table
  pub links : All (λ (e : GhbEntry). IsLink (length p.ghb) e.next_index) p.ghb
  pub pointers : All (PointsInto (length p.ghb)) p.ghb_table

pub some_elem {ℓ} :
    {A : Type ℓ} (xs : List A) (i : ℕ) → i < length xs → (x : A) × (get_elem? xs i ≡ some x)
some_elem [] i h = absurd (omega arith)
some_elem (x ∷ xs) zero h = (x, refl)
some_elem (x ∷ xs) (suc i) h = some_elem xs i (omega arith)

pub elem-lt {ℓ} :
    {A : Type ℓ} (xs : List A) (i : ℕ) (x : A) → get_elem? xs i ≡ some x → i < length xs
elem-lt [] i x e = cc
elem-lt (y ∷ xs) zero x e = omega arith
elem-lt (y ∷ xs) (suc i) x e = omega (arith, elem-lt xs i x e)

add_deltas_total :
    (n : ℕ) (ghb : List GhbEntry) (place addr : ℕ) (list : List ℕ)
    → 0 < length ghb
    → (out : List ℕ) × (add_deltas n ghb place addr list ≡ some out)
add_deltas_total zero ghb place addr list h = (list, refl)
add_deltas_total (suc n) ghb place addr list h =
    let (e, at) = some_elem ghb (place % 2 ^ 32 % length ghb) (mod-lt (place % 2 ^ 32) h) in
    let addr' = (addr + e.delta) % 2 ^ 64 in
    let step : add_deltas (suc n) ghb place addr list ≡ (elim (e.delta == invalid_delta) [
      | true ↦ some list
      | false ↦ add_deltas n ghb (place + 1) addr' (add_once list addr')
    ]) =
      rw (add_deltas, at) refl in
    elim (Bool-cases (e.delta == invalid_delta)) [
      | inl t ↦ (list, step ∙ rw t refl)
      | inr f ↦
          let (out, rest) = add_deltas_total n ghb (place + 1) addr' (add_once list addr') h in
          (out, step ∙ rw f rest)
    ]

next_of-IsLink : (n index next head : ℕ) → IsLink n next → IsLink n (next_of index next head)
next_of-IsLink n index next head h =
    elim (Bool-cases ((ltb index next || ltb head index) && ltb next head)) [
      | inl t ↦ rw (next_of, t) (inr refl)
      | inr f ↦ rw (next_of, f) h
    ]

walk_total :
    (n depth : ℕ) (ghb : List GhbEntry) (head index addr : ℕ) (list : List ℕ)
    → 0 < length ghb
    → All (λ (e : GhbEntry). IsLink (length ghb) e.next_index) ghb
    → IsLink (length ghb) index
    → (out : List ℕ) × (walk n depth ghb head index addr list ≡ some out)
walk_total zero depth ghb head index addr list h links l = (list, refl)
walk_total (suc n) depth ghb head index addr list h links l =
    elim (Bool-cases (index == invalid_index)) [
      | inl t ↦ (list, rw (walk, t) refl)
      | inr f ↦
          let inside : index < length ghb = ground arith in
          let (list', added) = add_deltas_total depth ghb index addr list h in
          let (e, at) = some_elem ghb index inside in
          let next = next_of-IsLink (length ghb) index e.next_index head (
            All-get_elem? (λ (e : GhbEntry). IsLink (length ghb) e.next_index) ghb index e links
              at) in
          let (out, rest) =
            walk_total n depth ghb head (next_of index e.next_index head) addr list' h links next in
          (out, rw (walk, f, added, at) rest)
    ]

-- The entry found for a difference is in the table.
pub entry_of-found :
    (d : ℕ) (table : List TableEntry) (r : ℕ × TableEntry)
    → entry_of d table ≡ some r
    → (get_elem? table r.0 ≡ some r.1) × (r.1.table_delta ≡ d)
entry_of-found d table r e =
    let (x, at, rest) =
      >>=-eq-some (get_elem? table (stop_at d table))
        (λ x. if x.table_delta == d then some (stop_at d table, x) else none) e in
    elim (Bool-cases (x.table_delta == d)) [
      | inl t ↦
          let same : (stop_at d table, x) ≡ r =
            some_injective (stop_at d table, x) r (ground (arith, t, rest)) in
          subst (λ (q : ℕ × TableEntry). (get_elem? table q.0 ≡ some q.1) × (q.1.table_delta ≡ d))
            same (at, (==_iff x.table_delta d).0 t)
      | inr f ↦ absurd (ground (arith, f, rest))
    ]

pub entry_of-lt :
    (n d : ℕ) (table : List TableEntry) (r : ℕ × TableEntry)
    → All (PointsInto n) table
    → d ≢ invalid_delta
    → entry_of d table ≡ some r
    → r.1.ghb_index < n
entry_of-lt n d table r a ne e =
    let (at, same) = entry_of-found d table r e in
    elim (All-get_elem? (PointsInto n) table r.0 r.1 a at) [
      | inl i ↦ absurd (ne (sym same ∙ i))
      | inr l ↦ l
    ]

pub is_live_total :
    (ghb : List GhbEntry) (e : TableEntry)
    → e.ghb_index < length ghb
    → (b : Bool) × (is_live ghb e ≡ some b)
is_live_total ghb e h =
    let (g, at) = some_elem ghb e.ghb_index h in
    (e.table_generation == g.generation, rw (is_live, at) refl)

pub prefetches_total :
    (p : GhbPrefetcher) (d addr : ℕ)
    → InRange p
    → d ≢ invalid_delta
    → (out : List ℕ) × (prefetches p d addr ≡ some out)
prefetches_total p d addr v ne = elim (Option-cases (entry_of d p.ghb_table)) [
  | inl n ↦ ([], rw (prefetches, n) refl)
  | inr ((i, e), found) ↦
      let inside = entry_of-lt (length p.ghb) d p.ghb_table (i, e) v.pointers ne found in
      let (b, live) = is_live_total p.ghb e inside in
      let (out, run) =
        walk_total p.width p.depth p.ghb p.ghb_head e.ghb_index addr [] (omega (arith, v.head))
          v.links (inl inside) in
      elim (Bool-cases b) [
        | inl t ↦ (out, rw (prefetches, found, live, t) run)
        | inr f ↦ ([], rw (prefetches, found, live, f) refl)
      ]
]
