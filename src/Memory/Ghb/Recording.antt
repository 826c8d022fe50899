-- ===== src/Memory/Ghb/Recording.antt =====
-- The update of the history and the table of ghb_prefetcher.cc.
use native.Mathlib.Nat.{mod-lt}
use model_lib.Prelude.{
  All, All-replicate, All-set, Bool, Bool-cases, List, Option-cases, [], arith, false,
  if◌then◌else◌, inl, inr, length, length-replicate, length-set, refl, replicate, set, some, subst,
  sym, true, ℕ, ◌%◌, ◌+◌, ◌-◌, ◌<◌, ◌==◌, ◌>>=◌, ◌^◌, ◌∙◌, ◌≡◌, ◌≢◌,
}
use model_lib.Memory.Ghb.{
  create_prefetcher, empty_entry, empty_table_entry, get_next_address, invalid_address, GhbEntry,
  GhbPrefetcher, invalid_delta, invalid_index, entry_of, with_entry, table_entry, update_table,
  previous_head, advance_head, record_delta,
}
use model_lib.Memory.Ghb.Bounds.{
  IsLink, PointsInto, InRange, some_elem, entry_of-lt, is_live_total, prefetches_total,
}

with_entry-InRange :
    (p : GhbPrefetcher) (d next : ℕ)
    → InRange p
    → IsLink (length p.ghb) next
    → InRange (with_entry p d next)
with_entry-InRange p d next v l =
    let e : GhbEntry = record { next_index = next; delta = d; generation = p.ghb_generation } in
    let size = length-set p.ghb p.ghb_head e in
    record {
      some_table = v.some_table;
      head = omega (arith, size, v.head);
      table_head = v.table_head;
      links =
          subst (λ n. All (λ (e : GhbEntry). IsLink n e.next_index) (set p.ghb p.ghb_head e))
            (sym size)
            (All-set (λ (e : GhbEntry). IsLink (length p.ghb) e.next_index) p.ghb p.ghb_head e
              v.links l);
      pointers = subst (λ n. All (PointsInto n) p.ghb_table) (sym size) v.pointers;
    }

with_table-InRange :
    (p : GhbPrefetcher) (i d head : ℕ)
    → InRange p
    → head < length p.ghb_table
    → InRange (record p { ghb_table = set p.ghb_table i (table_entry p d); table_head = head })
with_table-InRange p i d head v h =
    let size = length-set p.ghb_table i (table_entry p d) in
    record {
      some_table = omega (arith, size, v.some_table);
      head = v.head;
      table_head = omega (arith, size, h);
      links = v.links;
      pointers =
          All-set (PointsInto (length p.ghb)) p.ghb_table i (table_entry p d) v.pointers
            (inr v.head);
    }

IsLink-if : (n index : ℕ) (b : Bool) → index < n → IsLink n (if b then index else invalid_index)
IsLink-if n index true h = inl h
IsLink-if n index false h = inr refl

update_table-InRange :
    (p : GhbPrefetcher) (d prev : ℕ)
    → InRange p
    → prev ≢ invalid_delta
    → (q : GhbPrefetcher) × (update_table p d prev ≡ some q) × InRange q
update_table-InRange p d prev v ne = elim (Option-cases (entry_of prev p.ghb_table)) [
  | inl n ↦
      let next = mod-lt (p.table_head + 1) v.some_table in
      (
        record p {
          ghb_table = set p.ghb_table p.table_head (table_entry p prev);
          table_head = (p.table_head + 1) % length p.ghb_table;
        },
        rw (update_table, n) refl,
        with_table-InRange p p.table_head prev ((p.table_head + 1) % length p.ghb_table) v next,
      )
  | inr ((i, e), found) ↦
      let inside = entry_of-lt (length p.ghb) prev p.ghb_table (i, e) v.pointers ne found in
      let (b, live) = is_live_total p.ghb e inside in
      let p' = with_entry p d (if b then e.ghb_index else invalid_index) in
      let v' =
        with_entry-InRange p d (if b then e.ghb_index else invalid_index) v
          (IsLink-if (length p.ghb) e.ghb_index b inside) in
      (
        record p' { ghb_table = set p.ghb_table i (table_entry p prev) },
        rw (update_table, found, live) refl,
        with_table-InRange p' i prev p.table_head v' v.table_head,
      )
]

advance_head-InRange : (p : GhbPrefetcher) → InRange p → InRange (advance_head p)
advance_head-InRange p v = elim (Bool-cases (p.ghb_head + 1 == length p.ghb)) [
  | inl t ↦
      rw (advance_head, t)
        (record {
          some_table = v.some_table;
          head = omega (arith, v.head);
          table_head = v.table_head;
          links = v.links;
          pointers = v.pointers;
        })
  | inr f ↦
      rw (advance_head, f)
        (record {
          some_table = v.some_table;
          head = ground (arith, v.head, f);
          table_head = v.table_head;
          links = v.links;
          pointers = v.pointers;
        })
]

previous_head-lt : (p : GhbPrefetcher) → InRange p → previous_head p < length p.ghb
previous_head-lt p v = ground (arith, v.head)

record_delta-InRange :
    (p : GhbPrefetcher) (d : ℕ)
    → InRange p
    → (q : GhbPrefetcher) × (record_delta p d ≡ some q) × InRange q
record_delta-InRange p d v =
    let p' = with_entry p d invalid_index in
    let v' = with_entry-InRange p d invalid_index v (inr refl) in
    let (g, at) = some_elem p'.ghb (previous_head p') (previous_head-lt p' v') in
    let step : record_delta p d ≡ (do
      q ← elim (g.delta == invalid_delta) [ true ↦ some p' | false ↦ update_table p' d g.delta ]
      some (advance_head q)) =
      rw (record_delta, at) refl in
    elim (Bool-cases (g.delta == invalid_delta)) [
      | inl t ↦ (advance_head p', step ∙ rw t refl, advance_head-InRange p' v')
      | inr f ↦
          let (q, run, u) = update_table-InRange p' d g.delta v' (ground (arith, f)) in
          (advance_head q, step ∙ rw (f, run) refl, advance_head-InRange q u)
    ]

-- The constructor of a prefetcher with a history and a table starts in range.
pub create_prefetcher-InRange :
    (width depth ghb_size table_size : ℕ)
    → 0 < ghb_size
    → 0 < table_size
    → InRange (create_prefetcher width depth ghb_size table_size)
create_prefetcher-InRange width depth ghb_size table_size g t =
    let ghb_length = length-replicate ghb_size empty_entry in
    let table_length = length-replicate table_size empty_table_entry in
    record {
      some_table = omega (arith, table_length, t);
      head = omega (arith, ghb_length, g);
      table_head = omega (arith, table_length, t);
      links =
          All-replicate
            (λ (e : GhbEntry). IsLink (length (replicate ghb_size empty_entry)) e.next_index)
            ghb_size empty_entry (inr refl);
      pointers =
          All-replicate (PointsInto (length (replicate ghb_size empty_entry))) table_size
            empty_table_entry (inl refl);
    }

-- In a prefetcher whose indices are in range, a call of `getNextAddress` with an address that does
-- not differ from the last one by INT64_MAX reads no array outside of its bounds, so that it
-- returns, and leaves all indices in range.
pub get_next_address_total :
    (p : GhbPrefetcher) (addr : ℕ)
    → InRange p
    → (addr + (2 ^ 64 - p.last_address)) % 2 ^ 64 ≢ invalid_delta
    → (addresses : List ℕ) × (q : GhbPrefetcher) × (get_next_address p addr ≡ some (addresses, q))
      × InRange q
unfolding get_next_address
get_next_address_total p addr v ne =
    let moved = record p { last_address = addr } in
    let v' : InRange moved = record {
      some_table = v.some_table;
      head = v.head;
      table_head = v.table_head;
      links = v.links;
      pointers = v.pointers;
    } in
    let d = (addr + (2 ^ 64 - p.last_address)) % 2 ^ 64 in
    elim (Bool-cases (p.last_address == invalid_address)) [
      | inl t ↦ ([], moved, rw (get_next_address, t) refl, v')
      | inr f ↦
          let (out, list) = prefetches_total p d addr v ne in
          let (q, run, u) = record_delta-InRange moved d v' in
          (out, q, rw (get_next_address, f, list, run) refl, u)
    ]
