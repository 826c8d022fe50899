-- ===== src/Memory/Ghb.antt =====
-- parametric_dram_directory_msi/ghb_prefetcher.h and ghb_prefetcher.cc: a prefetcher with a circular
-- history of the differences between addresses. `none` stands for an access outside of an array.
pub mod Bounds
pub mod Recording
mod Tests
use model_lib.Prelude.{
  Bool, List, Option, [], false, get_elem?, if◌then◌else◌, length, ltb, none, replicate, set, some,
  suc, true, zero, ℕ, ◌%◌, ◌&&◌, ◌++◌, ◌+◌, ◌-◌, ◌==◌, ◌>>=◌, ◌>>◌, ◌^◌, ◌||◌, ◌∷◌,
}

-- `GHBEntry`
pub record GhbEntry : Type 0 where
  pub next_index : ℕ
  pub delta : ℕ
  pub generation : ℕ

-- `TableEntry`
pub record TableEntry : Type 0 where
  pub ghb_index : ℕ
  pub table_delta : ℕ
  pub table_generation : ℕ

abbrev pub invalid_delta : ℕ
invalid_delta = 2 ^ 63 - 1

abbrev pub invalid_index : ℕ
invalid_index = 2 ^ 32 - 1

abbrev pub invalid_address : ℕ
invalid_address = 2 ^ 64 - 1

-- `m_ghbSize` and `m_tableSize` are the lengths of `m_ghb` and `m_ghbTable`.
pub record GhbPrefetcher : Type 0 where
  pub width : ℕ
  pub depth : ℕ
  pub last_address : ℕ
  pub ghb_head : ℕ
  pub ghb_generation : ℕ
  pub ghb : List GhbEntry
  pub table_head : ℕ
  pub ghb_table : List TableEntry

abbrev pub empty_entry : GhbEntry
empty_entry = record { next_index = invalid_index; delta = invalid_delta; generation = 0 }

abbrev pub empty_table_entry : TableEntry
empty_table_entry = record {
  ghb_index = invalid_index;
  table_delta = invalid_delta;
  table_generation = 0;
}

abbrev pub create_prefetcher : ℕ → ℕ → ℕ → ℕ → GhbPrefetcher
create_prefetcher width depth ghb_size table_size = record {
  width = width;
  depth = depth;
  last_address = invalid_address;
  ghb_head = 0;
  ghb_generation = 0;
  ghb = replicate ghb_size empty_entry;
  table_head = 0;
  ghb_table = replicate table_size empty_table_entry;
}

-- The loops over the table: where they stop.
abbrev pub stop_at : ℕ → List TableEntry → ℕ
stop_at d [] = 0
stop_at d (e ∷ es) =
    let rest = suc (stop_at d es) in
    if e.table_delta == invalid_delta then 0 else if e.table_delta == d then 0 else rest

-- The place and the entry of a difference, if the loop stopped at it.
abbrev pub entry_of : ℕ → List TableEntry → Option (ℕ × TableEntry)
entry_of d table = do
  e ← get_elem? table (stop_at d table)
  if e.table_delta == d then some (stop_at d table, e) else none

abbrev pub is_in : ℕ → List ℕ → Bool
is_in a [] = false
is_in a (x ∷ xs) = let rest = is_in a xs in if x == a then true else rest

abbrev pub add_once : List ℕ → ℕ → List ℕ
add_once xs a = if is_in a xs then xs else xs ++ (a ∷ [])

-- The loop over the depth: `place` is `ghbIndex + depth`, and `n` what is left of the depth.
abbrev pub add_deltas : ℕ → List GhbEntry → ℕ → ℕ → List ℕ → Option (List ℕ)
add_deltas zero ghb place addr list = some list
add_deltas (suc n) ghb place addr list = do
  e ← get_elem? ghb (place % 2 ^ 32 % length ghb)
  let addr' = (addr + e.delta) % 2 ^ 64
  elim (e.delta == invalid_delta) [
    | true ↦ some list
    | false ↦ add_deltas n ghb (place + 1) addr' (add_once list addr')
  ]

-- The next entry of the list, unless it was overwritten.
abbrev pub next_of : ℕ → ℕ → ℕ → ℕ
next_of index next head =
    if (ltb index next || ltb head index) && ltb next head then invalid_index else next

-- The loop over the width.
abbrev pub walk : ℕ → ℕ → List GhbEntry → ℕ → ℕ → ℕ → List ℕ → Option (List ℕ)
walk zero depth ghb head index addr list = some list
walk (suc n) depth ghb head index addr list = elim (index == invalid_index) [
  | true ↦ some list
  | false ↦ do
    list' ← add_deltas depth ghb index addr list
    e ← get_elem? ghb index
    walk n depth ghb head (next_of index e.next_index head) addr list'
]

-- Whether a table entry points to the generation of the history that is there.
abbrev pub is_live : List GhbEntry → TableEntry → Option Bool
is_live ghb e = do g ← get_elem? ghb e.ghb_index; some (e.table_generation == g.generation)

abbrev pub prefetches : GhbPrefetcher → ℕ → ℕ → Option (List ℕ)
prefetches p d addr = elim (entry_of d p.ghb_table) [
  | none ↦ some []
  | some (i, e) ↦ do
    live ← is_live p.ghb e
    if live then walk p.width p.depth p.ghb p.ghb_head e.ghb_index addr [] else some []
]

-- The new entry of the history, with the index of the next one.
abbrev pub with_entry : GhbPrefetcher → ℕ → ℕ → GhbPrefetcher
with_entry p d next = record p {
  ghb =
      set p.ghb p.ghb_head (record { next_index = next; delta = d; generation = p.ghb_generation });
}

-- The table entry for `d` that points to the head.
abbrev pub table_entry : GhbPrefetcher → ℕ → TableEntry
table_entry p d = record {
  ghb_index = p.ghb_head;
  table_delta = d;
  table_generation = p.ghb_generation;
}

-- The update of the table for the difference before `d`; the head has no next entry yet.
abbrev pub update_table : GhbPrefetcher → ℕ → ℕ → Option GhbPrefetcher
update_table p d prev_delta = elim (entry_of prev_delta p.ghb_table) [
  | some (i, e) ↦ do
    live ← is_live p.ghb e
    let p' = with_entry p d (if live then e.ghb_index else invalid_index)
    some (record p' { ghb_table = set p.ghb_table i (table_entry p prev_delta) })
  | none ↦ some (record p {
    ghb_table = set p.ghb_table p.table_head (table_entry p prev_delta);
    table_head = (p.table_head + 1) % length p.ghb_table;
  })
]

abbrev pub previous_head : GhbPrefetcher → ℕ
previous_head p = if ltb 0 p.ghb_head then p.ghb_head - 1 else length p.ghb - 1

abbrev pub advance_head : GhbPrefetcher → GhbPrefetcher
advance_head p =
    if p.ghb_head + 1 == length p.ghb
    then record p { ghb_head = 0; ghb_generation = (p.ghb_generation + 1) % 4 }
    else record p { ghb_head = p.ghb_head + 1 }

-- The second half of the function: the difference enters the history.
abbrev pub record_delta : GhbPrefetcher → ℕ → Option GhbPrefetcher
record_delta p d = do
  let p' = with_entry p d invalid_index
  g ← get_elem? p'.ghb (previous_head p')
  q ← elim (g.delta == invalid_delta) [ true ↦ some p' | false ↦ update_table p' d g.delta ]
  some (advance_head q)

unfoldable pub get_next_address : GhbPrefetcher → ℕ → Option (List ℕ × GhbPrefetcher)
get_next_address p addr =
    let d = (addr + (2 ^ 64 - p.last_address)) % 2 ^ 64 in
    elim (p.last_address == invalid_address) [
      | true ↦ some ([], record p { last_address = addr })
      | false ↦ do
        list ← prefetches p d addr
        q ← record_delta (record p { last_address = addr }) d
        some (list, q)
    ]
