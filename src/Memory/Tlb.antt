-- ===== src/Memory/Tlb.antt =====
-- parametric_dram_directory_msi/tlb.h and tlb.cc: a chain of translation buffers, the first one in
-- front.
pub mod Fill
mod Tests
use model_lib.Prelude.{
  Bool, List, Option, [], false, none, some, true, ℕ, ◌%◌, ◌+◌, ◌>>=◌, ◌>>◌, ◌^◌, ◌∷◌,
}
use model_lib.Cache.Block.{create}
use model_lib.Cache.Lines.{
  Cache, Accessed, LineInserted, load, access_single_line, insert_single_line,
}

-- `TLB`; `m_next_level` is the next of the chain.
pub record Tlb : Type 0 where
  pub cache : Cache
  pub access : ℕ
  pub miss : ℕ

-- The evicted page goes into the next level, if there is one.
unfoldable pub allocate_page : ℕ → List Tlb → ℕ → Option (List Tlb)
allocate_page fuel [] addr = some []
allocate_page fuel (t ∷ ts) addr = do
  r ← insert_single_line fuel t.cache addr none create none
  rest ← elim r.eviction [ true ↦ allocate_page fuel ts r.evict_addr | false ↦ some ts ]
  some (record t { cache = r.cache } ∷ rest)

abbrev allocate_if : Bool → ℕ → List Tlb → ℕ → Option (List Tlb)
allocate_if true fuel ts addr = allocate_page fuel ts addr
allocate_if false fuel ts addr = some ts

-- Without a level the page is not found.
unfoldable pub lookup_page : ℕ → List Tlb → ℕ → Bool → Option (Bool × List Tlb)
lookup_page fuel [] addr allocate_on_miss = some (false, [])
lookup_page fuel (t ∷ ts) addr allocate_on_miss = do
  a ← access_single_line t.cache addr load none 0 true
  let t' = record t { cache = a.cache; access = (t.access + 1) % 2 ^ 64 }
  elim a.line [
    | some at ↦ some (true, t' ∷ ts)
    | none ↦ do
      r ← lookup_page fuel ts addr false
      let missed = record t' { miss = (t.miss + 1) % 2 ^ 64 }
      ts' ← allocate_if allocate_on_miss fuel (missed ∷ r.1) addr
      some (r.0, ts')
  ]
