-- ===== src/Memory/Directory/Cache.antt =====
-- pr_l1_pr_l2_dram_directory_msi/dram_directory_cache.h and dram_directory_cache.cc: the directory
-- as a cache of entries, with the list of the entries that were replaced and are not yet nullified.
-- Access times are left out.
pub mod Every
pub mod Slots
pub mod Lookup
use model_lib.Prelude.{
  Bool, List, Option, [], false, get_elem?, get_or, if◌then◌else◌, none, set, some, suc, true, zero,
  ℕ, ◌%◌, ◌*◌, ◌++◌, ◌+◌, ◌-◌, ◌/◌, ◌==◌, ◌>>=◌, ◌>>◌, ◌^◌, ◌∷◌,
}
use Prim.Native.Nat.{bit_and}
use model_lib.Misc.Utils.{floor_log2}
use model_lib.Memory.Directory.Store.{
  Scheme, Line, Directory, create_line, create_directory, set_directory_entry, get_directory_entry,
}

-- The geometry that the constructor is given and what it works out.
pub record Geometry : Type 0 where
  pub scheme : Scheme
  pub associativity : ℕ
  pub num_sets : ℕ
  pub log_block_size : ℕ

-- What the constructor works out from the number of entries, the associativity and the size of a block.
unfoldable pub create_geometry : Scheme → ℕ → ℕ → ℕ → Option Geometry
create_geometry s total_entries associativity cache_block_size = do
  log ← floor_log2 cache_block_size
  some (record {
    scheme = s;
    associativity = associativity;
    num_sets = total_entries / associativity;
    log_block_size = log;
  })

-- `DramDirectoryCache`, less the geometry.
pub record DirectoryCache : Type 0 where
  pub directory : Directory
  pub replaced_entries : List Line

-- What a `DirectoryEntry*` points to: an entry of the array, or one of the replaced ones.
pub data Pointer : Type 0 where
  in_slot : ℕ → Pointer
  in_replaced : ℕ → Pointer

unfoldable pub create_directory_cache : ℕ → DirectoryCache
create_directory_cache total_entries = record {
  directory = create_directory total_entries;
  replaced_entries = [];
}

-- `splitAddress`, the index of the set.
unfoldable pub directory_set : Geometry → ℕ → ℕ
directory_set g address = bit_and (address / 2 ^ g.log_block_size % 2 ^ 32) (g.num_sets - 1)

-- `set_index * m_associativity + i`
unfoldable pub slot : Geometry → ℕ → ℕ → ℕ
slot g address i = (directory_set g address * g.associativity + i) % 2 ^ 32

abbrev pub has_address : ℕ → Option ℕ → Bool
has_address a none = false
has_address a (some b) = b == a

abbrev pub is_free : Option ℕ → Bool
is_free none = true
is_free (some b) = false

-- The loops over the ways of a set, `left` of which are left: the first slot whose address passes the
-- test, and the directory with the entries that were made on the way.
unfoldable pub first_slot :
    Scheme → (Option ℕ → Bool) → (ℕ → ℕ) → ℕ → ℕ → Directory → Option (Option ℕ × Directory)
first_slot s test at zero i d = some (none, d)
first_slot s test at (suc left) i d = do
  r ← get_directory_entry s d (at i)
  let rest = first_slot s test at left (suc i) r.1
  if test r.0.address then some (some (at i), r.1) else rest

-- The loops over the replaced entries.
unfoldable pub replaced_at : ℕ → ℕ → List Line → Option Pointer
replaced_at a i [] = none
replaced_at a i (l ∷ ls) =
    let rest = replaced_at a (suc i) ls in
    if has_address a l.address then some (in_replaced i) else rest

abbrev pub line_or_new : Scheme → Option Line → Line
line_or_new s none = create_line s
line_or_new s (some l) = l

-- A free entry gets the address.
abbrev pub or_claimed :
    Scheme → ℕ → List Line → Option ℕ × Directory → Option Pointer × DirectoryCache
or_claimed s a replaced_entries (some n, d) = (
  some (in_slot n),
  record {
    directory =
        set_directory_entry d n
          (record (line_or_new s (get_or d.slots n none)) { address = some a });
    replaced_entries = replaced_entries;
  },
)
or_claimed s a replaced_entries (none, d) = (
  replaced_at a 0 replaced_entries,
  record { directory = d; replaced_entries = replaced_entries },
)

abbrev pub or_free :
    Geometry → ℕ → List Line → Option ℕ × Directory → Option (Option Pointer × DirectoryCache)
or_free g a replaced_entries (some n, d) =
    some (some (in_slot n), record { directory = d; replaced_entries = replaced_entries })
or_free g a replaced_entries (none, d) = do
  r ← first_slot g.scheme is_free (slot g a) g.associativity 0 d
  some (or_claimed g.scheme a replaced_entries r)

-- `getDirectoryEntry`: `none` in the answer is NULL.
unfoldable pub find_entry : Geometry → DirectoryCache → ℕ → Option (Option Pointer × DirectoryCache)
find_entry g c a = do
  r ← first_slot g.scheme (has_address a) (slot g a) g.associativity 0 c.directory
  or_free g a c.replaced_entries r

-- Reads and writes through a pointer to an entry.
abbrev pub load_line : DirectoryCache → Pointer → Option Line
load_line c (in_slot n) = get_or c.directory.slots n none
load_line c (in_replaced i) = get_elem? c.replaced_entries i

abbrev pub store_line : DirectoryCache → Pointer → Line → DirectoryCache
store_line c (in_slot n) l = record c { directory = set_directory_entry c.directory n l }
store_line c (in_replaced i) l = record c { replaced_entries = set c.replaced_entries i l }

-- `getReplacementCandidates`, from way `i` on.
unfoldable pub candidates : Scheme → (ℕ → ℕ) → ℕ → ℕ → Directory → Option (List Line × Directory)
candidates s at zero i d = some ([], d)
candidates s at (suc left) i d = do
  r ← get_directory_entry s d (at i)
  rest ← candidates s at left (suc i) r.1
  some (r.0 ∷ rest.0, rest.1)

-- `replaceDirectoryEntry`: the new entry. The replaced one stays where `find_entry` looks last.
abbrev pub replace_in :
    Scheme → ℕ → List Line → Option ℕ × Directory → Option (Pointer × DirectoryCache)
replace_in s a replaced_entries (none, d) = none
replace_in s a replaced_entries (some n, d) = some (
  in_slot n,
  record {
    directory = set_directory_entry d n (record (create_line s) { address = some a });
    replaced_entries = replaced_entries ++ line_or_new s (get_or d.slots n none) ∷ [];
  },
)

unfoldable pub replace_entry : Geometry → DirectoryCache → ℕ → ℕ → Option (Pointer × DirectoryCache)
replace_entry g c replaced_address a = do
  r ←
      first_slot g.scheme (has_address replaced_address) (slot g replaced_address) g.associativity 0
        c.directory
  replace_in g.scheme a c.replaced_entries r

-- The loop of `invalidateDirectoryEntry`.
unfoldable pub without_replaced : ℕ → List Line → Option (List Line)
without_replaced a [] = none
without_replaced a (l ∷ ls) =
    let rest = without_replaced a ls in
    if has_address a l.address then some ls else (rest >>= λ kept. some (l ∷ kept))

unfoldable pub invalidate_entry : DirectoryCache → ℕ → Option DirectoryCache
invalidate_entry c a = do
  kept ← without_replaced a c.replaced_entries
  some (record c { replaced_entries = kept })
