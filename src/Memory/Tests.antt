-- ===== src/Memory/Tests.antt =====
-- Runs of directory_entry.h and its subclasses on at most 64 cores.
use model_lib.Prelude.{[], arith, false, none, refl, replicate, some, true, ℕ, ◌∷◌, ◌≡◌}
use model_lib.Memory.Directory.Entry.{
  DirectoryEntry, Limitless, create_limitless, create_entry, count, has_sharer, add_limitless,
  get_latency, get_one_sharer,
}
use model_lib.Memory.Directory.Entry.Sharers.{get_one_sharer_lem}
use model_lib.Memory.Directory.Entry.Trap.{trap_by_storage_size}

abbrev entry : DirectoryEntry
entry = record { owner = none; sharers = false ∷ true ∷ false ∷ true ∷ [] }

get_one_sharer_lem_example :
    (id : ℕ) × (get_one_sharer entry ≡ some id) × (has_sharer entry id ≡ true)
unfolding count
get_one_sharer_lem_example = get_one_sharer_lem entry (omega arith)

-- Two of four cores share the line, at a limit of one.
abbrev shared : Limitless
shared = record {
  entry = record { owner = none; sharers = true ∷ false ∷ true ∷ replicate 61 false };
  trap_enabled = false;
  trap_penalty = 200;
}

trap_by_storage_size_example : get_latency shared ≡ 0
unfolding create_limitless create_entry add_limitless has_sharer
trap_by_storage_size_example = trap_by_storage_size 4 200 1 (0 ∷ 2 ∷ []) shared refl
