-- ===== src/Memory/Directory/Store.antt =====
-- directory_schemes/directory.h, directory.cc and directory_state.h: the array of directory
-- entries, which are made when they are first asked for. An entry holds its address, `none` for
-- `INVALID_ADDRESS`; the state of its block; its owner and sharers; and what its class adds.
use model_lib.Prelude.{
  Bool, List, Option, false, get_or, guard, length, ltb, none, replicate, set, some, suc, true, ℕ,
  ◌>>=◌, ◌>>◌,
}
use model_lib.Memory.Directory.Entry.{
  DirectoryEntry, create_entry, add_limited, add_limitless, get_one_sharer, get_random_sharer,
}

-- `DirectoryState::dstate_t`
pub data DirectoryState : Type 0 where
  uncached shared owned modified exclusive : DirectoryState

-- `Directory::DirectoryType`
pub data DirectoryType : Type 0 where
  full_map limited_no_broadcast limitless : DirectoryType

-- What the constructor of `Directory` is given. `uninitialised` is what `m_forwarder_id`, which no
-- constructor sets, holds in a new entry.
pub record Scheme : Type 0 where
  pub directory_type : DirectoryType
  pub max_hw_sharers : ℕ
  pub max_num_sharers : ℕ
  pub trap_penalty : ℕ
  pub uninitialised : Option ℕ

-- `m_use_max_hw_sharers` once an entry has been made.
abbrev pub use_max_hw_sharers : DirectoryType → Scheme → ℕ
use_max_hw_sharers full_map s = s.max_num_sharers
use_max_hw_sharers limited_no_broadcast s = s.max_hw_sharers
use_max_hw_sharers limitless s = s.max_hw_sharers

-- `DirectoryEntry` with the members of its subclasses: the seed of the random numbers of a limited
-- entry, and the software trap of a limitless one.
pub record Line : Type 0 where
  pub address : Option ℕ
  pub dstate : DirectoryState
  pub forwarder : Option ℕ
  pub entry : DirectoryEntry
  pub seed : ℕ
  pub trap_enabled : Bool

-- `createDirectoryEntry`
unfoldable pub create_line : Scheme → Line
create_line s = record {
  address = none;
  dstate = uncached;
  forwarder = s.uninitialised;
  entry = create_entry s.max_num_sharers;
  seed = 1;
  trap_enabled = false;
}

-- `addSharer` of the class that the directory's type asks for.
abbrev pub add_sharer_as : DirectoryType → Scheme → Line → ℕ → Option (Bool × Line)
add_sharer_as limitless s l id = do
  t ←
      add_limitless
        (record { entry = l.entry; trap_enabled = l.trap_enabled; trap_penalty = s.trap_penalty })
        id s.max_hw_sharers
  some (true, record l { entry = t.entry; trap_enabled = t.trap_enabled })
add_sharer_as full_map s l id = do
  r ← add_limited l.entry id s.max_num_sharers
  some (r.0, record l { entry = r.1 })
add_sharer_as limited_no_broadcast s l id = do
  r ← add_limited l.entry id s.max_hw_sharers
  some (r.0, record l { entry = r.1 })

unfoldable pub add_sharer : Scheme → Line → ℕ → Option (Bool × Line)
add_sharer s l id = add_sharer_as s.directory_type s l id

-- `getOneSharer` of that class: the sharer and the entry with its new seed.
abbrev pub one_sharer_as : DirectoryType → Line → Option (ℕ × Line)
one_sharer_as limitless l = do id ← get_one_sharer l.entry; some (id, l)
one_sharer_as full_map l = do
  r ← get_random_sharer l.entry l.seed
  some (r.0, record l { seed = r.1 })
one_sharer_as limited_no_broadcast l = do
  r ← get_random_sharer l.entry l.seed
  some (r.0, record l { seed = r.1 })

unfoldable pub one_sharer : Scheme → Line → Option (ℕ × Line)
one_sharer s l = one_sharer_as s.directory_type l

-- `Directory`: the entries, `none` for NULL, and the statistic on them.
pub record Directory : Type 0 where
  pub slots : List (Option Line)
  pub allocated : ℕ

unfoldable pub create_directory : ℕ → Directory
create_directory num_entries = record { slots = replicate num_entries none; allocated = 0 }

-- `setDirectoryEntry`, and a write through a pointer to an entry of the array.
unfoldable pub set_directory_entry : Directory → ℕ → Line → Directory
set_directory_entry d n l = record d { slots = set d.slots n (some l) }

abbrev pub found_or_created : Scheme → Directory → ℕ → Option Line → Line × Directory
found_or_created s d n (some l) = (l, d)
found_or_created s d n none =
    let l = create_line s in (l, record (set_directory_entry d n l) { allocated = suc d.allocated })

-- `getDirectoryEntry`
unfoldable pub get_directory_entry : Scheme → Directory → ℕ → Option (Line × Directory)
unfolding set_directory_entry
get_directory_entry s d n = do
  guard (ltb n (length d.slots))
  some (found_or_created s d n (get_or d.slots n none))
