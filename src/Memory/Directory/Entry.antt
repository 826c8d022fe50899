-- ===== src/Memory/Directory/Entry.antt =====
-- directory_entry.h, directory_entry_limited_no_broadcast.h and directory_entry_limitless.h: the
-- sharers and the owner of a line. Both kinds of `DirectorySharers` are a list of bits; no id is
-- `INVALID_CORE_ID` but by `none`.
pub mod Sharers
pub mod Trap
use model_lib.Prelude.{
  Bool, List, Option, [], false, get_elem?, get_or, guard, if◌then◌else◌, leb, length, ltb, none,
  not, replicate, set, some, suc, true, ℕ, ◌%◌, ◌*◌, ◌+◌, ◌/◌, ◌==◌, ◌>>=◌, ◌>>◌, ◌^◌, ◌∷◌,
}

-- `DirectoryEntrySized`, without the block's state and the forwarder.
pub record DirectoryEntry : Type 0 where
  pub owner : Option ℕ
  pub sharers : List Bool

-- The number of bits that hold the sharers: a `DirectorySharersBitset` of one of four sizes, or a
-- `DirectorySharersVector`.
abbrev pub storage_size : ℕ → ℕ
storage_size max_num_sharers =
    if leb max_num_sharers 64
    then 64
    else if leb max_num_sharers 128
    then 128
    else if leb max_num_sharers 256
    then 256
    else if leb max_num_sharers 1024
    then 1024
    else max_num_sharers

-- The constructor.
unfoldable pub create_entry : ℕ → DirectoryEntry
create_entry max_num_sharers = record {
  owner = none;
  sharers = replicate (storage_size max_num_sharers) false;
}

-- `count`
unfoldable pub count : List Bool → ℕ
count [] = 0
count (b ∷ bs) = let rest = count bs in if b then suc rest else rest

-- The loop of `getSharersList`, from sharer `j` on.
unfoldable pub sharers_from : ℕ → List Bool → List ℕ
sharers_from j [] = []
sharers_from j (b ∷ bs) = let rest = sharers_from (suc j) bs in if b then j ∷ rest else rest

-- `getSharersList`
unfoldable pub sharers_list : DirectoryEntry → List ℕ
sharers_list e = sharers_from 0 e.sharers

unfoldable pub has_sharer : DirectoryEntry → ℕ → Bool
has_sharer e id = get_or e.sharers id false

-- `DirectoryEntryLimitedNoBroadcast::addSharer`; `false` asks for an eviction first.
unfoldable pub add_limited : DirectoryEntry → ℕ → ℕ → Option (Bool × DirectoryEntry)
add_limited e id max_hw_sharers = do
  guard (not (has_sharer e id))
  some (
      if leb max_hw_sharers (count e.sharers)
      then (false, e)
      else (true, record e { sharers = set e.sharers id true }))

-- `removeSharer` of both classes.
unfoldable pub remove_sharer : DirectoryEntry → ℕ → Bool → Option DirectoryEntry
remove_sharer e id reply_expected = do
  guard (not reply_expected)
  guard (has_sharer e id)
  some (record e { sharers = set e.sharers id false })

-- `setOwner` of both classes.
abbrev pub set_owner : DirectoryEntry → Option ℕ → Option DirectoryEntry
set_owner e none = some (record e { owner = none })
set_owner e (some id) = do guard (has_sharer e id); some (record e { owner = some id })

-- `DirectoryEntryLimitless`: the entry and whether the software trap is enabled.
pub record Limitless : Type 0 where
  pub entry : DirectoryEntry
  pub trap_enabled : Bool
  pub trap_penalty : ℕ

unfoldable pub create_limitless : ℕ → ℕ → Limitless
create_limitless max_num_sharers penalty = record {
  entry = create_entry max_num_sharers;
  trap_enabled = false;
  trap_penalty = penalty;
}

-- `DirectoryEntryLimitless::addSharer`, which always answers `true`. The size of the sharers is the
-- number of bits.
unfoldable pub add_limitless : Limitless → ℕ → ℕ → Option Limitless
add_limitless l id max_hw_sharers = do
  guard (not (has_sharer l.entry id))
  some (record l {
    entry = record (l.entry) { sharers = set l.entry.sharers id true };
    trap_enabled = if length l.entry.sharers == max_hw_sharers then true else l.trap_enabled;
  })

pub get_latency : Limitless → ℕ
get_latency l = if l.trap_enabled then l.trap_penalty else 0

-- The loop of `DirectoryEntryLimitless::getOneSharer`.
pub first_sharer : ℕ → List Bool → Option ℕ
first_sharer j [] = none
first_sharer j (b ∷ bs) = let rest = first_sharer (suc j) bs in if b then some j else rest

pub get_one_sharer : DirectoryEntry → Option ℕ
get_one_sharer e = first_sharer 0 e.sharers

-- `Random::next` with a limit: the number drawn and the new seed.
abbrev pub draw_below : ℕ → ℕ → ℕ × ℕ
draw_below limit seed =
    let seed' = (seed * 1103515245 + 12345) % 2 ^ 32 in (seed' / 65536 % limit, seed')

-- `DirectoryEntryLimitedNoBroadcast::getOneSharer`: the sharer and the new seed.
unfoldable pub get_random_sharer : DirectoryEntry → ℕ → Option (ℕ × ℕ)
get_random_sharer e seed = do
  let sharers = sharers_list e
  guard (ltb 0 (length sharers))
  let r = draw_below (length sharers) seed
  id ← get_elem? sharers r.0
  some (id, r.1)
