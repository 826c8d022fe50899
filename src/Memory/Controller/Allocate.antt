-- ===== src/Memory/Controller/Allocate.antt =====
-- dram_directory_cntlr.cc: the directory entry of a request, for which another may have to be
-- replaced and nullified (`processDirectoryEntryAllocationReq`, `processNullifyReq`).
use model_lib.Prelude.{
  Bool, List, Option, [], if◌then◌else◌, ltb, none, some, suc, true, ℕ, ◌&&◌, ◌==◌, ◌∷◌,
}
use model_lib.Memory.Run.{Run, done, failed, require, check, ◌>>=◌, ◌>>◌}
use model_lib.Memory.RequestQueues.{ReqQueueList, enqueue, size}
use model_lib.Memory.Directory.Entry.{count, sharers_list}
use model_lib.Memory.Directory.Store.{
  DirectoryState, uncached, shared, owned, modified, exclusive, Line,
}
use model_lib.Memory.Directory.Cache.{
  Pointer, find_entry, load_line, candidates, slot, replace_entry, invalidate_entry,
}
use model_lib.Memory.Controller.State.{
  flush_req, inv_req, nullify_req, unknown, ShmemMsg, ShmemReq, create_req, Config, Controller,
  Sent, send, send_all, to_cache,
}
use model_lib.Memory.Controller.Retrieve.{with_cache, get_entry}

abbrev pub dstate_number : DirectoryState → ℕ
dstate_number uncached = 0
dstate_number shared = 1
dstate_number owned = 2
dstate_number modified = 3
dstate_number exclusive = 4

-- `evict[curr_dstate]++`
abbrev pub evictions_with : (DirectoryState → ℕ) → DirectoryState → DirectoryState → ℕ
evictions_with evict s t = if dstate_number s == dstate_number t then suc (evict t) else evict t

-- `m_dram_directory_req_queue_list->size` of an entry's address; nothing is queued for INVALID_ADDRESS.
abbrev pub size_at : ReqQueueList ShmemReq → Option ℕ → ℕ
size_at q none = 0
size_at q (some a) = size q a

abbrev pub is_better : Option Line → Line → Bool
is_better none l = true
is_better (some best) l = ltb (count l.entry.sharers) (count best.entry.sharers)

-- The loop that picks the entry to be replaced.
unfoldable pub pick : ReqQueueList ShmemReq → Option Line → List Line → Option Line
pick q best [] = best
pick q best (l ∷ ls) =
    pick q (if is_better best l && (size_at q l.address == 0) then some l else best) ls

-- The message of a nullify request.
abbrev pub nullify_msg : ℕ → ℕ → ShmemMsg
nullify_msg requester address = record {
  msg_type = nullify_req;
  requester = requester;
  address = address;
  data_buf = none;
  hit_where = unknown;
}

-- An INV_REQ to each sharer.
abbrev pub invalidations : ℕ → ℕ → List ℕ → List Sent
invalidations requester address [] = []
invalidations requester address (id ∷ ids) =
    to_cache inv_req requester (some id) address ∷ invalidations requester address ids

module _ {N : Type 0} (cfg : Config N) (next : ℕ → Controller N → Run (Controller N)) where
  abbrev pub nullify_by_state : DirectoryState → Controller N → Line → ℕ → ℕ → Run (Controller N)
  nullify_by_state exclusive c l requester address =
      done (send c (to_cache flush_req requester l.entry.owner address))
  nullify_by_state modified c l requester address =
      done (send c (to_cache flush_req requester l.entry.owner address))
  nullify_by_state shared c l requester address =
      done (send_all c (invalidations requester address (sharers_list l.entry)))
  nullify_by_state uncached c l requester address = do
    d ← check (invalidate_entry c.cache address)
    next address (with_cache c d)
  nullify_by_state owned c l requester address = failed

  -- `processNullifyReq`
  unfoldable pub process_nullify : Controller N → ShmemReq → Run (Controller N)
  process_nullify c r = do
    e ← get_entry cfg c r.msg.address
    l ← check (load_line e.1.cache e.0)
    nullify_by_state l.dstate e.1 l r.msg.requester r.msg.address

  -- The nullify request is the only one for its address.
  unfoldable pub start_nullify :
      Controller N → Pointer → ℕ → ShmemReq → Run (Pointer × Controller N)
  start_nullify c p victim_address n = do
    require (size c.requests victim_address == 1)
    c' ← process_nullify c n
    done (p, c')

  -- The victim goes, and a nullify request for it is queued and started.
  unfoldable pub replace_line : Controller N → ShmemReq → Line → Run (Pointer × Controller N)
  replace_line c r victim = do
    victim_address ← check victim.address
    e ← check (replace_entry cfg.geometry c.cache victim_address r.msg.address)
    n ← check (create_req (nullify_msg r.msg.requester victim_address))
    start_nullify
        (record c {
          cache = e.1;
          requests = enqueue c.requests victim_address n;
          evict = evictions_with c.evict victim.dstate;
        })
        e.0 victim_address n

  -- `processDirectoryEntryAllocationReq`, where the address has no entry.
  unfoldable pub process_allocation : Controller N → ShmemReq → Run (Pointer × Controller N)
  process_allocation c r = do
    found ← check (
        candidates cfg.geometry.scheme (slot cfg.geometry r.msg.address) cfg.geometry.associativity
          0 c.cache.directory)
    victim ← check (pick c.requests none found.0)
    replace_line (with_cache c (record c.cache { directory = found.1 })) r victim

  abbrev pub found_or_allocated :
      Option Pointer → Controller N → ShmemReq → Run (Pointer × Controller N)
  found_or_allocated (some p) c r = done (p, c)
  found_or_allocated none c r = process_allocation c r

  -- How each request handler gets its entry.
  unfoldable pub entry_for : Controller N → ShmemReq → Run (Pointer × Controller N)
  entry_for c r = do
    f ← check (find_entry cfg.geometry c.cache r.msg.address)
    found_or_allocated f.0 (with_cache c f.1) r
