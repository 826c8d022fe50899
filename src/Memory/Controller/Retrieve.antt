-- ===== src/Memory/Controller/Retrieve.antt =====
-- dram_directory_cntlr.cc: how the controller gets a block and sends it
-- (`retrieveDataAndSendToL2Cache`, `sendDataToNUCA`, `sendDataToDram`). The call of
-- `processNextReqFromL2Cache` is the parameter `next`.
use model_lib.Prelude.{Bool, Option, false, if◌then◌else◌, ltb, none, some, true, ℕ, ◌&&◌}
use model_lib.Memory.Run.{Run, done, require, check, ◌>>=◌, ◌>>◌}
use model_lib.Memory.RequestQueues.{front, set_front, size}
use model_lib.Memory.Directory.Store.{DirectoryState, shared, Line}
use model_lib.Memory.Directory.Cache.{Pointer, DirectoryCache, find_entry, load_line, store_line}
use model_lib.Memory.Controller.State.{
  MsgType, wb_req, dram_read_req, dram_write_req, Protocol, mesif, cache_remote, nuca_cache,
  DataBuf, ShmemReq, Config, Controller, get_home, send, to_cache, reply, to_dram,
}

abbrev pub is_shared : DirectoryState → Bool
is_shared shared = true
is_shared _ = false

abbrev pub is_mesif : Protocol → Bool
is_mesif mesif = true
is_mesif _ = false

abbrev pub is_invalid_core : Option ℕ → Bool
is_invalid_core none = true
is_invalid_core (some id) = false

module _ {N : Type 0} where
  abbrev pub with_cache : Controller N → DirectoryCache → Controller N
  with_cache c d = record c { cache = d }

  -- A write through an entry's pointer.
  abbrev pub write_entry : Controller N → Pointer → Line → Controller N
  write_entry c p l = with_cache c (store_line c.cache p l)

  -- A write through the pointer to the first request of an address.
  abbrev pub write_front : Controller N → ℕ → ShmemReq → Controller N
  write_front c address r = record c { requests = set_front c.requests address r }

  -- `getDirectoryEntry` followed by `assert(directory_entry)`.
  unfoldable pub get_entry : Config N → Controller N → ℕ → Run (Pointer × Controller N)
  get_entry cfg c address = do
    r ← check (find_entry cfg.geometry c.cache address)
    p ← check r.0
    done (p, with_cache c r.1)

  -- The MESIF forwarder that is asked for the data, if one is.
  abbrev pub forwarder_to_ask : Config N → ShmemReq → Line → Option ℕ
  forwarder_to_ask cfg r l =
      if is_mesif cfg.protocol && is_invalid_core r.forwarding_from && is_shared l.dstate
      then l.forwarder
      else none

  abbrev pub ask_forwarder :
      Config N → Controller N → ℕ → ℕ → ShmemReq → Option ℕ → Run (Controller N)
  ask_forwarder cfg c receiver address r (some forwarder) = done (
      send (write_front c address (record r { forwarding_from = some forwarder }))
        (to_cache wb_req receiver (some forwarder) address))
  ask_forwarder cfg c receiver address r none = do
    node ← check (get_home cfg.home_lookup cfg.dram_cores address)
    done (
        send (write_front c address (record r { wait_for_data = true }))
          (to_dram dram_read_req receiver node address none))

  -- What is left when the NUCA cache is absent or misses.
  unfoldable pub retrieve_remote : Config N → Controller N → Pointer → ℕ → ℕ → Run (Controller N)
  retrieve_remote cfg c p receiver address = do
    require (ltb 0 (size c.requests address))
    r ← check (front c.requests address)
    l ← check (load_line c.cache p)
    ask_forwarder cfg c receiver address r (forwarder_to_ask cfg r l)

  -- The write of a block to the NUCA cache; a block that it evicts goes to DRAM.
  abbrev pub evicted_to_dram : Config N → Controller N → Option (ℕ × DataBuf) → Run (Controller N)
  evicted_to_dram cfg c none = done c
  evicted_to_dram cfg c (some (evict_address, b)) = do
    node ← check (get_home cfg.home_lookup cfg.dram_cores evict_address)
    done (send c (to_dram dram_write_req cfg.core_id node evict_address (some b)))

  abbrev pub write_nuca : Config N → Controller N → Option N → ℕ → DataBuf → Run (Controller N)
  write_nuca cfg c none address b = done c
  write_nuca cfg c (some n) address b =
      let w = cfg.nuca_cache.write n address b in
      evicted_to_dram cfg (record c { nuca = some w.1 }) w.0

  unfoldable pub send_data_to_nuca : Config N → Controller N → ℕ → DataBuf → Run (Controller N)
  send_data_to_nuca cfg c address b = write_nuca cfg c c.nuca address b

  abbrev pub write_dram : Config N → Controller N → Option N → ℕ → ℕ → DataBuf → Run (Controller N)
  write_dram cfg c (some n) address requester b = send_data_to_nuca cfg c address b
  write_dram cfg c none address requester b = do
    node ← check (get_home cfg.home_lookup cfg.dram_cores address)
    done (send c (to_dram dram_write_req requester node address (some b)))

  unfoldable pub send_data_to_dram : Config N → Controller N → ℕ → ℕ → DataBuf → Run (Controller N)
  send_data_to_dram cfg c address requester b = write_dram cfg c c.nuca address requester b

module _ {N : Type 0} (cfg : Config N) (next : ℕ → Controller N → Run (Controller N)) where
  abbrev pub nuca_answered :
      Controller N → Pointer → MsgType → ℕ → ℕ → Option DataBuf → Run (Controller N)
  nuca_answered c p t receiver address (some b) =
      next address (send c (reply t receiver address (some b) nuca_cache))
  nuca_answered c p t receiver address none = retrieve_remote cfg c p receiver address

  abbrev pub retrieve_nuca :
      Controller N → Option N → Pointer → MsgType → ℕ → ℕ → Run (Controller N)
  retrieve_nuca c none p t receiver address = retrieve_remote cfg c p receiver address
  retrieve_nuca c (some n) p t receiver address =
      let r = cfg.nuca_cache.read n address in
      nuca_answered (record c { nuca = some r.1 }) p t receiver address r.0

  abbrev pub retrieve_from :
      Controller N → Pointer → MsgType → ℕ → ℕ → Option DataBuf → Run (Controller N)
  retrieve_from c p t receiver address (some b) = do
    l ← check (load_line c.cache p)
    next address (
        send (write_entry c p (record l { forwarder = some receiver }))
          (reply t receiver address (some b) cache_remote))
  retrieve_from c p t receiver address none = retrieve_nuca c c.nuca p t receiver address

  -- `retrieveDataAndSendToL2Cache`
  unfoldable pub retrieve_data_and_send :
      Controller N → MsgType → ℕ → ℕ → Option DataBuf → Run (Controller N)
  retrieve_data_and_send c t receiver address b = do
    e ← get_entry cfg c address
    retrieve_from e.1 e.0 t receiver address b
