-- ===== src/Memory/Controller/Handle.antt =====
-- dram_directory_cntlr.cc: `processNextReqFromL2Cache`, `handleMsgFromL2Cache` and
-- `handleMsgFromDRAM`, the entry points of the controller. The fuel is the depth of calls of
-- `processNextReqFromL2Cache`.
use model_lib.Prelude.{List, [], if◌then◌else◌, leb, none, suc, zero, ℕ, ◌==◌, ◌∷◌}
use model_lib.Memory.Run.{Run, done, failed, exhausted, require, check, ◌>>=◌, ◌>>◌}
use model_lib.Memory.RequestQueues.{dequeue, enqueue, front, is_empty, size}
use model_lib.Memory.Directory.Cache.{find_entry}
use model_lib.Memory.Controller.State.{
  MsgType, ex_req, sh_req, upgrade_req, inv_rep, flush_rep, wb_rep, dram_read_rep, ShmemMsg,
  ShmemReq, create_req, Config, Controller,
}
use model_lib.Memory.Controller.Retrieve.{with_cache}
use model_lib.Memory.Controller.Requests.{process_ex, process_sh, process_upgrade}
use model_lib.Memory.Controller.Replies.{
  process_inv_rep, process_flush_rep, process_wb_rep, process_dram_reply,
}

module _ {N : Type 0} (cfg : Config N) where
  -- The start of a request that is first in its queue.
  abbrev pub process_request :
      (ℕ → Controller N → Run (Controller N))
      → MsgType
      → Controller N
      → ShmemReq
      → Run (Controller N)
  process_request next ex_req c r = process_ex cfg next c r none
  process_request next sh_req c r = process_sh cfg next c r none
  process_request next upgrade_req c r = process_upgrade cfg next c r none
  process_request next _ c r = failed

  abbrev pub start_front :
      (ℕ → Controller N → Run (Controller N)) → ℕ → Controller N → Run (Controller N)
  start_front next address c =
      if is_empty c.requests address
      then done c
      else (check (front c.requests address) >>= λ r. process_request next r.msg.msg_type c r)

  -- `processNextReqFromL2Cache`
  unfoldable pub process_next : ℕ → ℕ → Controller N → Run (Controller N)
  process_next zero address c = exhausted
  process_next (suc fuel) address c = do
    require (leb 1 (size c.requests address))
    q ← check (dequeue c.requests address)
    start_front (process_next fuel) address (record c { requests = q.1 })

  -- A fuel of one more than the requests that are queued for the address.
  unfoldable pub next_request : Controller N → ℕ → ℕ → Controller N → Run (Controller N)
  next_request c address = process_next (suc (size c.requests address))

  -- A request is queued, and started if it is the only one for its address.
  abbrev pub queue_request : Controller N → ShmemMsg → Run (Controller N)
  queue_request c m = do
    r ← check (create_req m)
    let c' = record c { requests = enqueue c.requests m.address r }
    if size c'.requests m.address == 1
        then process_request (next_request c' m.address) m.msg_type c' r
        else done c'

  abbrev pub dispatch : MsgType → Controller N → ℕ → ShmemMsg → Run (Controller N)
  dispatch ex_req c sender m = queue_request c m
  dispatch sh_req c sender m = queue_request c m
  dispatch upgrade_req c sender m = queue_request c m
  dispatch inv_rep c sender m = process_inv_rep cfg (next_request c m.address) c sender m
  dispatch flush_rep c sender m = process_flush_rep cfg (next_request c m.address) c sender m
  dispatch wb_rep c sender m = process_wb_rep cfg (next_request c m.address) c sender m
  dispatch _ c sender m = failed

  -- `handleMsgFromL2Cache`; the lookup at its start may make or claim an entry.
  unfoldable pub handle_from_l2 : Controller N → ℕ → ShmemMsg → Run (Controller N)
  handle_from_l2 c sender m = do
    f ← check (find_entry cfg.geometry c.cache m.address)
    dispatch m.msg_type (with_cache c f.1) sender m

  abbrev pub dispatch_dram : MsgType → Controller N → ℕ → ShmemMsg → Run (Controller N)
  dispatch_dram dram_read_rep c sender m =
      process_dram_reply cfg (next_request c m.address) c sender m
  dispatch_dram _ c sender m = failed

  -- `handleMsgFromDRAM`
  unfoldable pub handle_from_dram : Controller N → ℕ → ShmemMsg → Run (Controller N)
  handle_from_dram c sender m = dispatch_dram m.msg_type c sender m

-- The two kinds of message that arrive, with their senders.
pub data Arrival : Type 0 where
  from_l2 from_dram : ℕ → ShmemMsg → Arrival

module _ {N : Type 0} (cfg : Config N) where
  unfoldable pub handle : Controller N → Arrival → Run (Controller N)
  handle c (from_l2 sender m) = handle_from_l2 cfg c sender m
  handle c (from_dram sender m) = handle_from_dram cfg c sender m

  -- The messages of a run, in the order in which they arrive.
  unfoldable pub handle_all : Controller N → List Arrival → Run (Controller N)
  handle_all c [] = done c
  handle_all c (a ∷ as') = handle c a >>= λ c'. handle_all c' as'
