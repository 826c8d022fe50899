-- ===== src/Memory/Controller/Replies.antt =====
-- dram_directory_cntlr.cc: `processInvRepFromL2Cache`, `processFlushRepFromL2Cache`,
-- `processWbRepFromL2Cache` and `processDRAMReply`. Data that is missing from a FLUSH_REP ends the
-- run where it is to be sent to DRAM, and a DRAM reply without data ends it, as `makeMsgBuf` does.
use model_lib.Prelude.{
  Bool, Option, false, if◌then◌else◌, ltb, none, not, some, true, ℕ, ◌&&◌, ◌==◌, ◌||◌,
}
use model_lib.Memory.Run.{Run, done, failed, require, check, ◌>>=◌, ◌>>◌}
use model_lib.Memory.RequestQueues.{front, size}
use model_lib.Memory.Directory.Entry.{count, has_sharer, remove_sharer}
use model_lib.Memory.Directory.Store.{DirectoryState, uncached, shared, modified, exclusive, Line}
use model_lib.Memory.Directory.Cache.{load_line}
use model_lib.Memory.Controller.State.{
  MsgType, ex_req, sh_req, upgrade_req, ex_rep, sh_rep, HitWhere, at_dram, dram_local, dram_remote,
  DataBuf, ShmemMsg, ShmemReq, Config, Controller, send, reply,
}
use model_lib.Memory.Controller.Retrieve.{
  is_shared, is_invalid_core, write_entry, write_front, get_entry, send_data_to_nuca,
  send_data_to_dram,
}
use model_lib.Memory.Controller.Allocate.{process_nullify}
use model_lib.Memory.Controller.Requests.{is_core, process_ex, process_sh, process_upgrade}

abbrev pub is_uncached : DirectoryState → Bool
is_uncached uncached = true
is_uncached _ = false

abbrev pub is_exclusive : DirectoryState → Bool
is_exclusive exclusive = true
is_exclusive _ = false

abbrev pub is_modified : DirectoryState → Bool
is_modified modified = true
is_modified _ = false

-- The entry after its last sharer may have gone.
abbrev pub settled : Line → Line
settled l = if count l.entry.sharers == 0 then record l { dstate = uncached } else l

-- The type of the reply to the request that waited for DRAM.
abbrev pub reply_type : MsgType → DirectoryState → Option MsgType
reply_type sh_req s =
    if is_exclusive s then some ex_rep else (if is_shared s then some sh_rep else none)
reply_type ex_req s = if is_modified s then some ex_rep else none
reply_type upgrade_req s = some ex_rep
reply_type _ s = none

abbrev pub dram_where : HitWhere → Bool → HitWhere
dram_where at_dram local = if local then dram_local else dram_remote
dram_where w local = w

module _ {N : Type 0} (cfg : Config N) (next : ℕ → Controller N → Run (Controller N)) where
  -- What an INV_REP does for the request that is first in the queue, and for none.
  abbrev pub upgrade_after_inv : Controller N → ShmemReq → Line → Run (Controller N)
  upgrade_after_inv c r l =
      if count l.entry.sharers == 1
      then (if has_sharer l.entry r.msg.requester
          then process_upgrade cfg next c r none
          else done c)
      else (if count l.entry.sharers == 0 then process_upgrade cfg next c r none else done c)

  abbrev pub sh_after_inv : Controller N → ShmemReq → ℕ → Run (Controller N)
  sh_after_inv c r sender =
      if r.wait_for_data
      then done c
      else (if not (is_invalid_core r.forwarding_from) && not (is_core r.forwarding_from sender)
          then done c
          else process_sh cfg next c r none)

  abbrev pub after_inv : MsgType → Controller N → ShmemReq → Line → ℕ → Run (Controller N)
  after_inv ex_req c r l sender =
      if is_uncached l.dstate then process_ex cfg next c r none else done c
  after_inv upgrade_req c r l sender = upgrade_after_inv c r l
  after_inv sh_req c r l sender = sh_after_inv c r sender
  after_inv _ c r l sender = if is_uncached l.dstate then process_nullify cfg next c r else done c

  unfoldable pub process_inv_rep : Controller N → ℕ → ShmemMsg → Run (Controller N)
  process_inv_rep c sender m = do
    e ← get_entry cfg c m.address
    l ← check (load_line e.1.cache e.0)
    require (is_shared l.dstate || is_exclusive l.dstate)
    d ← check (remove_sharer l.entry sender false)
    let l' = settled (record l {
      entry = d;
      forwarder = if is_core l.forwarder sender then none else l.forwarder;
    })
    let c' = write_entry e.1 e.0 l'
    if ltb 0 (size c'.requests m.address)
        then (check (front c'.requests m.address) >>= λ r. after_inv r.msg.msg_type c' r l' sender)
        else done c'

  -- What a FLUSH_REP does for the request that is first in the queue.
  abbrev pub after_flush : MsgType → Controller N → ShmemReq → Line → ShmemMsg → Run (Controller N)
  after_flush ex_req c r l m = process_ex cfg next c r m.data_buf
  after_flush sh_req c r l m = do
    b ← check m.data_buf
    c' ← send_data_to_dram cfg c m.address m.requester b
    process_sh cfg next c' r (some b)
  after_flush upgrade_req c r l m =
      if count l.entry.sharers == 0
      then process_upgrade cfg next c r m.data_buf
      else done
          (write_front c m.address (record r { msg = record r.msg { data_buf = m.data_buf } }))
  after_flush _ c r l m = do
    b ← check m.data_buf
    c' ← send_data_to_dram cfg c m.address m.requester b
    process_nullify cfg next c' r

  unfoldable pub process_flush_rep : Controller N → ℕ → ShmemMsg → Run (Controller N)
  process_flush_rep c sender m = do
    e ← get_entry cfg c m.address
    l ← check (load_line e.1.cache e.0)
    d ← check (remove_sharer l.entry sender false)
    let l' = settled (record l { entry = record d { owner = none }; forwarder = none })
    require (count l'.entry.sharers == 0 || is_shared l'.dstate)
    let c' = write_entry e.1 e.0 l'
    if size c'.requests m.address == 0
        then (check m.data_buf >>= λ b. send_data_to_dram cfg c' m.address m.requester b)
        else (check (front c'.requests m.address) >>= λ r. after_flush r.msg.msg_type c' r l' m)

  abbrev pub after_wb : MsgType → Controller N → ShmemReq → Option DataBuf → Run (Controller N)
  after_wb sh_req c r b = process_sh cfg next c r b
  after_wb _ c r b = failed

  unfoldable pub process_wb_rep : Controller N → ℕ → ShmemMsg → Run (Controller N)
  process_wb_rep c sender m = do
    e ← get_entry cfg c m.address
    l ← check (load_line e.1.cache e.0)
    require (has_sharer l.entry sender)
    let c' =
        write_entry e.1 e.0 (record l { entry = record l.entry { owner = none }; dstate = shared })
    require (not (size c'.requests m.address == 0))
    r ← check (front c'.requests m.address)
    after_wb r.msg.msg_type c' r m.data_buf

  unfoldable pub process_dram_reply : Controller N → ℕ → ShmemMsg → Run (Controller N)
  process_dram_reply c sender m = do
    require (ltb 0 (size c.requests m.address))
    r ← check (front c.requests m.address)
    e ← get_entry cfg c m.address
    l ← check (load_line e.1.cache e.0)
    t ← check (reply_type r.msg.msg_type l.dstate)
    b ← check m.data_buf
    c' ←
        send_data_to_nuca cfg
          (send e.1 (
            reply t r.msg.requester m.address (some b)
              (dram_where m.hit_where (sender == m.requester))))
          m.address b
    next m.address c'
