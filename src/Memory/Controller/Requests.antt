-- ===== src/Memory/Controller/Requests.antt =====
-- dram_directory_cntlr.cc: `processExReqFromL2Cache`, `processShReqFromL2Cache` and
-- `processUpgradeReqFromL2Cache`. `getSharersList` never asks for a broadcast (its first component is
-- `false`), so the branches that broadcast are left out.
use model_lib.Prelude.{
  Bool, List, Option, [], false, get_elem?, if◌then◌else◌, length, none, not, some, suc, true, ℕ,
  ◌&&◌, ◌==◌, ◌∷◌,
}
use model_lib.Memory.Run.{Run, done, failed, require, check, ◌>>=◌, ◌>>◌}
use model_lib.Memory.Directory.Entry.{has_sharer, set_owner, sharers_list}
use model_lib.Memory.Directory.Store.{
  DirectoryState, uncached, shared, owned, modified, exclusive, Line, add_sharer, one_sharer,
}
use model_lib.Memory.Directory.Cache.{Pointer, load_line}
use model_lib.Memory.Controller.State.{
  MsgType, inv_req, flush_req, wb_req, ex_rep, sh_rep, upgrade_rep, Protocol, msi, mesi, mesif,
  DataBuf, ShmemReq, Config, Controller, Sent, is_null, send, send_all, to_cache,
}
use model_lib.Memory.Controller.Retrieve.{write_entry, retrieve_data_and_send}
use model_lib.Memory.Controller.Allocate.{invalidations, entry_for}

abbrev pub is_core : Option ℕ → ℕ → Bool
is_core none id = false
is_core (some o) id = o == id

-- The state and the reply of a read of a block that no cache has.
abbrev pub first_reader : Protocol → DirectoryState × MsgType
first_reader msi = (shared, sh_rep)
first_reader mesi = (exclusive, ex_rep)
first_reader mesif = (exclusive, ex_rep)

-- What an upgrade sends to the sharers other than the requester, from place `i` on: a FLUSH_REQ to the
-- first of the list if the requester has no copy.
abbrev pub upgrade_msg : Bool → ℕ → MsgType
upgrade_msg requester_has_copy i = if not requester_has_copy && (i == 0) then flush_req else inv_req

unfoldable pub upgrade_invalidations : ℕ → ℕ → Bool → ℕ → List ℕ → List Sent
upgrade_invalidations requester address has_copy i [] = []
upgrade_invalidations requester address has_copy i (id ∷ ids) =
    let rest = upgrade_invalidations requester address has_copy (suc i) ids in
    if id == requester
    then rest
    else to_cache (upgrade_msg has_copy i) requester (some id) address ∷ rest

-- The sharers are the requester and nobody else.
abbrev pub is_sole : List ℕ → ℕ → Bool
is_sole [] id = false
is_sole (j ∷ []) id = j == id
is_sole (j ∷ k ∷ js) id = false

module _ {N : Type 0} (cfg : Config N) (next : ℕ → Controller N → Run (Controller N)) where
  -- The first sharer of a block: it becomes the owner in the given state, and gets the block.
  abbrev pub first_sharer_reply :
      DirectoryState × MsgType
      → Controller N
      → Pointer
      → Line
      → ℕ
      → ℕ
      → Option DataBuf
      → Run (Controller N)
  first_sharer_reply t c p l requester address b = do
    a ← check (add_sharer cfg.geometry.scheme l requester)
    require a.0
    e ← check (set_owner a.1.entry (some requester))
    retrieve_data_and_send cfg next (write_entry c p (record (a.1) { entry = e; dstate = t.0 })) t.1
        requester address b

  abbrev pub ex_by_state :
      DirectoryState → Controller N → Pointer → Line → ℕ → ℕ → Option DataBuf → Run (Controller N)
  ex_by_state exclusive c p l requester address b = do
    require (is_null b)
    done (send c (to_cache flush_req requester l.entry.owner address))
  ex_by_state modified c p l requester address b = do
    require (is_null b)
    done (send c (to_cache flush_req requester l.entry.owner address))
  ex_by_state shared c p l requester address b = do
    require (is_null b)
    done (send_all c (invalidations requester address (sharers_list l.entry)))
  ex_by_state uncached c p l requester address b =
      first_sharer_reply (modified, ex_rep) c p l requester address b
  ex_by_state owned c p l requester address b = failed

  unfoldable pub process_ex : Controller N → ShmemReq → Option DataBuf → Run (Controller N)
  process_ex c r b = do
    e ← entry_for cfg next c r
    l ← check (load_line e.1.cache e.0)
    ex_by_state l.dstate e.1 e.0 l r.msg.requester r.msg.address b

  -- A read of a shared block by a core that is no sharer yet.
  abbrev pub added_reader :
      Bool × Line → Controller N → Pointer → ℕ → ℕ → Option DataBuf → Run (Controller N)
  added_reader (true, l) c p requester address b =
      retrieve_data_and_send cfg next (write_entry c p l) sh_rep requester address b
  added_reader (false, l) c p requester address b = do
    s ← check (one_sharer cfg.geometry.scheme l)
    done (send (write_entry c p s.1) (to_cache inv_req requester (some s.0) address))

  abbrev pub forwarded : Controller N → Option DataBuf → Controller N
  forwarded c b = record c {
    forward = suc c.forward;
    forward_failed = if is_null b then suc c.forward_failed else c.forward_failed;
  }

  abbrev pub sh_by_state :
      DirectoryState → Controller N → Pointer → Line → ℕ → ℕ → Option DataBuf → Run (Controller N)
  sh_by_state exclusive c p l requester address b = do
    require (not (is_core l.entry.owner requester))
    require (is_null b)
    done (send c (to_cache wb_req requester l.entry.owner address))
  sh_by_state modified c p l requester address b = do
    require (is_null b)
    done (send c (to_cache wb_req requester l.entry.owner address))
  sh_by_state shared c p l requester address b =
      if has_sharer l.entry requester
      then retrieve_data_and_send cfg next (forwarded c b) sh_rep requester address b
      else (check (add_sharer cfg.geometry.scheme l requester) >>= λ a.
          added_reader a c p requester address b)
  sh_by_state uncached c p l requester address b =
      first_sharer_reply (first_reader cfg.protocol) c p l requester address b
  sh_by_state owned c p l requester address b = failed

  unfoldable pub process_sh : Controller N → ShmemReq → Option DataBuf → Run (Controller N)
  process_sh c r b = do
    e ← entry_for cfg next c r
    l ← check (load_line e.1.cache e.0)
    sh_by_state l.dstate e.1 e.0 l r.msg.requester r.msg.address b

  abbrev pub upgraded : Controller N → Pointer → Line → ℕ → ℕ → Run (Controller N)
  upgraded c p l requester address = next address (
      send (write_entry c p (record l { dstate = modified }))
        (to_cache upgrade_rep requester (some requester) address))

  -- The block is exclusive or modified.
  abbrev pub upgrade_owned : Controller N → Pointer → Line → ℕ → ℕ → Run (Controller N)
  upgrade_owned c p l requester address = do
    first ← check (get_elem? (sharers_list l.entry) 0)
    if first == requester
        then (require (is_core l.entry.owner requester) >> upgraded c p l requester address)
        else done (send c (to_cache flush_req requester l.entry.owner address))

  abbrev pub upgrade_by_state :
      DirectoryState
      → Controller N
      → Pointer
      → Line
      → ShmemReq
      → Option DataBuf
      → Run (Controller N)
  upgrade_by_state exclusive c p l r b = upgrade_owned c p l r.msg.requester r.msg.address
  upgrade_by_state modified c p l r b = upgrade_owned c p l r.msg.requester r.msg.address
  upgrade_by_state shared c p l r b =
      if is_sole (sharers_list l.entry) r.msg.requester
      then (check (set_owner l.entry (some r.msg.requester)) >>= λ e.
          upgraded c p (record l { entry = e }) r.msg.requester r.msg.address)
      else done (
          send_all c (
            upgrade_invalidations r.msg.requester r.msg.address (has_sharer l.entry r.msg.requester)
              0 (sharers_list l.entry)))
  upgrade_by_state uncached c p l r b = do
    require (length (sharers_list l.entry) == 0)
    first_sharer_reply (modified, ex_rep) c p l r.msg.requester r.msg.address
        (if is_null b then r.msg.data_buf else b)
  upgrade_by_state owned c p l r b = failed

  unfoldable pub process_upgrade : Controller N → ShmemReq → Option DataBuf → Run (Controller N)
  process_upgrade c r b = do
    e ← entry_for cfg next c r
    l ← check (load_line e.1.cache e.0)
    upgrade_by_state l.dstate e.1 e.0 l r b
