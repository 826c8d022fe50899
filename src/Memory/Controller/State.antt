-- ===== src/Memory/Controller/State.antt =====
-- pr_l1_pr_l2_dram_directory_msi/shmem_msg.h, shmem_req.h, shmem_req.cc and dram_directory_cntlr.h:
-- messages, requests and the state of the directory controller. Times and `ShmemPerf` records are
-- left out. The NUCA cache is an interface.
use model_lib.Prelude.{
  Bool, List, Option, [], false, get_elem?, guard, none, some, true, ℕ, ◌%◌, ◌/◌, ◌>>◌, ◌^◌, ◌∷◌,
}
use model_lib.Memory.RequestQueues.{ReqQueueList, no_requests}
use model_lib.Cache.Address.{HomeLookup}
use model_lib.Memory.Directory.Store.{DirectoryState}
use model_lib.Memory.Directory.Cache.{Geometry, DirectoryCache, create_directory_cache}

-- `ShmemMsg::msg_t`
pub data MsgType : Type 0 where
  ex_req sh_req upgrade_req inv_req flush_req wb_req : MsgType
  ex_rep sh_rep upgrade_rep inv_rep flush_rep wb_rep nullify_req : MsgType
  dram_read_req dram_write_req dram_read_rep : MsgType

-- `CoherencyProtocol::type_t`
pub data Protocol : Type 0 where
  msi mesi mesif : Protocol

-- The components that the controller sends to.
pub data Component : Type 0 where
  l2_cache dram : Component

-- The values of `HitWhere::where_t` that the controller tells apart; the others by number.
pub data HitWhere : Type 0 where
  unknown cache_remote nuca_cache at_dram dram_local dram_remote : HitWhere
  elsewhere : ℕ → HitWhere

-- The bytes of a cache block.
abbrev pub DataBuf : Type 0
DataBuf = List ℕ

-- A message that arrives: `ShmemMsg`; no data is `NULL`.
pub record ShmemMsg : Type 0 where
  pub msg_type : MsgType
  pub requester : ℕ
  pub address : ℕ
  pub data_buf : Option DataBuf
  pub hit_where : HitWhere

-- A call of `sendMsg` from the tag directory. The receiver `none` is `INVALID_CORE_ID`.
pub record Sent : Type 0 where
  pub msg_type : MsgType
  pub component : Component
  pub requester : ℕ
  pub receiver : Option ℕ
  pub address : ℕ
  pub data_buf : Option DataBuf
  pub hit_where : HitWhere

-- `ShmemReq` with the message that it copies.
pub record ShmemReq : Type 0 where
  pub msg : ShmemMsg
  pub wait_for_data : Bool
  pub forwarding_from : Option ℕ

abbrev pub is_null : Option DataBuf → Bool
is_null none = true
is_null (some b) = false

-- The constructor of `ShmemReq`, which refuses a message with data.
unfoldable pub create_req : ShmemMsg → Option ShmemReq
create_req m = do
  guard (is_null m.data_buf)
  some (record { msg = m; wait_for_data = false; forwarding_from = none })

-- `NucaCache` as the controller uses it: `read` gives the block on a hit, `write` the address and the
-- block that it evicts.
pub record NucaCache (N : Type 0) : Type 0 where
  pub read : N → ℕ → Option DataBuf × N
  pub write : N → ℕ → DataBuf → Option (ℕ × DataBuf) × N

-- What the constructor of `DramDirectoryCntlr` is given.
pub record Config (N : Type 0) : Type 0 where
  pub core_id : ℕ
  pub geometry : Geometry
  pub protocol : Protocol
  pub home_lookup : HomeLookup
  pub dram_cores : List ℕ
  pub nuca_cache : NucaCache N

-- `DramDirectoryCntlr`: the NUCA cache if there is one, the messages sent, the latest first, and the
-- statistics.
pub record Controller (N : Type 0) : Type 0 where
  pub cache : DirectoryCache
  pub requests : ReqQueueList ShmemReq
  pub nuca : Option N
  pub sent : List Sent
  pub evict : DirectoryState → ℕ
  pub forward : ℕ
  pub forward_failed : ℕ

-- `AddressHomeLookup::getHome`
unfoldable pub get_home : HomeLookup → List ℕ → ℕ → Option ℕ
get_home h core_list address = get_elem? core_list (address / 2 ^ h.ahl_param % h.total_modules)

module _ {N : Type 0} where
  unfoldable pub create_controller : ℕ → Option N → Controller N
  create_controller total_entries nuca = record {
    cache = create_directory_cache total_entries;
    requests = no_requests;
    nuca = nuca;
    sent = [];
    evict = λ _. 0;
    forward = 0;
    forward_failed = 0;
  }

  -- `getMemoryManager()->sendMsg`
  abbrev pub send : Controller N → Sent → Controller N
  send c m = record c { sent = m ∷ c.sent }

  abbrev pub send_all : Controller N → List Sent → Controller N
  send_all c [] = c
  send_all c (m ∷ ms) = send_all (send c m) ms

-- A message to an L2 cache without data.
abbrev pub to_cache : MsgType → ℕ → Option ℕ → ℕ → Sent
to_cache t requester receiver address = record {
  msg_type = t;
  component = l2_cache;
  requester = requester;
  receiver = receiver;
  address = address;
  data_buf = none;
  hit_where = unknown;
}

-- A reply with a block.
abbrev pub reply : MsgType → ℕ → ℕ → Option DataBuf → HitWhere → Sent
reply t receiver address b w = record {
  msg_type = t;
  component = l2_cache;
  requester = receiver;
  receiver = some receiver;
  address = address;
  data_buf = b;
  hit_where = w;
}

-- A message to a DRAM controller.
abbrev pub to_dram : MsgType → ℕ → ℕ → ℕ → Option DataBuf → Sent
to_dram t requester node address b = record {
  msg_type = t;
  component = dram;
  requester = requester;
  receiver = some node;
  address = address;
  data_buf = b;
  hit_where = unknown;
}
