-- ===== src/Memory/Controller/Tests.antt =====
-- Runs of the directory controller: a directory of two entries in one set, for four cores.
use model_lib.Memory.Controller.Coherent.{Sole}
use model_lib.Memory.Directory.Cache.Lookup.{find_entry-store_line}
use model_lib.Memory.Controller.WriteMiss.Asked.{asked, request, waiting}
use model_lib.Memory.Controller.WriteMiss.{Idle, dram_reply, write_miss}
use model_lib.Memory.Controller.Safety.{SharersFit, single_owner, never_exhausted}
use model_lib.Memory.Controller.Messages.{reaches, flushes, upgrade_targets, Victim, pick_least}
use model_lib.Memory.RequestQueues.Fifo.{IsTidy, queued, Dequeued, queues_refine_lists}
use model_lib.Prelude.{
  All, Bool-cases, List, Option, [], arith, false, if◌then◌else◌, inl, inr, length, ltb, map, none,
  not, refl, replicate, some, true, ℕ, ◌&&◌, ◌++◌, ◌==◌, ◌↔◌, ◌∷◌, ◌≡◌, ◌≢◌, ◌⊎◌,
}
use model_lib.Memory.Run.{Run, done, failed, exhausted}
use model_lib.Memory.RequestQueues.{
  size, enqueue, dequeue, front, is_empty, set_front, ReqQueueList, no_requests,
}
use model_lib.Memory.Directory.Entry.{
  count, sharers_from, sharers_list, has_sharer, add_limited, remove_sharer, create_entry,
  get_random_sharer,
}
use model_lib.Memory.Directory.Store.{
  Scheme, full_map, create_line, add_sharer, one_sharer, set_directory_entry, get_directory_entry,
  create_directory, uncached, shared, Line, modified,
}
use model_lib.Memory.Directory.Cache.{
  DirectoryCache, create_directory_cache, directory_set, slot, first_slot, replaced_at, find_entry,
  candidates, replace_entry, without_replaced, invalidate_entry, in_slot, load_line, store_line,
}
use model_lib.Memory.Controller.State.{
  MsgType, ex_req, flush_rep, flush_req, dram_read_rep, ex_rep, dram_read_req, msi, at_dram,
  DataBuf, ShmemMsg, Config, Controller, create_req, get_home, create_controller, HitWhere,
  ShmemReq, send_all, upgrade_req, Sent, reply, to_dram,
}
use model_lib.Memory.Controller.Retrieve.{
  get_entry, retrieve_remote, retrieve_data_and_send, send_data_to_nuca, send_data_to_dram,
}
use model_lib.Memory.Controller.Allocate.{
  pick, process_nullify, replace_line, start_nullify, process_allocation, entry_for, size_at,
}
use model_lib.Memory.Controller.Requests.{
  process_ex, process_sh, process_upgrade, upgrade_invalidations, upgrade_by_state, is_sole,
}
use model_lib.Memory.Controller.Replies.{
  process_inv_rep, process_flush_rep, process_wb_rep, process_dram_reply, dram_where,
}
use model_lib.Memory.Controller.Handle.{
  process_next, next_request, handle_from_l2, handle_from_dram, Arrival, from_l2, from_dram, handle,
  handle_all,
}

abbrev scheme : Scheme
scheme = record {
  directory_type = full_map;
  max_hw_sharers = 4;
  max_num_sharers = 4;
  trap_penalty = 0;
  uninitialised = none;
}

-- A NUCA cache that never hits and keeps nothing; the controller of the tests has none.
abbrev config : Config ℕ
config = record {
  core_id = 0;
  geometry = record { scheme = scheme; associativity = 2; num_sets = 1; log_block_size = 6 };
  protocol = msi;
  home_lookup = record { ahl_param = 6; total_modules = 1 };
  dram_cores = 0 ∷ [];
  nuca_cache = record { read = λ n a. (none, n); write = λ n a b. (none, n) };
}

abbrev fresh : Controller ℕ
fresh = create_controller 2 none

abbrev msg : MsgType → ℕ → ℕ → Option DataBuf → ShmemMsg
msg t requester address b = record {
  msg_type = t;
  requester = requester;
  address = address;
  data_buf = b;
  hit_where = at_dram;
}

-- Core 1 writes, then core 2 writes: the block is flushed and handed over.
abbrev handed_over : List Arrival
handed_over =
    from_l2 1 (msg ex_req 1 64 none)
    ∷ from_l2 2 (msg ex_req 2 64 none)
    ∷ from_dram 0 (msg dram_read_rep 1 64 (some (7 ∷ [])))
    ∷ from_l2 1 (msg flush_rep 2 64 (some (8 ∷ [])))
    ∷ []

abbrev value_or_fresh : Run (Controller ℕ) → Controller ℕ
value_or_fresh (done c) = c
value_or_fresh failed = fresh
value_or_fresh exhausted = fresh

-- The controller after these messages.
after_run : Controller ℕ
after_run = value_or_fresh (handle_all config fresh handed_over)

abbrev sent_types : Controller ℕ → List MsgType
sent_types c = map (λ m. m.msg_type) c.sent

-- The entry of the block afterwards.
abbrev owned_line : Line
owned_line = record {
  address = some 64;
  dstate = modified;
  forwarder = some 2;
  entry = record { owner = some 2; sharers = false ∷ false ∷ true ∷ replicate 61 false };
  seed = 1;
  trap_enabled = false;
}

-- The run ends, with these messages, the latest first, and this entry.
hand_over_run :
    (handle_all config fresh handed_over ≡ done after_run)
    × (sent_types after_run ≡ ex_rep ∷ flush_req ∷ ex_rep ∷ dram_read_req ∷ [])
    × (load_line after_run.cache (in_slot 0) ≡ some owned_line)
unfolding after_run handle_all handle handle_from_l2 handle_from_dram next_request process_next
    process_ex process_sh process_upgrade process_inv_rep process_flush_rep process_wb_rep
    process_dram_reply pick process_nullify replace_line start_nullify process_allocation entry_for
    get_entry retrieve_remote retrieve_data_and_send send_data_to_nuca send_data_to_dram create_req
    get_home create_controller create_directory_cache directory_set slot first_slot replaced_at
    find_entry candidates replace_entry without_replaced invalidate_entry count sharers_from
    sharers_list has_sharer add_limited remove_sharer create_entry get_random_sharer create_line
    add_sharer one_sharer set_directory_entry get_directory_entry create_directory size enqueue
    dequeue front is_empty set_front upgrade_invalidations
hand_over_run = (refl, refl, refl)

single_owner_example :
    SharersFit owned_line.dstate owned_line.entry.owner (sharers_list owned_line.entry)
single_owner_example =
    single_owner config 2 none handed_over hand_over_run.0 (in_slot 0) owned_line hand_over_run.2

never_exhausted_example : handle_all config fresh handed_over ≢ exhausted
never_exhausted_example = never_exhausted config 2 none handed_over

-- A directory that knows block 64, without a copy of it.
abbrev idle_line : Line
idle_line = record {
  address = some 64;
  dstate = uncached;
  forwarder = none;
  entry = record { owner = none; sharers = replicate 64 false };
  seed = 1;
  trap_enabled = false;
}

abbrev known : Controller ℕ
known = record fresh {
  cache = record {
    directory = record { slots = some idle_line ∷ none ∷ []; allocated = 1 };
    replaced_entries = [];
  };
}

known_found : find_entry config.geometry known.cache 64 ≡ some (some (in_slot 0), known.cache)
unfolding find_entry first_slot get_directory_entry directory_set slot
known_found = refl

-- The entry that the first request for block 64 gets.
abbrev new_line : Line
new_line = record idle_line { address = some 64 }

abbrev claimed : DirectoryCache
claimed = record {
  directory = record {
    slots = some new_line ∷ some (record new_line { address = none }) ∷ [];
    allocated = 2;
  };
  replaced_entries = [];
}

first_found : find_entry config.geometry fresh.cache 64 ≡ some (some (in_slot 0), claimed)
unfolding find_entry first_slot get_directory_entry directory_set slot create_controller
    create_directory_cache create_directory set_directory_entry create_line create_entry
first_found = refl

first_idle : Idle config fresh claimed 0 1 64 0 new_line
unfolding count size create_controller get_home
first_idle = record {
  entry_found = first_found;
  entry_read = refl;
  same_address = refl;
  no_copy = refl;
  no_sharer = refl;
  known_core = omega arith;
  some_hw_sharers = omega arith;
  some_sharers = omega arith;
  no_request = refl;
  no_nuca = refl;
  home = refl;
}

write_miss_example :
    (l' : Line) × (q : ReqQueueList ShmemReq) × (handle_from_l2 config fresh 1 (request ex_req 1 64)
      ≡ done (asked config fresh claimed 0 1 64 0 new_line l' q))
    × (l'.dstate ≡ modified)
    × Sole l'.entry 1
    × ((node' : ℕ) (w : HitWhere) (b : DataBuf)
        → (q' : ReqQueueList ShmemReq) × (handle_from_dram config
              (asked config fresh claimed 0 1 64 0 new_line l' q)
              node'
              (dram_reply config fresh claimed 0 1 64 0 new_line first_idle w b)
            ≡ done (record (asked config fresh claimed 0 1 64 0 new_line l' q) {
              requests = q';
              sent =
                  reply ex_rep 1 64 (some b) (dram_where w (node' == 1))
                  ∷ to_dram dram_read_req 1 0 64 none
                  ∷ fresh.sent;
            }))
          × (q' 64 ≡ none))
write_miss_example = write_miss config fresh claimed 0 1 64 0 new_line first_idle 1

find_entry-store_line_example :
    (find_entry config.geometry (store_line known.cache (in_slot 0) owned_line) 64
      ≡ some (some (in_slot 0), store_line known.cache (in_slot 0) owned_line))
    × (load_line (store_line known.cache (in_slot 0) owned_line) (in_slot 0) ≡ some owned_line)
find_entry-store_line_example =
    find_entry-store_line config.geometry 64 known.cache 0 owned_line known_found refl

-- A block that cores 1 and 3 share.
abbrev shared_line : Line
shared_line = record idle_line {
  dstate = shared;
  entry = record { owner = none; sharers = false ∷ true ∷ false ∷ true ∷ replicate 60 false };
}

not_sole : is_sole (sharers_list shared_line.entry) 2 ≡ false
unfolding sharers_list sharers_from
not_sole = refl

upgrade_targets_example :
    (ms : List Sent) × (upgrade_by_state config
        (process_next config 1)
        shared
        known
        (in_slot 0)
        shared_line
        (waiting (request upgrade_req 2 64))
        none
      ≡ done (send_all known ms))
    × ((id : ℕ) → reaches ms id ≡ (has_sharer shared_line.entry id && not (id == 2)))
    × (flushes ms ≡ (
        if not (has_sharer shared_line.entry 2) && ltb 0 (count shared_line.entry.sharers)
        then 1
        else 0))
upgrade_targets_example =
    upgrade_targets config (process_next config 1) known (in_slot 0) shared_line
      (waiting (request upgrade_req 2 64)) none not_sole

pick_least_example :
    ((v : Line) × Victim no_requests
        (shared_line ∷ idle_line ∷ [])
        v
        (pick no_requests none (shared_line ∷ idle_line ∷ [])))
    ⊎ ((pick no_requests none (shared_line ∷ idle_line ∷ []) ≡ none)
        × All (λ l. size_at no_requests l.address ≢ 0) (shared_line ∷ idle_line ∷ []))
pick_least_example = pick_least no_requests (shared_line ∷ idle_line ∷ [])

abbrev two_requests : ReqQueueList ℕ
two_requests = λ a. if a == 64 then some (5 ∷ 6 ∷ []) else none

two_requests-IsTidy : IsTidy two_requests
two_requests-IsTidy a = elim (Bool-cases (a == 64)) [
  | inl e ↦ rw e (λ h. cc)
  | inr e ↦ rw e (λ h. cc)
]

queues_refine_lists_example :
    ((r : ℕ)
      → (queued (enqueue two_requests 64 r) 64 ≡ queued two_requests 64 ++ r ∷ [])
        × ((b : ℕ) → b ≢ 64 → queued (enqueue two_requests 64 r) b ≡ queued two_requests b)
        × IsTidy (enqueue two_requests 64 r))
    × (size two_requests 64 ≡ length (queued two_requests 64))
    × ((is_empty two_requests 64 ≡ true) ↔ (queued two_requests 64 ≡ []))
    × ((r : ℕ) (rs : List ℕ)
        → queued two_requests 64 ≡ r ∷ rs
        → (front two_requests 64 ≡ some r)
          × Dequeued two_requests 64 r rs (dequeue two_requests 64))
    × (queued two_requests 64 ≡ []
        → (front two_requests 64 ≡ none) × (dequeue two_requests 64 ≡ none))
    × ((p : ℕ × ReqQueueList ℕ) → dequeue two_requests 64 ≡ some p → IsTidy p.1)
queues_refine_lists_example = queues_refine_lists two_requests 64 two_requests-IsTidy
