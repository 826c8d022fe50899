-- ===== src/Memory/Controller/WriteMiss.antt =====
-- An exclusive request for a block that no cache has, from its arrival to the reply.
pub mod Asked
use model_lib.Memory.Controller.WriteMiss.Asked.{
  request, waiting, asked, retrieve_asks, first_of_empty, set_front_of_one, only_request,
}
use model_lib.Memory.Controller.Coherent.{Sole}
use model_lib.Memory.Controller.Coherent.Added.{
  first_sharer_taken, first_sharer-Sole, add_sharer-Added,
}
use model_lib.Memory.Controller.Replies.{process_dram_reply, dram_where}
use model_lib.Memory.Directory.Cache.Lookup.{find_entry-store_line}
use model_lib.Memory.Directory.Entry.{count, has_sharer, set_owner}
use model_lib.Memory.Controller.Allocate.{entry_for}
use model_lib.Memory.Controller.Requests.{process_ex, ex_by_state}
use model_lib.Memory.Controller.Handle.{
  handle_from_l2, next_request, handle_from_dram, process_next,
}
use model_lib.Prelude.{
  ==_iff, List, Option, [], ap, arith, false, get_or, leb, length, ltb, none, refl, set, some,
  subst, suc, sym, true, zero, ℕ, ◌<◌, ◌==◌, ◌∙◌, ◌∷◌, ◌≡◌,
}
use model_lib.Memory.Run.{done}
use model_lib.Memory.RequestQueues.{ReqQueueList, size, set_front, enqueue, is_empty}
use model_lib.Memory.Directory.Store.{set_directory_entry, Line, modified, uncached, add_sharer}
use model_lib.Memory.Directory.Cache.{DirectoryCache, in_slot, find_entry, load_line, store_line}
use model_lib.Memory.Controller.State.{
  ex_rep, dram_read_req, ShmemMsg, ShmemReq, Config, Controller, get_home, to_dram, create_req,
  ex_req, HitWhere, DataBuf, dram_read_rep, reply,
}
use model_lib.Memory.Controller.Retrieve.{get_entry, send_data_to_nuca}

-- A block that no cache has: the look-up of its address, which leaves the cache of entries as `d`,
-- gives an entry of the array, held before or free until now, that has no sharers; the address has
-- no request, the directory takes sharers, and there is no NUCA cache.
pub record Idle {N : Type 0} (cfg : Config N) (c : Controller N) (d : DirectoryCache)
    (n requester a node : ℕ) (l : Line) : Type 0 where
  pub entry_found : find_entry cfg.geometry c.cache a ≡ some (some (in_slot n), d)
  pub entry_read : load_line d (in_slot n) ≡ some l
  pub same_address : l.address ≡ some a
  pub no_copy : l.dstate ≡ uncached
  pub no_sharer : count l.entry.sharers ≡ 0
  pub known_core : requester < length l.entry.sharers
  pub some_hw_sharers : 0 < cfg.geometry.scheme.max_hw_sharers
  pub some_sharers : 0 < cfg.geometry.scheme.max_num_sharers
  pub no_request : size c.requests a ≡ 0
  pub no_nuca : c.nuca ≡ none
  pub home : get_home cfg.home_lookup cfg.dram_cores a ≡ some node

-- A write of what is there.
set_same :
    (xs : List (Option Line)) (n : ℕ) (l : Line)
    → get_or xs n none ≡ some l
    → set xs n (some l) ≡ xs
set_same [] n l h = refl
set_same (x ∷ xs) zero l h = ap (λ y. y ∷ xs) (sym h)
set_same (x ∷ xs) (suc n) l h = ap (λ ys. x ∷ ys) (set_same xs n l h)

module _ {N : Type 0} (cfg : Config N) (c : Controller N) (d : DirectoryCache)
    (n requester a node : ℕ) (l : Line) (idle : Idle cfg c d n requester a node l) where
  -- A second look-up finds the entry where the first one left it.
  found_again : find_entry cfg.geometry d a ≡ some (some (in_slot n), d)
  unfolding set_directory_entry
  found_again =
      let same : store_line d (in_slot n) l ≡ d =
        ap
          (λ slots. record {
            directory = record { slots = slots; allocated = d.directory.allocated };
            replaced_entries = d.replaced_entries;
          })
          (set_same d.directory.slots n l idle.entry_read) in
      let again =
        find_entry-store_line cfg.geometry a c.cache n l idle.entry_found idle.same_address in
      subst (λ x. find_entry cfg.geometry x a ≡ some (some (in_slot n), x)) same again.0

  request_asks :
      (sender : ℕ) (x : Line)
      → add_sharer cfg.geometry.scheme l requester ≡ some (true, x)
      → x.address ≡ l.address
      → has_sharer x.entry requester ≡ true
      → (q : ReqQueueList ShmemReq) × (handle_from_l2 cfg c sender (request ex_req requester a)
          ≡ done (
              asked cfg c d n requester a node l
                (record x { entry = record x.entry { owner = some requester }; dstate = modified })
                q))
        × (q a ≡ some (waiting (request ex_req requester a) ∷ []))
  unfolding handle_from_l2 create_req process_ex entry_for
  request_asks sender x took kept has =
      let m = request ex_req requester a in
      let r : ShmemReq = record { msg = m; wait_for_data = false; forwarding_from = none } in
      let q1 = enqueue c.requests a r in
      let one : q1 a ≡ some (r ∷ []) = first_of_empty c.requests a r idle.no_request in
      let (size_one, front_r, _) = only_request q1 a r one in
      let l' : Line = record x {
        entry = record x.entry { owner = some requester };
        dstate = modified;
      } in
      let (found, held) =
        find_entry-store_line cfg.geometry a c.cache n l' idle.entry_found
          (kept ∙ idle.same_address) in
      let c1 : Controller N = record c { cache = d; requests = q1 } in
      let next = next_request cfg c1 a in
      let single : (size q1 a == 1) ≡ true = (==_iff _ 1).1 size_one in
      (
        set_front q1 a (waiting m),
        rw idle.entry_found (
            rw single (
              rw found_again (
                rw idle.entry_read (
                  ap (λ t. ex_by_state cfg next t c1 (in_slot n) l requester a none) idle.no_copy
                  ∙ (rw took (
                      rw has (
                        retrieve_asks cfg c d n requester a node l l' next q1 r found held refl
                          idle.no_nuca idle.home size_one front_r))))))),
        set_front_of_one q1 a r (waiting m) one,
      )

  -- DRAM's answer.
  abbrev pub dram_reply : HitWhere → DataBuf → ShmemMsg
  dram_reply w b = record {
    msg_type = dram_read_rep;
    requester = requester;
    address = a;
    data_buf = some b;
    hit_where = w;
  }

  reply_answers :
      (sender : ℕ) (w : HitWhere) (b : DataBuf) (l' : Line) (q : ReqQueueList ShmemReq)
      → l'.address ≡ some a
      → l'.dstate ≡ modified
      → q a ≡ some (waiting (request ex_req requester a) ∷ [])
      → (q' : ReqQueueList ShmemReq) × (handle_from_dram cfg
            (asked cfg c d n requester a node l l' q)
            sender
            (dram_reply w b)
          ≡ done (record (asked cfg c d n requester a node l l' q) {
            requests = q';
            sent =
                reply ex_rep requester a (some b) (dram_where w (sender == requester))
                ∷ to_dram dram_read_req requester node a none
                ∷ c.sent;
          }))
        × (q' a ≡ none)
  unfolding handle_from_dram process_dram_reply get_entry send_data_to_nuca next_request
      process_next is_empty
  reply_answers sender w b l' q la lm one =
      let (size_one, front_q, (q', gone, none_left)) = only_request q a _ one in
      let (found, held) = find_entry-store_line cfg.geometry a c.cache n l' idle.entry_found la in
      let busy : ltb 0 (size q a) ≡ true = ground (arith, size_one) in
      let some_left : leb 1 (size q a) ≡ true = ground (arith, size_one) in
      (
        q',
        rw busy (
            rw front_q (
              rw found
                (rw held (rw lm (rw idle.no_nuca (rw some_left (rw gone (rw none_left refl)))))))),
        none_left,
      )

  -- Without a NUCA cache, an exclusive request without data for an address with no request in its
  -- queue, whose look-up gives an entry of the array without sharers, held before or free until
  -- now, makes its requester the owner and only sharer of the block in the directory, keeps the
  -- request in the queue, and asks DRAM; when DRAM answers with the data, the requester is sent the
  -- block with the right to write, and the address has no request left.
  pub write_miss :
      (sender : ℕ)
      → (l' : Line) × (q : ReqQueueList ShmemReq) × (handle_from_l2 cfg c sender
            (request ex_req requester a)
          ≡ done (asked cfg c d n requester a node l l' q))
        × (l'.dstate ≡ modified)
        × Sole l'.entry requester
        × ((node' : ℕ) (w : HitWhere) (b : DataBuf)
            → (q' : ReqQueueList ShmemReq) × (handle_from_dram cfg
                  (asked cfg c d n requester a node l l' q)
                  node'
                  (dram_reply w b)
                ≡ done (record (asked cfg c d n requester a node l l' q) {
                  requests = q';
                  sent =
                      reply ex_rep requester a (some b) (dram_where w (node' == requester))
                      ∷ to_dram dram_read_req requester node a none
                      ∷ c.sent;
                }))
              × (q' a ≡ none))
  write_miss sender =
      let (x, took, kept, has) =
        first_sharer_taken cfg.geometry.scheme l requester idle.no_sharer idle.known_core
          idle.some_hw_sharers idle.some_sharers in
      let (q, asks, one) = request_asks sender x took kept has in
      let l' : Line = record x {
        entry = record x.entry { owner = some requester };
        dstate = modified;
      } in
      let owns : set_owner x.entry (some requester) ≡ some l'.entry = rw has refl in
      (
        l',
        q,
        asks,
        refl,
        first_sharer-Sole l requester (add_sharer-Added cfg.geometry.scheme l requester took)
            idle.no_sharer refl owns,
        λ node' w b. reply_answers node' w b l' q (kept ∙ idle.same_address) refl one,
      )
