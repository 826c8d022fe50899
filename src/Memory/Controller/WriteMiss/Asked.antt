-- ===== src/Memory/Controller/WriteMiss/Asked.antt =====
-- The steps of a write miss in dram_directory_cntlr.cc: DRAM is asked (`retrieveDataAndSendToL2Cache`),
-- and a queue with one request.
use model_lib.Prelude.{
  ==_refl, Bool, List, Option, [], ap, arith, false, if◌then◌else◌, length, ltb, none, refl, some,
  true, ℕ, ◌&&◌, ◌++◌, ◌==◌, ◌∷◌, ◌≡◌,
}
use model_lib.Memory.Run.{Run, done}
use model_lib.Memory.RequestQueues.{
  ReqQueueList, size, front, set_front, enqueue, replace_front, dequeue, dequeue_from, queue_or_new,
  front_of,
}
use model_lib.Memory.Directory.Store.{Line, modified}
use model_lib.Memory.Directory.Cache.{DirectoryCache, in_slot, find_entry, load_line, store_line}
use model_lib.Memory.Controller.State.{
  MsgType, ex_rep, dram_read_req, unknown, ShmemMsg, ShmemReq, Config, Controller, get_home,
  to_dram,
}
use model_lib.Memory.Controller.Retrieve.{
  get_entry, retrieve_remote, retrieve_data_and_send, forwarder_to_ask, is_mesif, is_invalid_core,
}

-- A request without data.
abbrev pub request : MsgType → ℕ → ℕ → ShmemMsg
request t requester address = record {
  msg_type = t;
  requester = requester;
  address = address;
  data_buf = none;
  hit_where = unknown;
}

abbrev pub waiting : ShmemMsg → ShmemReq
waiting m = record { msg = m; wait_for_data = true; forwarding_from = none }

no_elements {ℓ} : {A : Type ℓ} (xs : List A) → length xs ≡ 0 → xs ≡ []
no_elements [] h = refl
no_elements (x ∷ xs) h = absurd (omega arith)

no_forwarder : (b b' : Bool) (f : Option ℕ) → (if b && b' && false then f else none) ≡ none
no_forwarder true true f = refl
no_forwarder true false f = refl
no_forwarder false b' f = refl

module _ {N : Type 0} (cfg : Config N) (c : Controller N) (d : DirectoryCache)
    (n requester a node : ℕ) (l l' : Line) where
  -- The controller once DRAM has been asked: the requester owns the block, and its request waits.
  abbrev pub asked : ReqQueueList ShmemReq → Controller N
  asked q = record c {
    cache = store_line d (in_slot n) l';
    requests = q;
    sent = to_dram dram_read_req requester node a none ∷ c.sent;
  }

  forwards_not : (r : ShmemReq) → l'.dstate ≡ modified → forwarder_to_ask cfg r l' ≡ none
  forwards_not r e =
      rw e (no_forwarder (is_mesif cfg.protocol) (is_invalid_core r.forwarding_from) l'.forwarder)

  pub retrieve_asks :
      (next : ℕ → Controller N → Run (Controller N)) (q : ReqQueueList ShmemReq) (r : ShmemReq)
      → find_entry cfg.geometry (store_line d (in_slot n) l') a
        ≡ some (some (in_slot n), store_line d (in_slot n) l')
      → load_line (store_line d (in_slot n) l') (in_slot n) ≡ some l'
      → l'.dstate ≡ modified
      → c.nuca ≡ none
      → get_home cfg.home_lookup cfg.dram_cores a ≡ some node
      → size q a ≡ 1
      → front q a ≡ some r
      → retrieve_data_and_send cfg next
          (record c { cache = store_line d (in_slot n) l'; requests = q })
          ex_rep
          requester
          a
          none
        ≡ done (asked (set_front q a (record r { wait_for_data = true })))
  unfolding retrieve_data_and_send get_entry retrieve_remote
  retrieve_asks next q r found held is_m no_nuca home one first =
      let busy : ltb 0 (size q a) ≡ true = ground (arith, one) in
      rw found (rw no_nuca (rw busy (rw first (rw held (rw (forwards_not r is_m) (rw home refl))))))

module _ {R : Type 0} where
  pub first_of_empty :
      (q : ReqQueueList R) (a : ℕ) (r : R) → size q a ≡ 0 → enqueue q a r a ≡ some (r ∷ [])
  unfolding size enqueue
  first_of_empty q a r h =
      rw (==_refl a) (ap (λ l. some (l ++ r ∷ [])) (no_elements (queue_or_new (q a)) h))

  pub set_front_of_one :
      (q : ReqQueueList R) (a : ℕ) (r r' : R)
      → q a ≡ some (r ∷ [])
      → set_front q a r' a ≡ some (r' ∷ [])
  unfolding set_front
  set_front_of_one q a r r' h = rw (==_refl a) (ap (replace_front r') h)

  -- The only request of an address.
  pub only_request :
      (q : ReqQueueList R) (a : ℕ) (r : R)
      → q a ≡ some (r ∷ [])
      → (size q a ≡ 1)
        × (front q a ≡ some r)
        × ((q' : ReqQueueList R) × (dequeue q a ≡ some (r, q')) × (q' a ≡ none))
  unfolding size front dequeue
  only_request q a r h = (
    ap (λ o. length (queue_or_new o)) h,
    ap front_of h,
    ((λ b. if a == b then none else q b), ap (dequeue_from q a) h, rw (==_refl a) refl),
  )
