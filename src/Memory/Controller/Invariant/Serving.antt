-- ===== src/Memory/Controller/Invariant/Serving.antt =====
-- What the handlers may assume of `processNextReqFromL2Cache`, and what that gives for the
-- retrieval of a block.
use model_lib.Memory.Directory.Store.{Line}
use model_lib.Memory.RequestQueues.Each.{Each, Each-set_front, Each-front}
use model_lib.Prelude.{List, Option, [], ltb, none, refl, some, subst, sym, true, ℕ, ◌∷◌, ◌≡◌, ◌≤◌}
use model_lib.Memory.Run.{Run, Ensures, by_value, Ensures-bind, Ensures-check, Ensures-require}
use model_lib.Memory.RequestQueues.{size, front}
use model_lib.Memory.Directory.Cache.{Pointer, find_entry, load_line}
use model_lib.Memory.Directory.Cache.Every.{
  EveryLine, find_entry-Every, load_line-Every, store_line-Every,
}
use model_lib.Memory.Controller.State.{
  MsgType, DataBuf, ShmemReq, Config, Controller, Sent, get_home, send, send_all,
}
use model_lib.Memory.Controller.Retrieve.{
  get_entry, forwarder_to_ask, ask_forwarder, retrieve_remote, evicted_to_dram, write_nuca,
  send_data_to_nuca, write_dram, send_data_to_dram, nuca_answered, retrieve_nuca, retrieve_from,
  retrieve_data_and_send, write_front, write_entry,
}
use model_lib.Memory.Controller.Coherent.{Coherent, Coherent-admitted}

-- A request is queued for its own address.
abbrev pub Filed : ℕ → ShmemReq → Type 0
Filed a r = r.msg.address ≡ a

module _ {N : Type 0} where
  -- Every entry of the controller is coherent, and every request is queued for the address that it
  -- names.
  abbrev pub AllCoherent : Controller N → Type 0
  AllCoherent c = EveryLine Coherent c.cache × Each Filed c.requests

  -- All entries are coherent, and no more requests are queued than in `c`.
  abbrev pub NoMoreRequests : Controller N → Controller N → Type 0
  NoMoreRequests c c' = AllCoherent c' × ((b : ℕ) → size c'.requests b ≤ size c.requests b)

  -- `next` keeps the entries coherent as long as at most `n` requests are queued for its address;
  -- and if there is just the one that is done, it only takes that away.
  pub record Serves (n : ℕ) (next : ℕ → Controller N → Run (Controller N)) : Type 0 where
    pub keeps :
        (a : ℕ) (c : Controller N)
        → AllCoherent c
        → 1 ≤ n
        → size c.requests a ≤ n
        → Ensures AllCoherent (next a c)
    pub alone :
        (a : ℕ) (c : Controller N)
        → AllCoherent c
        → 1 ≤ n
        → size c.requests a ≡ 1
        → Ensures (NoMoreRequests c) (next a c)

module _ {N : Type 0} where
  pub send_all-AllCoherent :
      (c : Controller N) (ms : List Sent) → AllCoherent c → AllCoherent (send_all c ms)
  send_all-AllCoherent c [] h = h
  send_all-AllCoherent c (m ∷ ms) h = send_all-AllCoherent (send c m) ms h

  pub read-Coherent :
      (c : Controller N) (p : Pointer) {l : Line}
      → AllCoherent c
      → load_line c.cache p ≡ some l
      → Coherent l
  read-Coherent c p h e = load_line-Every Coherent c.cache p h.0 e

  pub write-AllCoherent :
      (c : Controller N) (p : Pointer) (l : Line)
      → AllCoherent c
      → Coherent l
      → AllCoherent (write_entry c p l)
  write-AllCoherent c p l h k = (store_line-Every Coherent c.cache p l h.0 k, h.1)

  pub write_front-AllCoherent :
      (c : Controller N) (a : ℕ) (r : ShmemReq)
      → AllCoherent c
      → Filed a r
      → AllCoherent (write_front c a r)
  write_front-AllCoherent c a r h k = (h.0, Each-set_front Filed c.requests a r h.1 k)

  pub send_all-requests :
      (c : Controller N) (ms : List Sent) → (send_all c ms).requests ≡ c.requests
  send_all-requests c [] = refl
  send_all-requests c (m ∷ ms) = send_all-requests (send c m) ms

module _ {N : Type 0} (cfg : Config N) where
  -- The entries stay coherent, and the requests stay.
  abbrev pub SameRequests : Controller N → Pointer × Controller N → Type 0
  SameRequests c e = AllCoherent e.1 × (e.1.requests ≡ c.requests)

  pub get_entry-SameRequests :
      (c : Controller N) (a : ℕ) → AllCoherent c → Ensures (SameRequests c) (get_entry cfg c a)
  unfolding get_entry
  get_entry-SameRequests c a h = Ensures-check _ (find_entry cfg.geometry c.cache a) _ λ r e.
      Ensures-check _ r.0 _ λ p e'. by_value (
        (
          find_entry-Every cfg.geometry (Coherent-admitted cfg.geometry.scheme) c.cache a h.0 e,
          h.1,
        ),
        refl,
      )

  ask_forwarder-AllCoherent :
      (c : Controller N) (receiver a : ℕ) (r : ShmemReq) (o : Option ℕ)
      → AllCoherent c
      → Filed a r
      → Ensures AllCoherent (ask_forwarder cfg c receiver a r o)
  ask_forwarder-AllCoherent c receiver a r (some f) h k =
      by_value (write_front-AllCoherent c a (record r { forwarding_from = some f }) h k)
  ask_forwarder-AllCoherent c receiver a r none h k =
      Ensures-check _ (get_home cfg.home_lookup cfg.dram_cores a) _
        λ n e. by_value (write_front-AllCoherent c a (record r { wait_for_data = true }) h k)

  retrieve_remote-AllCoherent :
      (c : Controller N) (p : Pointer) (receiver a : ℕ)
      → AllCoherent c
      → Ensures AllCoherent (retrieve_remote cfg c p receiver a)
  unfolding retrieve_remote
  retrieve_remote-AllCoherent c p receiver a h =
      Ensures-require _ (ltb 0 (size c.requests a)) _ λ t.
        Ensures-check _ (front c.requests a) _ λ r e.
          Ensures-check _ (load_line c.cache p) _ λ l e'.
            ask_forwarder-AllCoherent c receiver a r (forwarder_to_ask cfg r l) h
              (Each-front Filed c.requests a h.1 e)

  -- Entries stay coherent and the requests are the same.
  abbrev pub OnlySent : Controller N → Controller N → Type 0
  OnlySent c c' = AllCoherent c' × (c'.requests ≡ c.requests)

  evicted_to_dram-OnlySent :
      (c : Controller N) (o : Option (ℕ × DataBuf))
      → AllCoherent c
      → Ensures (OnlySent c) (evicted_to_dram cfg c o)
  evicted_to_dram-OnlySent c none h = by_value (h, refl)
  evicted_to_dram-OnlySent c (some (a, b)) h =
      Ensures-check _ (get_home cfg.home_lookup cfg.dram_cores a) _ λ n e. by_value (h, refl)

  write_nuca-OnlySent :
      (c : Controller N) (o : Option N) (a : ℕ) (b : DataBuf)
      → AllCoherent c
      → Ensures (OnlySent c) (write_nuca cfg c o a b)
  write_nuca-OnlySent c none a b h = by_value (h, refl)
  write_nuca-OnlySent c (some n) a b h =
      let w = cfg.nuca_cache.write n a b in
      evicted_to_dram-OnlySent (record c { nuca = some w.1 }) w.0 h

  pub send_data_to_nuca-OnlySent :
      (c : Controller N) (a : ℕ) (b : DataBuf)
      → AllCoherent c
      → Ensures (OnlySent c) (send_data_to_nuca cfg c a b)
  unfolding send_data_to_nuca
  send_data_to_nuca-OnlySent c a b h = write_nuca-OnlySent c c.nuca a b h

  write_dram-OnlySent :
      (c : Controller N) (o : Option N) (a requester : ℕ) (b : DataBuf)
      → AllCoherent c
      → Ensures (OnlySent c) (write_dram cfg c o a requester b)
  write_dram-OnlySent c (some n) a requester b h = send_data_to_nuca-OnlySent c a b h
  write_dram-OnlySent c none a requester b h =
      Ensures-check _ (get_home cfg.home_lookup cfg.dram_cores a) _ λ n e. by_value (h, refl)

  pub send_data_to_dram-OnlySent :
      (c : Controller N) (a requester : ℕ) (b : DataBuf)
      → AllCoherent c
      → Ensures (OnlySent c) (send_data_to_dram cfg c a requester b)
  unfolding send_data_to_dram
  send_data_to_dram-OnlySent c a requester b h = write_dram-OnlySent c c.nuca a requester b h

module _ {N : Type 0} (cfg : Config N) {n : ℕ} {next : ℕ → Controller N → Run (Controller N)}
    (serves : Serves n next) (some_fuel : 1 ≤ n) where
  nuca_answered-AllCoherent :
      (c : Controller N) (p : Pointer) (t : MsgType) (receiver a : ℕ) (o : Option DataBuf)
      → AllCoherent c
      → size c.requests a ≤ n
      → Ensures AllCoherent (nuca_answered cfg next c p t receiver a o)
  nuca_answered-AllCoherent c p t receiver a (some b) h s = serves.keeps a _ h some_fuel s
  nuca_answered-AllCoherent c p t receiver a none h s =
      retrieve_remote-AllCoherent cfg c p receiver a h

  retrieve_nuca-AllCoherent :
      (c : Controller N) (o : Option N) (p : Pointer) (t : MsgType) (receiver a : ℕ)
      → AllCoherent c
      → size c.requests a ≤ n
      → Ensures AllCoherent (retrieve_nuca cfg next c o p t receiver a)
  retrieve_nuca-AllCoherent c none p t receiver a h s =
      retrieve_remote-AllCoherent cfg c p receiver a h
  retrieve_nuca-AllCoherent c (some m) p t receiver a h s =
      let r = cfg.nuca_cache.read m a in
      nuca_answered-AllCoherent (record c { nuca = some r.1 }) p t receiver a r.0 h s

  retrieve_from-AllCoherent :
      (c : Controller N) (p : Pointer) (t : MsgType) (receiver a : ℕ) (o : Option DataBuf)
      → AllCoherent c
      → size c.requests a ≤ n
      → Ensures AllCoherent (retrieve_from cfg next c p t receiver a o)
  retrieve_from-AllCoherent c p t receiver a (some b) h s =
      Ensures-check _ (load_line c.cache p) _
        λ l e. serves.keeps a _ (write-AllCoherent c p _ h (read-Coherent c p h e)) some_fuel s
  retrieve_from-AllCoherent c p t receiver a none h s =
      retrieve_nuca-AllCoherent c c.nuca p t receiver a h s

  pub retrieve-AllCoherent :
      (c : Controller N) (t : MsgType) (receiver a : ℕ) (o : Option DataBuf)
      → AllCoherent c
      → size c.requests a ≤ n
      → Ensures AllCoherent (retrieve_data_and_send cfg next c t receiver a o)
  unfolding retrieve_data_and_send
  retrieve-AllCoherent c t receiver a o h s =
      Ensures-bind _ (SameRequests cfg c) (get_entry cfg c a) _ (get_entry-SameRequests cfg c a h)
        λ e k.
          retrieve_from-AllCoherent e.1 e.0 t receiver a o k.0
            (subst (λ q. size q a ≤ n) (sym k.1) s)
