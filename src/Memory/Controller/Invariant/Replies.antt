-- ===== src/Memory/Controller/Invariant/Replies.antt =====
-- The handlers of the replies of caches and of DRAM.
use model_lib.Memory.RequestQueues.Each.{Each-front}
use model_lib.Prelude.{
  Option, false, if◌then◌else◌, ltb, none, not, refl, some, subst, sym, ℕ, ◌&&◌, ◌==◌, ◌||◌, ◌∙◌,
  ◌≡◌, ◌≤◌,
}
use model_lib.Memory.Run.{
  Run, Ensures, by_value, by_failure, Ensures-bind, Ensures-check, Ensures-require, Ensures-if,
  Ensures-weaken,
}
use model_lib.Memory.RequestQueues.{size, front}
use model_lib.Memory.Directory.Entry.{has_sharer, remove_sharer, count}
use model_lib.Memory.Directory.Store.{Line, shared}
use model_lib.Memory.Directory.Cache.{load_line}
use model_lib.Memory.Controller.State.{
  MsgType, ex_req, sh_req, upgrade_req, DataBuf, ShmemMsg, ShmemReq, Config, Controller,
}
use model_lib.Memory.Controller.Retrieve.{
  is_shared, is_invalid_core, write_entry, get_entry, send_data_to_nuca, send_data_to_dram,
}
use model_lib.Memory.Controller.Requests.{is_core}
use model_lib.Memory.Controller.Replies.{
  is_exclusive, is_uncached, settled, reply_type, after_inv, process_inv_rep, after_flush,
  process_flush_rep, after_wb, process_wb_rep, process_dram_reply,
}
use model_lib.Memory.Controller.Coherent.{remove_sharer-count, has_sharer-count, settled-Coherent}
use model_lib.Memory.Controller.Invariant.Serving.{
  AllCoherent, Serves, SameRequests, get_entry-SameRequests, OnlySent, send_data_to_nuca-OnlySent,
  send_data_to_dram-OnlySent, Filed, read-Coherent, write-AllCoherent, write_front-AllCoherent,
}
use model_lib.Memory.Controller.Invariant.Allocation.{process_nullify-AllCoherent}
use model_lib.Memory.Controller.Invariant.Exclusive.{process_ex-AllCoherent}
use model_lib.Memory.Controller.Invariant.Shared.{process_sh-AllCoherent}
use model_lib.Memory.Controller.Invariant.Upgrade.{process_upgrade-AllCoherent}

module _ {N : Type 0} (cfg : Config N) {n : ℕ} {next : ℕ → Controller N → Run (Controller N)}
    (serves : Serves n next) (some_fuel : 1 ≤ n) where
  -- The first request of an address has no more requests before it than the address.
  front_bound :
      (c : Controller N) (a : ℕ) {r : ShmemReq}
      → AllCoherent c
      → size c.requests a ≤ n
      → front c.requests a ≡ some r
      → size c.requests r.msg.address ≤ n
  front_bound c a h s e =
      subst (λ b. size c.requests b ≤ n) (sym (Each-front Filed c.requests a h.1 e)) s

  after_inv-AllCoherent :
      (t : MsgType) (c : Controller N) (r : ShmemReq) (l : Line) (sender : ℕ)
      → AllCoherent c
      → size c.requests r.msg.address ≤ n
      → Ensures AllCoherent (after_inv cfg next t c r l sender)
  after_inv-AllCoherent ex_req c r l sender h s =
      Ensures-if _ (is_uncached l.dstate) _ _
        (λ t. process_ex-AllCoherent cfg serves some_fuel c r none h s) (λ t. by_value h)
  after_inv-AllCoherent upgrade_req c r l sender h s =
      Ensures-if _ (count l.entry.sharers == 1) _ _
        (λ t.
          Ensures-if _ (has_sharer l.entry r.msg.requester) _ _
            (λ u. process_upgrade-AllCoherent cfg serves some_fuel c r none h s) (λ u. by_value h))
        (λ t.
          Ensures-if _ (count l.entry.sharers == 0) _ _
            (λ u. process_upgrade-AllCoherent cfg serves some_fuel c r none h s) (λ u. by_value h))
  after_inv-AllCoherent sh_req c r l sender h s =
      Ensures-if _ r.wait_for_data _ _ (λ t. by_value h)
        λ t.
          Ensures-if _
            (not (is_invalid_core r.forwarding_from) && not (is_core r.forwarding_from sender)) _ _
            (λ u. by_value h) (λ u. process_sh-AllCoherent cfg serves some_fuel c r none h s)
  after_inv-AllCoherent _ c r l sender h s =
      Ensures-if _ (is_uncached l.dstate) _ _
        (λ t. process_nullify-AllCoherent cfg serves c r h some_fuel s) (λ t. by_value h)

  pub process_inv_rep-AllCoherent :
      (c : Controller N) (sender : ℕ) (m : ShmemMsg)
      → AllCoherent c
      → size c.requests m.address ≤ n
      → Ensures AllCoherent (process_inv_rep cfg next c sender m)
  unfolding process_inv_rep
  process_inv_rep-AllCoherent c sender m h s =
      let a = m.address in
      Ensures-bind _ (SameRequests cfg c) (get_entry cfg c a) _ (get_entry-SameRequests cfg c a h)
        λ e k. Ensures-check _ (load_line e.1.cache e.0) _ λ l el.
          Ensures-require _ (is_shared l.dstate || is_exclusive l.dstate) _ λ t.
            Ensures-check _ (remove_sharer l.entry sender false) _ λ d ed.
              let l' : Line = settled (record l {
                entry = d;
                forwarder = if is_core l.forwarder sender then none else l.forwarder;
              }) in
              let c' : Controller N = write_entry e.1 e.0 l' in
              let h' : AllCoherent c' = write-AllCoherent e.1 e.0 l' k.0 (
                settled-Coherent l.dstate _ l.entry refl (read-Coherent e.1 e.0 k.0 el)
                  (remove_sharer-count l.entry sender ed)) in
              let s' : size c'.requests a ≤ n = subst (λ q. size q a ≤ n) (sym k.1) s in
              Ensures-if _ (ltb 0 (size c'.requests a)) _ _
                (λ u. Ensures-check _ (front c'.requests a) _ λ r er.
                  after_inv-AllCoherent r.msg.msg_type c' r l' sender h'
                    (front_bound c' a h' s' er))
                (λ u. by_value h')

  after_flush-AllCoherent :
      (t : MsgType) (c : Controller N) (r : ShmemReq) (l : Line) (m : ShmemMsg)
      → AllCoherent c
      → Filed m.address r
      → size c.requests r.msg.address ≤ n
      → Ensures AllCoherent (after_flush cfg next t c r l m)
  after_flush-AllCoherent ex_req c r l m h f s =
      process_ex-AllCoherent cfg serves some_fuel c r m.data_buf h s
  after_flush-AllCoherent sh_req c r l m h f s = Ensures-check _ m.data_buf _ λ b eb.
      Ensures-bind _ (OnlySent cfg c) (send_data_to_dram cfg c m.address m.requester b) _
        (send_data_to_dram-OnlySent cfg c m.address m.requester b h)
        λ c' k.
          process_sh-AllCoherent cfg serves some_fuel c' r (some b) k.0
            (subst (λ q. size q r.msg.address ≤ n) (sym k.1) s)
  after_flush-AllCoherent upgrade_req c r l m h f s =
      Ensures-if _ (count l.entry.sharers == 0) _ _
        (λ t. process_upgrade-AllCoherent cfg serves some_fuel c r m.data_buf h s)
        (λ t. by_value (write_front-AllCoherent c m.address _ h f))
  after_flush-AllCoherent _ c r l m h f s = Ensures-check _ m.data_buf _ λ b eb.
      Ensures-bind _ (OnlySent cfg c) (send_data_to_dram cfg c m.address m.requester b) _
        (send_data_to_dram-OnlySent cfg c m.address m.requester b h)
        λ c' k.
          process_nullify-AllCoherent cfg serves c' r k.0 some_fuel
            (subst (λ q. size q r.msg.address ≤ n) (sym k.1) s)

  pub process_flush_rep-AllCoherent :
      (c : Controller N) (sender : ℕ) (m : ShmemMsg)
      → AllCoherent c
      → size c.requests m.address ≤ n
      → Ensures AllCoherent (process_flush_rep cfg next c sender m)
  unfolding process_flush_rep
  process_flush_rep-AllCoherent c sender m h s =
      let a = m.address in
      Ensures-bind _ (SameRequests cfg c) (get_entry cfg c a) _ (get_entry-SameRequests cfg c a h)
        λ e k. Ensures-check _ (load_line e.1.cache e.0) _ λ l el.
          Ensures-check _ (remove_sharer l.entry sender false) _ λ d ed.
            let l' : Line =
              settled (record l { entry = record d { owner = none }; forwarder = none }) in
            Ensures-require _ (count l'.entry.sharers == 0 || is_shared l'.dstate) _ λ t.
              let c' : Controller N = write_entry e.1 e.0 l' in
              let h' : AllCoherent c' = write-AllCoherent e.1 e.0 l' k.0 (
                settled-Coherent l.dstate _ l.entry refl (read-Coherent e.1 e.0 k.0 el)
                  (remove_sharer-count l.entry sender ed)) in
              let s' : size c'.requests a ≤ n = subst (λ q. size q a ≤ n) (sym k.1) s in
              Ensures-if _ (size c'.requests a == 0) _ _
                (λ u. Ensures-check _ m.data_buf _ λ b eb.
                  Ensures-weaken _ (OnlySent cfg c') _
                    (send_data_to_dram-OnlySent cfg c' a m.requester b h') (λ c'' g. g.0))
                (λ u. Ensures-check _ (front c'.requests a) _ λ r er.
                  after_flush-AllCoherent r.msg.msg_type c' r l' m h'
                    (Each-front Filed c'.requests a h'.1 er) (front_bound c' a h' s' er))

  after_wb-AllCoherent :
      (t : MsgType) (c : Controller N) (r : ShmemReq) (b : Option DataBuf)
      → AllCoherent c
      → size c.requests r.msg.address ≤ n
      → Ensures AllCoherent (after_wb cfg next t c r b)
  after_wb-AllCoherent sh_req c r b h s = process_sh-AllCoherent cfg serves some_fuel c r b h s
  after_wb-AllCoherent _ c r b h s = by_failure

  pub process_wb_rep-AllCoherent :
      (c : Controller N) (sender : ℕ) (m : ShmemMsg)
      → AllCoherent c
      → size c.requests m.address ≤ n
      → Ensures AllCoherent (process_wb_rep cfg next c sender m)
  unfolding process_wb_rep
  process_wb_rep-AllCoherent c sender m h s =
      let a = m.address in
      Ensures-bind _ (SameRequests cfg c) (get_entry cfg c a) _ (get_entry-SameRequests cfg c a h)
        λ e k. Ensures-check _ (load_line e.1.cache e.0) _ λ l el.
          Ensures-require _ (has_sharer l.entry sender) _ λ has.
            let l' : Line = record l { entry = record l.entry { owner = none }; dstate = shared } in
            let c' : Controller N = write_entry e.1 e.0 l' in
            let h' : AllCoherent c' =
              write-AllCoherent e.1 e.0 l' k.0 (has_sharer-count l.entry sender has) in
            Ensures-require _ (not (size c'.requests a == 0)) _ λ t.
              Ensures-check _ (front c'.requests a) _ λ r er.
                after_wb-AllCoherent r.msg.msg_type c' r m.data_buf h'
                  (front_bound c' a h' (subst (λ q. size q a ≤ n) (sym k.1) s) er)

  pub process_dram_reply-AllCoherent :
      (c : Controller N) (sender : ℕ) (m : ShmemMsg)
      → AllCoherent c
      → size c.requests m.address ≤ n
      → Ensures AllCoherent (process_dram_reply cfg next c sender m)
  unfolding process_dram_reply
  process_dram_reply-AllCoherent c sender m h s =
      let a = m.address in
      Ensures-require _ (ltb 0 (size c.requests a)) _ λ t.
        Ensures-check _ (front c.requests a) _ λ r er.
          Ensures-bind _ (SameRequests cfg c) (get_entry cfg c a) _
            (get_entry-SameRequests cfg c a h)
            λ e k. Ensures-check _ (load_line e.1.cache e.0) _ λ l el.
              Ensures-check _ (reply_type r.msg.msg_type l.dstate) _ λ t et.
                Ensures-check _ m.data_buf _ λ b eb.
                  Ensures-bind _ (OnlySent cfg e.1) (send_data_to_nuca cfg _ a b) _
                    (send_data_to_nuca-OnlySent cfg _ a b k.0)
                    λ c' g.
                      serves.keeps a c' g.0 some_fuel
                        (subst (λ q. size q a ≤ n) (sym (g.1 ∙ k.1)) s)
