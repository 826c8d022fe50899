-- ===== src/Memory/Controller/Invariant/Runs.antt =====
-- All messages that the controller handles.
use native.Mathlib.Nat.{le_trans}
use model_lib.Prelude.{
  ==_refl, Bool-cases, List, Option, [], ap, arith, inl, inr, leb, none, refl, subst, suc, sym,
  true, zero, ℕ, ◌-◌, ◌==◌, ◌∙◌, ◌∷◌, ◌≡◌, ◌≤◌,
}
use model_lib.Memory.Run.{
  Run, Ensures, by_value, by_failure, Ensures-bind, Ensures-check, Ensures-require, Ensures-if,
}
use model_lib.Memory.RequestQueues.{size, dequeue, enqueue, front, is_empty}
use model_lib.Memory.RequestQueues.Each.{Each-dequeue, Each-enqueue, Each-front}
use model_lib.Memory.RequestQueues.Sizes.{size-dequeue, is_empty-dequeue, front-size}
use model_lib.Memory.Directory.Cache.{find_entry}
use model_lib.Memory.Directory.Cache.Every.{find_entry-Every, create_directory_cache-Every}
use model_lib.Memory.Controller.State.{
  MsgType, ex_req, sh_req, upgrade_req, inv_rep, flush_rep, wb_rep, dram_read_rep, ShmemMsg,
  ShmemReq, create_req, Config, Controller, create_controller,
}
use model_lib.Memory.Controller.Retrieve.{with_cache}
use model_lib.Memory.Controller.Handle.{
  process_request, start_front, process_next, next_request, queue_request, dispatch, handle_from_l2,
  dispatch_dram, handle_from_dram, Arrival, from_l2, from_dram, handle, handle_all,
}
use model_lib.Memory.Controller.Coherent.{Coherent, Coherent-admitted}
use model_lib.Memory.Controller.Invariant.Serving.{AllCoherent, NoMoreRequests, Serves, Filed}
use model_lib.Memory.Controller.Invariant.Allocation.{create_req-msg}
use model_lib.Memory.Controller.Invariant.Exclusive.{process_ex-AllCoherent}
use model_lib.Memory.Controller.Invariant.Shared.{process_sh-AllCoherent}
use model_lib.Memory.Controller.Invariant.Upgrade.{process_upgrade-AllCoherent}
use model_lib.Memory.Controller.Invariant.Replies.{
  process_inv_rep-AllCoherent, process_flush_rep-AllCoherent, process_wb_rep-AllCoherent,
  process_dram_reply-AllCoherent,
}

module _ {N : Type 0} (cfg : Config N) where
  process_request-AllCoherent :
      {n : ℕ} {next : ℕ → Controller N → Run (Controller N)} (serves : Serves n next) (t : MsgType)
      (c : Controller N) (r : ShmemReq)
      → 1 ≤ n
      → AllCoherent c
      → size c.requests r.msg.address ≤ n
      → Ensures AllCoherent (process_request cfg next t c r)
  process_request-AllCoherent serves ex_req c r m h s =
      process_ex-AllCoherent cfg serves m c r none h s
  process_request-AllCoherent serves sh_req c r m h s =
      process_sh-AllCoherent cfg serves m c r none h s
  process_request-AllCoherent serves upgrade_req c r m h s =
      process_upgrade-AllCoherent cfg serves m c r none h s
  process_request-AllCoherent serves _ c r m h s = by_failure

  start_front-AllCoherent :
      {n : ℕ} {next : ℕ → Controller N → Run (Controller N)} (serves : Serves n next) (a : ℕ)
      (c : Controller N)
      → AllCoherent c
      → size c.requests a ≤ n
      → Ensures AllCoherent (start_front cfg next a c)
  start_front-AllCoherent {n} serves a c h s =
      Ensures-if _ (is_empty c.requests a) _ _ (λ t. by_value h)
        λ t. Ensures-check _ (front c.requests a) _ λ r e.
          process_request-AllCoherent serves r.msg.msg_type c r
            (le_trans (front-size c.requests a e) s) h
            (subst (λ b. size c.requests b ≤ n) (sym (Each-front Filed c.requests a h.1 e)) s)

  -- One request is taken away; what is left fits the smaller fuel.
  next-keeps :
      (n : ℕ)
      → Serves n (process_next cfg n)
      → (a : ℕ) (c : Controller N) → AllCoherent c
      → size c.requests a ≤ suc n
      → Ensures AllCoherent (process_next cfg (suc n) a c)
  unfolding process_next
  next-keeps n serves a c h s = Ensures-require _ (leb 1 (size c.requests a)) _ λ t.
      Ensures-check _ (dequeue c.requests a) _ λ q e.
        let left : size q.1 a ≡ size c.requests a - 1 =
          size-dequeue c.requests a a e ∙ (rw (==_refl a) refl) in
        start_front-AllCoherent serves a (record c { requests = q.1 })
          (h.0, Each-dequeue Filed c.requests a h.1 e) (omega (arith, left))

  next-alone :
      (n : ℕ) (a : ℕ) (c : Controller N)
      → AllCoherent c
      → size c.requests a ≡ 1
      → Ensures (NoMoreRequests c) (process_next cfg (suc n) a c)
  unfolding process_next
  next-alone n a c h s = Ensures-require _ (leb 1 (size c.requests a)) _ λ t.
      Ensures-check _ (dequeue c.requests a) _ λ q e.
        let gone : is_empty q.1 a ≡ true = is_empty-dequeue c.requests a s e in
        rw gone (
          by_value (
            (h.0, Each-dequeue Filed c.requests a h.1 e),
            λ b. elim (Bool-cases (a == b)) [
              | inl u ↦
                  let less : size q.1 b ≡ size c.requests b - 1 =
                    size-dequeue c.requests a b e ∙ (rw u refl) in
                  omega (arith, less)
              | inr u ↦
                  let same : size q.1 b ≡ size c.requests b =
                    size-dequeue c.requests a b e ∙ (rw u refl) in
                  omega (arith, same)
            ],
          ))

  -- With a fuel of `n`, `processNextReqFromL2Cache` serves addresses with up to `n` requests.
  pub process_next-Serves : (n : ℕ) → Serves n (process_next cfg n)
  process_next-Serves zero = record {
    keeps = λ a c h m s. absurd (omega arith);
    alone = λ a c h m s. absurd (omega arith);
  }
  process_next-Serves (suc n) = record {
    keeps = λ a c h m s. next-keeps n (process_next-Serves n) a c h s;
    alone = λ a c h m s. next-alone n a c h s;
  }

  next_request-Serves :
      (c : Controller N) (a : ℕ) → Serves (suc (size c.requests a)) (next_request cfg c a)
  unfolding next_request
  next_request-Serves c a = process_next-Serves (suc (size c.requests a))

  queue_request-AllCoherent :
      (c : Controller N) (m : ShmemMsg)
      → AllCoherent c
      → Ensures AllCoherent (queue_request cfg c m)
  queue_request-AllCoherent c m h = Ensures-check _ (create_req m) _ λ r e.
      let filed : r.msg.address ≡ m.address =
        ap (λ (x : ShmemMsg). x.address) (create_req-msg m e) in
      let c' : Controller N = record c { requests = enqueue c.requests m.address r } in
      let h' : AllCoherent c' = (h.0, Each-enqueue Filed c.requests m.address r h.1 filed) in
      Ensures-if _ (size c'.requests m.address == 1) _ _
        (λ t.
          process_request-AllCoherent (next_request-Serves c' m.address) m.msg_type c' r
            (omega arith) h'
            (subst (λ b. size c'.requests b ≤ suc (size c'.requests m.address)) (sym filed)
              (omega arith)))
        (λ t. by_value h')

  dispatch-AllCoherent :
      (t : MsgType) (c : Controller N) (sender : ℕ) (m : ShmemMsg)
      → AllCoherent c
      → Ensures AllCoherent (dispatch cfg t c sender m)
  dispatch-AllCoherent ex_req c sender m h = queue_request-AllCoherent c m h
  dispatch-AllCoherent sh_req c sender m h = queue_request-AllCoherent c m h
  dispatch-AllCoherent upgrade_req c sender m h = queue_request-AllCoherent c m h
  dispatch-AllCoherent inv_rep c sender m h =
      process_inv_rep-AllCoherent cfg (next_request-Serves c m.address) (omega arith) c sender m h
        (omega arith)
  dispatch-AllCoherent flush_rep c sender m h =
      process_flush_rep-AllCoherent cfg (next_request-Serves c m.address) (omega arith) c sender m h
        (omega arith)
  dispatch-AllCoherent wb_rep c sender m h =
      process_wb_rep-AllCoherent cfg (next_request-Serves c m.address) (omega arith) c sender m h
        (omega arith)
  dispatch-AllCoherent _ c sender m h = by_failure

  -- Whatever message arrives from an L2 cache.
  pub handle_from_l2-AllCoherent :
      (c : Controller N) (sender : ℕ) (m : ShmemMsg)
      → AllCoherent c
      → Ensures AllCoherent (handle_from_l2 cfg c sender m)
  unfolding handle_from_l2
  handle_from_l2-AllCoherent c sender m h =
      Ensures-check _ (find_entry cfg.geometry c.cache m.address) _ λ f e.
        dispatch-AllCoherent m.msg_type (with_cache c f.1) sender m (
          find_entry-Every cfg.geometry (Coherent-admitted cfg.geometry.scheme) c.cache m.address
              h.0 e,
          h.1,
        )

  dispatch_dram-AllCoherent :
      (t : MsgType) (c : Controller N) (sender : ℕ) (m : ShmemMsg)
      → AllCoherent c
      → Ensures AllCoherent (dispatch_dram cfg t c sender m)
  dispatch_dram-AllCoherent dram_read_rep c sender m h =
      process_dram_reply-AllCoherent cfg (next_request-Serves c m.address) (omega arith) c sender m
        h (omega arith)
  dispatch_dram-AllCoherent _ c sender m h = by_failure

  -- Whatever message arrives keeps every entry coherent, if no assertion fails, and the fuel suffices.
  pub handle-AllCoherent :
      (c : Controller N) (a : Arrival) → AllCoherent c → Ensures AllCoherent (handle cfg c a)
  unfolding handle handle_from_dram
  handle-AllCoherent c (from_l2 sender m) h = handle_from_l2-AllCoherent c sender m h
  handle-AllCoherent c (from_dram sender m) h = dispatch_dram-AllCoherent m.msg_type c sender m h

  pub handle_all-AllCoherent :
      (c : Controller N) (as' : List Arrival)
      → AllCoherent c
      → Ensures AllCoherent (handle_all cfg c as')
  unfolding handle_all
  handle_all-AllCoherent c [] h = by_value h
  handle_all-AllCoherent c (a ∷ as') h =
      Ensures-bind _ AllCoherent (handle cfg c a) _ (handle-AllCoherent c a h)
        λ c' k. handle_all-AllCoherent c' as' k

  pub create-AllCoherent :
      (total : ℕ) (nuca : Option N) → AllCoherent (create_controller total nuca)
  unfolding create_controller
  create-AllCoherent total nuca = (create_directory_cache-Every Coherent total, λ a. tt)
