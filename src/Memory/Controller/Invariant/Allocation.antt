-- ===== src/Memory/Controller/Invariant/Allocation.antt =====
-- The entry that a request gets, with the replacement and the nullification of another.
use model_lib.Prelude.{
  ==_iff, Bool-cases, Option, ap, arith, guard-eq-some, inl, inr, none, refl, some, subst,
  subst_some, sym, ℕ, ◌==◌, ◌∙◌, ◌≡◌, ◌≤◌,
}
use model_lib.Memory.Run.{
  Run, Ensures, by_value, by_failure, Ensures-bind, Ensures-check, Ensures-require, Ensures-weaken,
}
use model_lib.Memory.RequestQueues.{ReqQueueList, size, enqueue}
use model_lib.Memory.RequestQueues.Each.{Each, Each-enqueue}
use model_lib.Memory.RequestQueues.Sizes.{size-enqueue}
use native.Mathlib.Nat.{le_trans}
use model_lib.Memory.Directory.Entry.{sharers_list}
use model_lib.Memory.Directory.Store.{
  DirectoryState, uncached, shared, owned, modified, exclusive, Line,
}
use model_lib.Memory.Directory.Cache.{
  Pointer, DirectoryCache, find_entry, load_line, candidates, replace_entry, invalidate_entry,
}
use model_lib.Memory.Directory.Cache.Every.{
  EveryLine, find_entry-Every, candidates-Every, replace_entry-Every, invalidate_entry-Every,
}
use model_lib.Memory.Controller.State.{ShmemMsg, ShmemReq, is_null, create_req, Config, Controller}
use model_lib.Memory.Controller.Retrieve.{with_cache, get_entry}
use model_lib.Memory.Controller.Allocate.{
  evictions_with, pick, invalidations, nullify_by_state, process_nullify, nullify_msg,
  start_nullify, replace_line, process_allocation, found_or_allocated, entry_for,
}
use model_lib.Memory.Controller.Coherent.{Coherent, Coherent-admitted}
use model_lib.Memory.Controller.Invariant.Serving.{
  Filed, AllCoherent, NoMoreRequests, Serves, send_all-AllCoherent, send_all-requests, SameRequests,
  get_entry-SameRequests,
}

-- A request holds a copy of its message.
pub create_req-msg : (m : ShmemMsg) {r : ShmemReq} → create_req m ≡ some r → r.msg ≡ m
unfolding create_req
create_req-msg m {r} e =
    subst_some (λ (x : ShmemReq). x.msg ≡ m) (guard-eq-some (is_null m.data_buf) _ e).1 refl

module _ {N : Type 0} (cfg : Config N) (next : ℕ → Controller N → Run (Controller N)) where
  -- A nullification sends messages, or forgets the entry and lets the next request proceed.
  nullify_by_state-Ensures :
      (P : Controller N → Type 0) (t : DirectoryState) (c : Controller N) (l : Line)
      (requester a : ℕ)
      → AllCoherent c
      → ((c' : Controller N) → AllCoherent c' → c'.requests ≡ c.requests → P c')
      → ((d : DirectoryCache) → AllCoherent (with_cache c d) → Ensures P (next a (with_cache c d)))
      → Ensures P (nullify_by_state cfg next t c l requester a)
  nullify_by_state-Ensures P exclusive c l requester a h p k = by_value (p _ h refl)
  nullify_by_state-Ensures P modified c l requester a h p k = by_value (p _ h refl)
  nullify_by_state-Ensures P shared c l requester a h p k =
      let ms = invalidations requester a (sharers_list l.entry) in
      by_value (p _ (send_all-AllCoherent c ms h) (send_all-requests c ms))
  nullify_by_state-Ensures P uncached c l requester a h p k =
      Ensures-check P (invalidate_entry c.cache a) _
        λ d e. k d (invalidate_entry-Every Coherent c.cache a h.0 e, h.1)
  nullify_by_state-Ensures P owned c l requester a h p k = by_failure

module _ {N : Type 0} (cfg : Config N) {n : ℕ} {next : ℕ → Controller N → Run (Controller N)}
    (serves : Serves n next) where
  pub process_nullify-AllCoherent :
      (c : Controller N) (r : ShmemReq)
      → AllCoherent c
      → 1 ≤ n
      → size c.requests r.msg.address ≤ n
      → Ensures AllCoherent (process_nullify cfg next c r)
  unfolding process_nullify
  process_nullify-AllCoherent c r h m s =
      let a = r.msg.address in
      Ensures-bind _ (SameRequests cfg c) (get_entry cfg c a) _ (get_entry-SameRequests cfg c a h)
        λ e k. Ensures-check _ (load_line e.1.cache e.0) _ λ l e'.
          nullify_by_state-Ensures cfg next AllCoherent l.dstate e.1 l r.msg.requester a k.0
            (λ c' g same. g)
            (λ d g. serves.keeps a (with_cache e.1 d) g m (subst (λ q. size q a ≤ n) (sym k.1) s))

  -- Of the only request for its address.
  nullify-NoMoreRequests :
      (c : Controller N) (r : ShmemReq)
      → AllCoherent c
      → 1 ≤ n
      → size c.requests r.msg.address ≡ 1
      → Ensures (NoMoreRequests c) (process_nullify cfg next c r)
  unfolding process_nullify
  nullify-NoMoreRequests c r h m s =
      let a = r.msg.address in
      Ensures-bind _ (SameRequests cfg c) (get_entry cfg c a) _ (get_entry-SameRequests cfg c a h)
        λ e k. Ensures-check _ (load_line e.1.cache e.0) _ λ l e'.
          nullify_by_state-Ensures cfg next (NoMoreRequests c) l.dstate e.1 l r.msg.requester a k.0
            (λ c' g same.
              (g, λ b. subst (λ q. size q b ≤ size c.requests b) (sym (same ∙ k.1)) (omega arith)))
            (λ d g.
              Ensures-weaken (NoMoreRequests c) (NoMoreRequests (with_cache e.1 d)) _
                (serves.alone a (with_cache e.1 d) g m (subst (λ q. size q a ≡ 1) (sym k.1) s))
                (λ c' g'. (g'.0, λ b. subst (λ q. size c'.requests b ≤ size q b) k.1 (g'.1 b))))

  -- Coherent entries, and at most `n` requests for the address.
  abbrev pub Ready : ℕ → Pointer × Controller N → Type 0
  Ready a e = AllCoherent e.1 × (size e.1.requests a ≤ n)

  enqueued_bound :
      (q : ReqQueueList ShmemReq) (v a : ℕ) (r : ShmemReq)
      → size (enqueue q v r) v ≡ 1
      → size q a ≤ n
      → 1 ≤ n
      → size (enqueue q v r) a ≤ n
  enqueued_bound q v a r one s m = elim (Bool-cases (v == a)) [
    | inl t ↦ subst (λ b. size (enqueue q v r) b ≤ n) ((==_iff v a).0 t) (omega (arith, one))
    | inr t ↦
        let same : size (enqueue q v r) a ≡ size q a = size-enqueue q v r a ∙ (rw t refl) in
        omega (arith, same)
  ]

  -- With the victim's address, the new entry and the nullify request at hand.
  started-Ready :
      (c : Controller N) (r nr : ShmemReq) (v : ℕ) (f : Pointer × DirectoryCache)
      (t : DirectoryState)
      → nr.msg.address ≡ v
      → EveryLine Coherent f.1
      → Each Filed c.requests
      → 1 ≤ n
      → size c.requests r.msg.address ≤ n
      → Ensures (Ready r.msg.address) (
          start_nullify cfg next
            (record c {
              cache = f.1;
              requests = enqueue c.requests v nr;
              evict = evictions_with c.evict t;
            })
            f.0
            v
            nr)
  unfolding start_nullify
  started-Ready c r nr v f t ev h filed m s =
      let c' : Controller N = record c {
        cache = f.1;
        requests = enqueue c.requests v nr;
        evict = evictions_with c.evict t;
      } in
      Ensures-require _ (size c'.requests v == 1) _ λ one.
        let only : size c'.requests v ≡ 1 = (==_iff _ 1).0 one in
        Ensures-bind _ (NoMoreRequests c') (process_nullify cfg next c' nr) _
          (nullify-NoMoreRequests c' nr (h, Each-enqueue Filed c.requests v nr filed ev) m
            (subst (λ b. size c'.requests b ≡ 1) (sym ev) only))
          λ c'' g. by_value (
            g.0,
            le_trans (g.1 r.msg.address) (enqueued_bound c.requests v r.msg.address nr only s m),
          )

  replace_line-Ready :
      (c : Controller N) (r : ShmemReq) (victim : Line)
      → AllCoherent c
      → 1 ≤ n
      → size c.requests r.msg.address ≤ n
      → Ensures (Ready r.msg.address) (replace_line cfg next c r victim)
  unfolding replace_line
  replace_line-Ready c r victim h m s = Ensures-check _ victim.address _ λ v ev.
      Ensures-check _ (replace_entry cfg.geometry c.cache v r.msg.address) _ λ f ef.
        Ensures-check _ (create_req (nullify_msg r.msg.requester v)) _ λ nr en.
          started-Ready c r nr v f victim.dstate
            (ap (λ (x : ShmemMsg). x.address) (create_req-msg _ en))
            (replace_entry-Every cfg.geometry (Coherent-admitted cfg.geometry.scheme) c.cache v
              r.msg.address h.0 ef)
            h.1 m s

  process_allocation-Ready :
      (c : Controller N) (r : ShmemReq)
      → AllCoherent c
      → 1 ≤ n
      → size c.requests r.msg.address ≤ n
      → Ensures (Ready r.msg.address) (process_allocation cfg next c r)
  unfolding process_allocation
  process_allocation-Ready c r h m s =
      Ensures-check _ (candidates _ _ _ 0 c.cache.directory) _ λ found e.
        Ensures-check _ (pick c.requests none found.0) _ λ victim e'.
          replace_line-Ready _ r victim
            ((candidates-Every (Coherent-admitted cfg.geometry.scheme) _ _ 0 _ h.0.0 e, h.0.1), h.1)
            m s

  found_or_allocated-Ready :
      (o : Option Pointer) (c : Controller N) (r : ShmemReq)
      → AllCoherent c
      → 1 ≤ n
      → size c.requests r.msg.address ≤ n
      → Ensures (Ready r.msg.address) (found_or_allocated cfg next o c r)
  found_or_allocated-Ready (some p) c r h m s = by_value (h, s)
  found_or_allocated-Ready none c r h m s = process_allocation-Ready c r h m s

  pub entry_for-Ready :
      (c : Controller N) (r : ShmemReq)
      → AllCoherent c
      → 1 ≤ n
      → size c.requests r.msg.address ≤ n
      → Ensures (Ready r.msg.address) (entry_for cfg next c r)
  unfolding entry_for
  entry_for-Ready c r h m s =
      Ensures-check _ (find_entry cfg.geometry c.cache r.msg.address) _ λ f e.
        found_or_allocated-Ready f.0 (with_cache c f.1) r
          (
            find_entry-Every cfg.geometry (Coherent-admitted cfg.geometry.scheme) c.cache _ h.0 e,
            h.1,
          )
          m s
