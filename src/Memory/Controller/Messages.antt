-- ===== src/Memory/Controller/Messages.antt =====
-- Which caches the controller asks to give up a block, and which entry it replaces.
use model_lib.Memory.Directory.Cache.{Pointer}
use model_lib.Memory.Run.{Run, done}
use model_lib.Prelude.{
  ==_iff, All, Bool, Bool-cases, List, Option, [], ap, arith, false, get_elem?, if◌then◌else◌, inl,
  inr, length, ltb, none, not, refl, some, suc, sym, true, ℕ, ◌&&◌, ◌==◌, ◌∙◌, ◌∷◌, ◌≡◌, ◌≢◌, ◌≤◌,
  ◌⊎◌,
}
use model_lib.Memory.RequestQueues.{ReqQueueList}
use model_lib.Memory.Directory.Entry.{count, sharers_list, has_sharer}
use model_lib.Memory.Directory.Entry.Sharers.{contains, sharers_list_lem}
use model_lib.Memory.Directory.Store.{Line, shared}
use model_lib.Memory.Controller.State.{
  MsgType, flush_req, ShmemReq, Sent, Config, Controller, DataBuf, send_all,
}
use model_lib.Memory.Controller.Allocate.{size_at, pick, invalidations}
use model_lib.Memory.Controller.Requests.{
  upgrade_invalidations, ex_by_state, upgrade_by_state, is_sole,
}

abbrev is_receiver : Option ℕ → ℕ → Bool
is_receiver none id = false
is_receiver (some j) id = j == id

abbrev is_flush : MsgType → Bool
is_flush flush_req = true
is_flush _ = false

-- Whether a core is sent one of the messages.
abbrev pub reaches : List Sent → ℕ → Bool
reaches [] id = false
reaches (m ∷ ms) id = if is_receiver m.receiver id then true else reaches ms id

-- How many of the messages are FLUSH_REQ.
abbrev pub flushes : List Sent → ℕ
flushes [] = 0
flushes (m ∷ ms) = if is_flush m.msg_type then suc (flushes ms) else flushes ms

reaches-invalidations :
    (requester address : ℕ) (ids : List ℕ) (id : ℕ)
    → reaches (invalidations requester address ids) id ≡ contains id ids
reaches-invalidations requester address [] id = refl
reaches-invalidations requester address (j ∷ ids) id =
    ap (λ b. if j == id then true else b) (reaches-invalidations requester address ids id)

reaches-upgrade :
    (requester address : ℕ) (has : Bool) (i : ℕ) (ids : List ℕ) (id : ℕ)
    → reaches (upgrade_invalidations requester address has i ids) id
      ≡ (contains id ids && not (id == requester))
unfolding upgrade_invalidations
reaches-upgrade requester address has i [] id = refl
reaches-upgrade requester address has i (j ∷ ids) id =
    ground (arith, reaches-upgrade requester address has (suc i) ids id)

no_flush_later :
    (requester address : ℕ) (has : Bool) (i : ℕ) (ids : List ℕ)
    → flushes (upgrade_invalidations requester address has (suc i) ids) ≡ 0
unfolding upgrade_invalidations
no_flush_later requester address has i [] = refl
no_flush_later requester address true i (j ∷ ids) =
    ground (arith, no_flush_later requester address true (suc i) ids)
no_flush_later requester address false i (j ∷ ids) =
    ground (arith, no_flush_later requester address false (suc i) ids)

flushes-upgrade :
    (requester address : ℕ) (has : Bool) (ids : List ℕ)
    → contains requester ids ≡ has
    → flushes (upgrade_invalidations requester address has 0 ids)
      ≡ (if not has && ltb 0 (length ids) then 1 else 0)
unfolding upgrade_invalidations
flushes-upgrade requester address true [] h = refl
flushes-upgrade requester address false [] h = refl
flushes-upgrade requester address true (j ∷ ids) h =
    ground (arith, no_flush_later requester address true 0 ids)
flushes-upgrade requester address false (j ∷ ids) h =
    ground (arith, no_flush_later requester address false 0 ids)

module _ {N : Type 0} (cfg : Config N) (next : ℕ → Controller N → Run (Controller N)) where
  -- An exclusive request for a shared block, without data, changes nothing and sends messages that
  -- reach exactly the sharers.
  pub exclusive_targets :
      (c : Controller N) (p : Pointer) (l : Line) (requester address : ℕ)
      → (ms : List Sent) × (ex_by_state cfg next shared c p l requester address none
          ≡ done (send_all c ms))
        × ((id : ℕ) → reaches ms id ≡ has_sharer l.entry id)
  exclusive_targets c p l requester address = (
    invalidations requester address (sharers_list l.entry),
    refl,
    λ id.
        reaches-invalidations requester address (sharers_list l.entry) id
        ∙ (sharers_list_lem l.entry id).1,
  )

  -- An upgrade request for a shared block of which the requester is not the only sharer changes
  -- nothing and sends messages that reach exactly the sharers other than the requester. One of them
  -- asks for the data if there is a sharer and the requester is none, and none does otherwise.
  pub upgrade_targets :
      (c : Controller N) (p : Pointer) (l : Line) (r : ShmemReq) (b : Option DataBuf)
      → is_sole (sharers_list l.entry) r.msg.requester ≡ false
      → (ms : List Sent) × (upgrade_by_state cfg next shared c p l r b ≡ done (send_all c ms))
        × ((id : ℕ) → reaches ms id ≡ (has_sharer l.entry id && not (id == r.msg.requester)))
        × (flushes ms ≡ (
            if not (has_sharer l.entry r.msg.requester) && ltb 0 (count l.entry.sharers)
            then 1
            else 0))
  upgrade_targets c p l r b several =
      let ids = sharers_list l.entry in
      let requester = r.msg.requester in
      let has = has_sharer l.entry requester in
      (
        upgrade_invalidations requester r.msg.address has 0 ids,
        rw several refl,
        λ id.
            reaches-upgrade requester r.msg.address has 0 ids id
            ∙ ap (λ t. t && not (id == requester)) (sharers_list_lem l.entry id).1,
        flushes-upgrade requester r.msg.address has ids (sharers_list_lem l.entry requester).1
            ∙ ap (λ n. if not has && ltb 0 n then 1 else 0) (sharers_list_lem l.entry requester).0,
      )

-- The number of sharers of an entry.
abbrev pub num_sharers : Line → ℕ
num_sharers l = count l.entry.sharers

-- No candidate without requests has fewer sharers than the given entry, which is a candidate without
-- requests, or the best so far.
abbrev pub Least : ReqQueueList ShmemReq → Line → List Line → Type 0
Least q v ls = All (λ l. size_at q l.address ≡ 0 → num_sharers v ≤ num_sharers l) ls

-- The entry is one of the candidates.
abbrev pub Stands : List Line → Line → Type 0
Stands ls v = (i : ℕ) × (get_elem? ls i ≡ some v)

-- The entry is picked: it is a candidate, has no requests, and no candidate without requests has
-- fewer sharers.
abbrev pub Victim : ReqQueueList ShmemReq → List Line → Line → Option Line → Type 0
Victim q ls v o = (o ≡ some v) × Stands ls v × (size_at q v.address ≡ 0) × Least q v ls

-- The entry picked when `b` is the best so far: it is `b` or a candidate.
abbrev Picked : ReqQueueList ShmemReq → Line → List Line → Line → Option Line → Type 0
Picked q b ls v o =
    (o ≡ some v)
    × ((v ≡ b) ⊎ Stands ls v)
    × (size_at q v.address ≡ 0)
    × Least q v ls
    × (num_sharers v ≤ num_sharers b)

Stands-first : (l : Line) (ls : List Line) (v : Line) → (v ≡ l) ⊎ Stands ls v → Stands (l ∷ ls) v
Stands-first l ls v (inl e) = (0, ap some (sym e))
Stands-first l ls v (inr (i, at)) = (suc i, at)

Stands-later :
    (b l : Line) (ls : List Line) (v : Line) → (v ≡ b) ⊎ Stands ls v → (v ≡ b) ⊎ Stands (l ∷ ls) v
Stands-later b l ls v (inl e) = inl e
Stands-later b l ls v (inr (i, at)) = inr (suc i, at)

pick-some :
    (q : ReqQueueList ShmemReq) (b : Line) (ls : List Line)
    → size_at q b.address ≡ 0
    → (v : Line) × Picked q b ls v (pick q (some b) ls)
unfolding pick
pick-some q b [] h = (b, (refl, inl refl, h, tt, omega arith))
pick-some q b (l ∷ ls) h =
    elim (Bool-cases (ltb (num_sharers l) (num_sharers b) && (size_at q l.address == 0))) [
      | inl t ↦
          let free : size_at q l.address ≡ 0 = ground arith in
          let (v, (e, at, f, least, le)) = pick-some q l ls free in
          (v, (rw t e, inr (Stands-first l ls v at), f, (λ g. le, least), ground arith))
      | inr t ↦
          let (v, (e, at, f, least, le)) = pick-some q b ls h in
          (v, (rw t e, Stands-later b l ls v at, f, (λ g. ground arith, least), le))
    ]

-- Of the candidates for replacement one is picked that has no outstanding requests, and no other such
-- candidate has fewer sharers; or none is, and then every candidate has outstanding requests.
pub pick_least :
    (q : ReqQueueList ShmemReq) (ls : List Line)
    → ((v : Line) × Victim q ls v (pick q none ls))
      ⊎ ((pick q none ls ≡ none) × All (λ l. size_at q l.address ≢ 0) ls)
unfolding pick
pick_least q [] = inr (refl, tt)
pick_least q (l ∷ ls) = elim (Bool-cases (size_at q l.address == 0)) [
  | inl t ↦
      let free : size_at q l.address ≡ 0 = (==_iff _ 0).0 t in
      let (v, (e, at, f, least, le)) = pick-some q l ls free in
      inl (v, (rw t e, Stands-first l ls v at, f, (λ g. le, least)))
  | inr t ↦
      let busy : size_at q l.address ≢ 0 = ground arith in
      elim (pick_least q ls) [
        | inl (v, (e, (i, at), f, least)) ↦
            inl (v, (rw t e, (suc i, at), f, (λ g. absurd (busy g), least)))
        | inr (e, all) ↦ inr (rw t e, (busy, all))
      ]
]
