-- ===== src/Memory/Controller/Safety.antt =====
-- What holds of every run of the directory controller, from its construction on.
use model_lib.Prelude.{
  ==_iff, Bool-cases, List, Option, [], ap, arith, inl, inr, length, refl, some, true, ℕ, ◌==◌, ◌∙◌,
  ◌∷◌, ◌≡◌, ◌≢◌,
}
use model_lib.Memory.Run.{done, exhausted, Ensures-value, Ensures-exhausted}
use model_lib.Memory.Directory.Entry.{DirectoryEntry, sharers_list}
use model_lib.Memory.Directory.Entry.Sharers.{contains, sharers_list_lem}
use model_lib.Memory.Directory.Store.{
  DirectoryState, uncached, shared, owned, modified, exclusive, Line,
}
use model_lib.Memory.Directory.Cache.{Pointer, load_line}
use model_lib.Memory.Controller.State.{Config, Controller, create_controller}
use model_lib.Memory.Controller.Handle.{Arrival, handle_all}
use model_lib.Memory.Controller.Coherent.{Sole, CoherentAs}
use model_lib.Memory.Controller.Invariant.Serving.{AllCoherent, read-Coherent}
use model_lib.Memory.Controller.Invariant.Runs.{handle_all-AllCoherent, create-AllCoherent}

-- The sharers that the state of a block allows.
abbrev pub SharersFit : DirectoryState → Option ℕ → List ℕ → Type 0
SharersFit uncached o ids = ids ≡ []
SharersFit shared o ids = ids ≢ []
SharersFit owned o ids = ⊥
SharersFit modified o ids = (id : ℕ) × (o ≡ some id) × (ids ≡ id ∷ [])
SharersFit exclusive o ids = (id : ℕ) × (o ≡ some id) × (ids ≡ id ∷ [])

length-zero : (ids : List ℕ) → length ids ≡ 0 → ids ≡ []
length-zero [] h = refl
length-zero (i ∷ ids) h = absurd (omega arith)

length-one : (ids : List ℕ) (id : ℕ) → length ids ≡ 1 → contains id ids ≡ true → ids ≡ id ∷ []
length-one [] id h k = absurd (omega arith)
length-one (i ∷ []) id h k = elim (Bool-cases (i == id)) [
  | inl t ↦ ap (λ j. j ∷ []) ((==_iff i id).0 t)
  | inr t ↦ cc (rw t at k)
]
length-one (i ∷ j ∷ ids) id h k = absurd (omega arith)

Sole-sharers_list : (e : DirectoryEntry) (id : ℕ) → Sole e id → sharers_list e ≡ id ∷ []
Sole-sharers_list e id s =
    length-one (sharers_list e) id ((sharers_list_lem e id).0 ∙ s.2)
      ((sharers_list_lem e id).1 ∙ s.1)

CoherentAs-SharersFit :
    (t : DirectoryState) (e : DirectoryEntry)
    → CoherentAs t e
    → SharersFit t e.owner (sharers_list e)
CoherentAs-SharersFit uncached e h = length-zero (sharers_list e) ((sharers_list_lem e 0).0 ∙ h)
CoherentAs-SharersFit shared e h = λ nil.
    let empty : length (sharers_list e) ≡ 0 = ap (length {A = ℕ}) nil in
    omega (arith, (sharers_list_lem e 0).0)
CoherentAs-SharersFit owned e h = h
CoherentAs-SharersFit modified e (id, s) = (id, s.0, Sole-sharers_list e id s)
CoherentAs-SharersFit exclusive e (id, s) = (id, s.0, Sole-sharers_list e id s)

module _ {N : Type 0} (cfg : Config N) where
  -- After any sequence of messages from caches and DRAM that no assertion ends, every entry of the
  -- directory, also a replaced one, has sharers that fit its state: none if the block is uncached, some
  -- if it is shared, and exactly its owner if it is modified or exclusive; no block is in the state
  -- OWNED.
  pub single_owner :
      (total_entries : ℕ) (nuca : Option N) (arrivals : List Arrival) {c : Controller N}
      → handle_all cfg (create_controller total_entries nuca) arrivals ≡ done c
      → (p : Pointer) (l : Line) → load_line c.cache p ≡ some l
      → SharersFit l.dstate l.entry.owner (sharers_list l.entry)
  single_owner total_entries nuca arrivals {c} e p l el =
      let h : AllCoherent c =
        Ensures-value AllCoherent c _
          (handle_all-AllCoherent cfg _ arrivals (create-AllCoherent cfg total_entries nuca)) e in
      CoherentAs-SharersFit l.dstate l.entry (read-Coherent c p h el)

  -- No sequence of messages exhausts the fuel of the controller: `processNextReqFromL2Cache` calls
  -- itself no deeper than there are requests for an address.
  pub never_exhausted :
      (total_entries : ℕ) (nuca : Option N) (arrivals : List Arrival)
      → handle_all cfg (create_controller total_entries nuca) arrivals ≢ exhausted
  never_exhausted total_entries nuca arrivals e =
      Ensures-exhausted AllCoherent _
        (handle_all-AllCoherent cfg _ arrivals (create-AllCoherent cfg total_entries nuca)) e
