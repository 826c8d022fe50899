-- ===== src/Memory/Controller/Coherent.antt =====
-- When the state of a block, its owner and its sharers fit together, and what the steps on one
-- entry do to that.
pub mod Added
use model_lib.Prelude.{
  ==_iff, Bool, Bool-cases, List, [], arith, false, get_or, guard-eq-some, inl, inr, length, refl,
  replicate, set, some, subst, subst_some, suc, sym, true, zero, ℕ, ◌<◌, ◌==◌, ◌∙◌, ◌∷◌, ◌≡◌, ◌≤◌,
}
use model_lib.Memory.Directory.Entry.{
  DirectoryEntry, storage_size, create_entry, count, has_sharer, add_limited, add_limitless,
  remove_sharer, set_owner, sharers_list, get_one_sharer, get_random_sharer,
}
use model_lib.Memory.Directory.Entry.Sharers.{sharers_list_lem}
use model_lib.Memory.Directory.Store.{
  DirectoryState, uncached, shared, owned, modified, exclusive, DirectoryType, full_map,
  limited_no_broadcast, limitless, Scheme, Line, create_line, add_sharer_as, add_sharer,
  one_sharer_as, one_sharer,
}
use model_lib.Memory.Controller.Requests.{is_sole}
use model_lib.Memory.Controller.Replies.{settled}
use model_lib.Memory.Directory.Cache.Every.{Admits}

is_sole-length : (js : List ℕ) (id : ℕ) → is_sole js id ≡ true → length js ≡ 1
is_sole-length [] id h = cc
is_sole-length (j ∷ []) id h = refl
is_sole-length (j ∷ k ∷ js) id h = cc

-- Core `id` owns the block and is its only sharer.
abbrev pub Sole : DirectoryEntry → ℕ → Type 0
Sole e id = (e.owner ≡ some id) × (has_sharer e id ≡ true) × (count e.sharers ≡ 1)

abbrev pub CoherentAs : DirectoryState → DirectoryEntry → Type 0
CoherentAs uncached e = count e.sharers ≡ 0
CoherentAs shared e = 0 < count e.sharers
CoherentAs owned e = ⊥
CoherentAs modified e = (id : ℕ) × Sole e id
CoherentAs exclusive e = (id : ℕ) × Sole e id

abbrev pub Coherent : Line → Type 0
Coherent l = CoherentAs l.dstate l.entry

count-replicate : (n : ℕ) → count (replicate n false) ≡ 0
unfolding count
count-replicate zero = refl
count-replicate (suc n) = count-replicate n

pub Coherent-admitted : (s : Scheme) → Admits s Coherent
unfolding create_line create_entry
Coherent-admitted s = record {
  new_line = count-replicate (storage_size s.max_num_sharers);
  with_address = λ l a h. h;
}

-- A bit that is set afterwards was in range.
pub count-set-true :
    (bs : List Bool) (i : ℕ)
    → get_or bs i false ≡ false
    → get_or (set bs i true) i false ≡ true
    → count (set bs i true) ≡ suc (count bs)
unfolding count
count-set-true [] i h k = cc
count-set-true (b ∷ bs) zero h k = ground arith
count-set-true (b ∷ bs) (suc i) h k = ground (arith, count-set-true bs i h k)

pub count-le-set-true : (bs : List Bool) (i : ℕ) → count bs ≤ count (set bs i true)
unfolding count
count-le-set-true [] i = omega arith
count-le-set-true (b ∷ bs) zero = ground arith
count-le-set-true (b ∷ bs) (suc i) = ground (arith, count-le-set-true bs i)

count-set-false :
    (bs : List Bool) (i : ℕ) → get_or bs i false ≡ true → suc (count (set bs i false)) ≡ count bs
unfolding count
count-set-false [] i h = cc
count-set-false (b ∷ bs) zero h = ground arith
count-set-false (b ∷ bs) (suc i) h = ground (arith, count-set-false bs i h)

-- `removeSharer` takes one sharer away.
pub remove_sharer-count :
    (e : DirectoryEntry) (id : ℕ) {d : DirectoryEntry}
    → remove_sharer e id false ≡ some d
    → suc (count d.sharers) ≡ count e.sharers
unfolding remove_sharer has_sharer
remove_sharer-count e id {d} h =
    let (has, h1) = guard-eq-some (has_sharer e id) _ h in
    subst_some (λ x. suc (count x.sharers) ≡ count e.sharers) h1 (count-set-false e.sharers id has)

-- A list of sharers with one core in it is that core alone.
pub sole_sharer :
    (e : DirectoryEntry) (id : ℕ) → is_sole (sharers_list e) id ≡ true → count e.sharers ≡ 1
sole_sharer e id h = (sym (sharers_list_lem e id).0) ∙ is_sole-length (sharers_list e) id h

-- The only sharer becomes the owner.
pub set_owner-Sole :
    (e : DirectoryEntry) (id : ℕ) {e' : DirectoryEntry}
    → is_sole (sharers_list e) id ≡ true
    → set_owner e (some id) ≡ some e'
    → Sole e' id
unfolding has_sharer
set_owner-Sole e id {e'} sole h =
    let (has, h1) = guard-eq-some (has_sharer e id) _ h in
    subst_some (λ x. Sole x id) h1 (refl, has, sole_sharer e id sole)

pub has_sharer-count : (e : DirectoryEntry) (id : ℕ) → has_sharer e id ≡ true → 0 < count e.sharers
unfolding has_sharer
has_sharer-count e id h = omega (arith, count-set-false e.sharers id h)

-- An entry that has lost a sharer, once its state follows.
pub settled-Coherent :
    (t : DirectoryState) (l : Line) (e : DirectoryEntry)
    → l.dstate ≡ t
    → CoherentAs t e
    → suc (count l.entry.sharers) ≡ count e.sharers
    → Coherent (settled l)
settled-Coherent uncached l e et h k = absurd (omega arith)
settled-Coherent shared l e et h k = elim (Bool-cases (count l.entry.sharers == 0)) [
  | inl z ↦ rw z ((==_iff _ 0).0 z)
  | inr z ↦ rw z (subst (λ t. CoherentAs t l.entry) (sym et) (ground arith))
]
settled-Coherent owned l e et h k = absurd h
settled-Coherent modified l e et (id, o) k =
    let z : count l.entry.sharers ≡ 0 = omega (arith, o.2) in rw ((==_iff _ 0).1 z) z
settled-Coherent exclusive l e et (id, o) k =
    let z : count l.entry.sharers ≡ 0 = omega (arith, o.2) in rw ((==_iff _ 0).1 z) z
