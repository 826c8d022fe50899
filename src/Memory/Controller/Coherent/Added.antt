-- ===== src/Memory/Controller/Coherent/Added.antt =====
-- What `addSharer` and `getOneSharer` of each class of entry do to the fit of state, owner and sharers.
use model_lib.Prelude.{
  >>=-eq-some, Bool, Bool-cases, List, ap, arith, false, get_or, get_or-set_self, guard-eq-some,
  if◌then◌else◌, inl, inr, leb, length, not, refl, set, some, subst, subst_some, suc, sym, true, ℕ,
  ◌<◌, ◌==◌, ◌>>=◌, ◌∙◌, ◌≡◌,
}
use model_lib.Memory.Directory.Entry.{
  DirectoryEntry, count, has_sharer, add_limited, add_limitless, set_owner, get_one_sharer,
  get_random_sharer,
}
use model_lib.Memory.Directory.Store.{
  DirectoryType, full_map, limited_no_broadcast, limitless, Scheme, Line, add_sharer_as, add_sharer,
  one_sharer_as, one_sharer,
}
use model_lib.Memory.Controller.Coherent.{
  Sole, Coherent, count-set-true, count-le-set-true, has_sharer-count,
}

-- What `addSharer` does, by every class: it adds a core that was no sharer, or changes nothing.
pub record Added (l : Line) (id : ℕ) (r : Bool × Line) : Type 0 where
  pub same_state : r.1.dstate ≡ l.dstate
  pub same_owner : r.1.entry.owner ≡ l.entry.owner
  pub was_none : has_sharer l.entry id ≡ false
  pub sharers_set : r.0 ≡ true → r.1.entry.sharers ≡ set l.entry.sharers id true
  pub sharers_kept : r.0 ≡ false → r.1.entry.sharers ≡ l.entry.sharers

not-eq_true : (b : Bool) → not b ≡ true → b ≡ false
not-eq_true true h = cc
not-eq_true false h = refl

abbrev limited_answer : Bool → DirectoryEntry → ℕ → Bool × DirectoryEntry
limited_answer full e id =
    if full then (false, e) else (true, record e { sharers = set e.sharers id true })

limited_answer-Added :
    (full : Bool) (l : Line) (id : ℕ)
    → has_sharer l.entry id ≡ false
    → Added l id (
      (limited_answer full l.entry id).0,
      record l { entry = (limited_answer full l.entry id).1 },
    )
limited_answer-Added true l id free = record {
  same_state = refl;
  same_owner = refl;
  was_none = free;
  sharers_set = λ h. cc;
  sharers_kept = λ h. refl;
}
limited_answer-Added false l id free = record {
  same_state = refl;
  same_owner = refl;
  was_none = free;
  sharers_set = λ h. refl;
  sharers_kept = λ h. cc;
}

limited-Added :
    (l : Line) (id limit : ℕ) {r : Bool × Line}
    → (add_limited l.entry id limit >>= λ a. some (a.0, record l { entry = a.1 })) ≡ some r
    → Added l id r
unfolding add_limited
limited-Added l id limit {r} e =
    let (a, e1, e2) = >>=-eq-some (add_limited l.entry id limit) _ e in
    let (free, e3) = guard-eq-some (not (has_sharer l.entry id)) _ e1 in
    subst_some (Added l id) e2 (
      subst_some (λ (x : Bool × DirectoryEntry). Added l id (x.0, record l { entry = x.1 })) e3
        (limited_answer-Added (leb limit (count l.entry.sharers)) l id (not-eq_true _ free)))

limitless-Added :
    (s : Scheme) (l : Line) (id : ℕ) {r : Bool × Line}
    → add_sharer_as limitless s l id ≡ some r
    → Added l id r
unfolding add_limitless
limitless-Added s l id {r} e =
    let (a, e1, e2) = >>=-eq-some (add_limitless _ id s.max_hw_sharers) _ e in
    let (free, e3) = guard-eq-some (not (has_sharer l.entry id)) _ e1 in
    subst_some (Added l id) e2 (
      subst_some
        (λ x. Added l id (true, record l { entry = x.entry; trap_enabled = x.trap_enabled })) e3
        (record {
          same_state = refl;
          same_owner = refl;
          was_none = not-eq_true _ free;
          sharers_set = λ h. refl;
          sharers_kept = λ h. cc;
        }))

add_sharer_as-Added :
    (t : DirectoryType) (s : Scheme) (l : Line) (id : ℕ) {r : Bool × Line}
    → add_sharer_as t s l id ≡ some r
    → Added l id r
add_sharer_as-Added full_map s l id e = limited-Added l id s.max_num_sharers e
add_sharer_as-Added limited_no_broadcast s l id e = limited-Added l id s.max_hw_sharers e
add_sharer_as-Added limitless s l id e = limitless-Added s l id e

pub add_sharer-Added :
    (s : Scheme) (l : Line) (id : ℕ) {r : Bool × Line} → add_sharer s l id ≡ some r → Added l id r
unfolding add_sharer
add_sharer-Added s l id e = add_sharer_as-Added s.directory_type s l id e

-- The first sharer of a block becomes its owner.
pub first_sharer-Sole :
    (l : Line) (id : ℕ) {a : Bool × Line} {e : DirectoryEntry}
    → Added l id a
    → count l.entry.sharers ≡ 0
    → a.0 ≡ true
    → set_owner a.1.entry (some id) ≡ some e
    → Sole e id
unfolding has_sharer
first_sharer-Sole l id {a} {e} added empty t owns =
    let (has, e1) = guard-eq-some (has_sharer a.1.entry id) _ owns in
    let written : a.1.entry.sharers ≡ set l.entry.sharers id true = added.sharers_set t in
    let in_range : get_or (set l.entry.sharers id true) id false ≡ true =
      subst (λ bs. get_or bs id false ≡ true) written has in
    let one : count a.1.entry.sharers ≡ 1 =
      ap count written ∙ count-set-true l.entry.sharers id added.was_none in_range ∙ ap suc empty in
    subst_some (λ x. Sole x id) e1 (refl, has, one)

-- Another sharer of a shared block.
pub Added-count :
    (l : Line) (id : ℕ) (a : Bool × Line)
    → Added l id a
    → 0 < count l.entry.sharers
    → 0 < count a.1.entry.sharers
Added-count l id (true, l') added h =
    subst (λ bs. 0 < count bs) (sym (added.sharers_set refl))
      (omega (arith, count-le-set-true l.entry.sharers id))
Added-count l id (false, l') added h = subst (λ bs. 0 < count bs) (sym (added.sharers_kept refl)) h

-- `getOneSharer` changes only the seed.
one_sharer_as-Coherent :
    (t : DirectoryType) (l : Line) {r : ℕ × Line}
    → one_sharer_as t l ≡ some r
    → Coherent l
    → Coherent r.1
one_sharer_as-Coherent full_map l e h =
    let (a, e1, e2) = >>=-eq-some (get_random_sharer l.entry l.seed) _ e in
    subst_some (λ (x : ℕ × Line). Coherent x.1) e2 h
one_sharer_as-Coherent limited_no_broadcast l e h =
    let (a, e1, e2) = >>=-eq-some (get_random_sharer l.entry l.seed) _ e in
    subst_some (λ (x : ℕ × Line). Coherent x.1) e2 h
one_sharer_as-Coherent limitless l e h =
    let (a, e1, e2) = >>=-eq-some (get_one_sharer l.entry) _ e in
    subst_some (λ (x : ℕ × Line). Coherent x.1) e2 h

pub one_sharer-Coherent :
    (s : Scheme) (l : Line) {r : ℕ × Line} → one_sharer s l ≡ some r → Coherent l → Coherent r.1
unfolding one_sharer
one_sharer-Coherent s l e h = one_sharer_as-Coherent s.directory_type l e h

limit_room : (limit : ℕ) (bs : List Bool) → count bs ≡ 0 → 0 < limit → leb limit (count bs) ≡ false
limit_room limit bs z h = rw z (ground arith)

taken_as :
    (s : Scheme) (l : Line) (id : ℕ)
    → count l.entry.sharers ≡ 0
    → id < length l.entry.sharers
    → 0 < s.max_hw_sharers
    → 0 < s.max_num_sharers
    → has_sharer l.entry id ≡ false
    → (t : DirectoryType)
    → (x : Line) × (add_sharer_as t s l id ≡ some (true, x))
      × (x.address ≡ l.address)
      × (has_sharer x.entry id ≡ true)
unfolding add_limited add_limitless has_sharer
taken_as s l id z b h k free full_map = (
  record l { entry = record l.entry { sharers = set l.entry.sharers id true } },
  rw free (rw (limit_room s.max_num_sharers l.entry.sharers z k) refl),
  refl,
  get_or-set_self l.entry.sharers id true false b,
)
taken_as s l id z b h k free limited_no_broadcast = (
  record l { entry = record l.entry { sharers = set l.entry.sharers id true } },
  rw free (rw (limit_room s.max_hw_sharers l.entry.sharers z h) refl),
  refl,
  get_or-set_self l.entry.sharers id true false b,
)
taken_as s l id z b h k free limitless = (
  record l {
    entry = record l.entry { sharers = set l.entry.sharers id true };
    trap_enabled = if length l.entry.sharers == s.max_hw_sharers then true else l.trap_enabled;
  },
  rw free refl,
  refl,
  get_or-set_self l.entry.sharers id true false b,
)

-- A block without sharers takes a first one, if the directory's limits leave room for any.
pub first_sharer_taken :
    (s : Scheme) (l : Line) (id : ℕ)
    → count l.entry.sharers ≡ 0
    → id < length l.entry.sharers
    → 0 < s.max_hw_sharers
    → 0 < s.max_num_sharers
    → (x : Line) × (add_sharer s l id ≡ some (true, x))
      × (x.address ≡ l.address)
      × (has_sharer x.entry id ≡ true)
unfolding add_sharer has_sharer
first_sharer_taken s l id z b h k =
    let free : has_sharer l.entry id ≡ false = elim (Bool-cases (has_sharer l.entry id)) [
      | inl t ↦ absurd (omega (arith, has_sharer-count l.entry id t))
      | inr t ↦ t
    ] in
    taken_as s l id z b h k free s.directory_type
