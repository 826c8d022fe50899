-- ===== src/Memory/Directory/Cache/Every.antt =====
-- A property of all entries of the directory cache, and how the operations keep it.
use model_lib.Prelude.{
  >>=-eq-some, All, All-append, All-get_elem?, All-get_or_default, All-replicate, All-set, Bool,
  Bool-cases, List, Option, [], get_or, guard-eq-some, inl, inr, length, ltb, none, some, subst,
  subst_some, suc, zero, ℕ, ◌∷◌, ◌≡◌,
}
use model_lib.Memory.Directory.Store.{
  Scheme, Line, Directory, create_line, set_directory_entry, found_or_created, get_directory_entry,
  create_directory,
}
use model_lib.Memory.Directory.Cache.{
  Geometry, DirectoryCache, Pointer, in_slot, in_replaced, create_directory_cache, first_slot,
  has_address, is_free, or_claimed, or_free, find_entry, load_line, store_line, candidates,
  replace_in, replace_entry, without_replaced, invalidate_entry, slot, line_or_new,
}

abbrev pub SlotHolds : (Line → Type 0) → Option Line → Type 0
SlotHolds P none = Unit
SlotHolds P (some l) = P l

abbrev pub EveryLine : (Line → Type 0) → DirectoryCache → Type 0
EveryLine P c = All (SlotHolds P) c.directory.slots × All P c.replaced_entries

-- New entries satisfy `P`, and `P` does not look at the address.
pub record Admits (s : Scheme) (P : Line → Type 0) : Type 0 where
  pub new_line : P (create_line s)
  pub with_address : (l : Line) (a : Option ℕ) → P l → P (record l { address = a })

module _ {s : Scheme} {P : Line → Type 0} (ok : Admits s P) where
  line_or_new-Every : (o : Option Line) → SlotHolds P o → P (line_or_new s o)
  line_or_new-Every none h = ok.new_line
  line_or_new-Every (some l) h = h

  set_directory_entry-Every :
      (d : Directory) (n : ℕ) (l : Line)
      → All (SlotHolds P) d.slots
      → P l
      → All (SlotHolds P) (set_directory_entry d n l).slots
  unfolding set_directory_entry
  set_directory_entry-Every d n l a p = All-set (SlotHolds P) d.slots n (some l) a p

  found_or_created-Every :
      (d : Directory) (n : ℕ) (o : Option Line)
      → All (SlotHolds P) d.slots
      → SlotHolds P o
      → P (found_or_created s d n o).0 × All (SlotHolds P) (found_or_created s d n o).1.slots
  found_or_created-Every d n (some l) a p = (p, a)
  found_or_created-Every d n none a p =
      (ok.new_line, set_directory_entry-Every d n (create_line s) a ok.new_line)

  get_directory_entry-Every :
      (d : Directory) (n : ℕ) {r : Line × Directory}
      → All (SlotHolds P) d.slots
      → get_directory_entry s d n ≡ some r
      → P r.0 × All (SlotHolds P) r.1.slots
  unfolding get_directory_entry
  get_directory_entry-Every d n {r} a e =
      let slot_holds : SlotHolds P (get_or d.slots n none) =
        All-get_or_default (SlotHolds P) d.slots n none a tt in
      subst_some (λ (o : Line × Directory). P o.0 × All (SlotHolds P) o.1.slots)
        (guard-eq-some (ltb n (length d.slots)) _ e).1
        (found_or_created-Every d n (get_or d.slots n none) a slot_holds)

  first_slot-Every :
      (test : Option ℕ → Bool) (at : ℕ → ℕ) (left i : ℕ) (d : Directory) {r : Option ℕ × Directory}
      → All (SlotHolds P) d.slots
      → first_slot s test at left i d ≡ some r
      → All (SlotHolds P) r.1.slots
  unfolding first_slot
  first_slot-Every test at zero i d {r} a e =
      subst_some (λ (o : Option ℕ × Directory). All (SlotHolds P) o.1.slots) e a
  first_slot-Every test at (suc left) i d {r} a e =
      let (g, e1, e2) = >>=-eq-some (get_directory_entry s d (at i)) _ e in
      let a1 : All (SlotHolds P) g.1.slots = (get_directory_entry-Every d (at i) a e1).1 in
      elim (Bool-cases (test g.0.address)) [
        | inl t ↦
            subst_some (λ (o : Option ℕ × Directory). All (SlotHolds P) o.1.slots) (rw t at e2) a1
        | inr t ↦ first_slot-Every test at left (suc i) g.1 a1 (rw t at e2)
      ]

  pub candidates-Every :
      (at : ℕ → ℕ) (left i : ℕ) (d : Directory) {r : List Line × Directory}
      → All (SlotHolds P) d.slots
      → candidates s at left i d ≡ some r
      → All (SlotHolds P) r.1.slots
  unfolding candidates
  candidates-Every at zero i d {r} a e =
      subst_some (λ (o : List Line × Directory). All (SlotHolds P) o.1.slots) e a
  candidates-Every at (suc left) i d {r} a e =
      let (g, e1, e2) = >>=-eq-some (get_directory_entry s d (at i)) _ e in
      let a1 : All (SlotHolds P) g.1.slots = (get_directory_entry-Every d (at i) a e1).1 in
      let (h, e3, e4) = >>=-eq-some (candidates s at left (suc i) g.1) _ e2 in
      subst_some (λ (o : List Line × Directory). All (SlotHolds P) o.1.slots) e4
        (candidates-Every at left (suc i) g.1 a1 e3)

  -- The entry that a free slot becomes.
  or_claimed-Every :
      (a : ℕ) (replaced_entries : List Line) (r : Option ℕ × Directory)
      → All (SlotHolds P) r.1.slots
      → All P replaced_entries
      → EveryLine P (or_claimed s a replaced_entries r).1
  or_claimed-Every a replaced_entries (some n, d) h q = (
    set_directory_entry-Every d n _ h (
        ok.with_address _ (some a) (
          line_or_new-Every (get_or d.slots n none)
            (All-get_or_default (SlotHolds P) d.slots n none h tt))),
    q,
  )
  or_claimed-Every a replaced_entries (none, d) h q = (h, q)

module _ (g : Geometry) {P : Line → Type 0} (ok : Admits g.scheme P) where
  or_free-Every :
      (a : ℕ) (replaced_entries : List Line) (r : Option ℕ × Directory)
      {f : Option Pointer × DirectoryCache}
      → All (SlotHolds P) r.1.slots
      → All P replaced_entries
      → or_free g a replaced_entries r ≡ some f
      → EveryLine P f.1
  or_free-Every a replaced_entries (some n, d) {f} h q e =
      subst_some (λ (o : Option Pointer × DirectoryCache). EveryLine P o.1) e (h, q)
  or_free-Every a replaced_entries (none, d) {f} h q e =
      let (r, e1, e2) =
        >>=-eq-some (first_slot g.scheme is_free (slot g a) g.associativity 0 d) _ e in
      subst_some (λ (o : Option Pointer × DirectoryCache). EveryLine P o.1) e2
        (or_claimed-Every ok a replaced_entries r (first_slot-Every ok _ _ _ _ d h e1) q)

  pub find_entry-Every :
      (c : DirectoryCache) (a : ℕ) {f : Option Pointer × DirectoryCache}
      → EveryLine P c
      → find_entry g c a ≡ some f
      → EveryLine P f.1
  unfolding find_entry
  find_entry-Every c a h e =
      let (r, e1, e2) =
        >>=-eq-some (first_slot g.scheme (has_address a) (slot g a) g.associativity 0 c.directory) _
          e in
      or_free-Every a c.replaced_entries r (first_slot-Every ok _ _ _ _ c.directory h.0 e1) h.1 e2

  replace_in-Every :
      (a : ℕ) (replaced_entries : List Line) (r : Option ℕ × Directory)
      {f : Pointer × DirectoryCache}
      → All (SlotHolds P) r.1.slots
      → All P replaced_entries
      → replace_in g.scheme a replaced_entries r ≡ some f
      → EveryLine P f.1
  replace_in-Every a replaced_entries (none, d) h q e = cc
  replace_in-Every a replaced_entries (some n, d) {f} h q e =
      let old : P (line_or_new g.scheme (get_or d.slots n none)) =
        line_or_new-Every ok _ (All-get_or_default (SlotHolds P) d.slots n none h tt) in
      subst_some (λ (o : Pointer × DirectoryCache). EveryLine P o.1) e
        (
          set_directory_entry-Every ok d n _ h (ok.with_address _ (some a) ok.new_line),
          All-append P replaced_entries _ q (old, tt),
        )

  pub replace_entry-Every :
      (c : DirectoryCache) (old a : ℕ) {f : Pointer × DirectoryCache}
      → EveryLine P c
      → replace_entry g c old a ≡ some f
      → EveryLine P f.1
  unfolding replace_entry
  replace_entry-Every c old a h e =
      let (r, e1, e2) =
        >>=-eq-some
          (first_slot g.scheme (has_address old) (slot g old) g.associativity 0 c.directory) _ e in
      replace_in-Every a c.replaced_entries r (first_slot-Every ok _ _ _ _ c.directory h.0 e1) h.1
        e2

module _ (P : Line → Type 0) where
  without_replaced-Every :
      (a : ℕ) (ls : List Line) {kept : List Line}
      → All P ls
      → without_replaced a ls ≡ some kept
      → All P kept
  unfolding without_replaced
  without_replaced-Every a [] h e = cc
  without_replaced-Every a (l ∷ ls) h e = elim (Bool-cases (has_address a l.address)) [
    | inl t ↦ subst_some (All P) (rw t at e) h.1
    | inr t ↦
        let (k, e1, e2) = >>=-eq-some (without_replaced a ls) _ (rw t at e) in
        subst_some (All P) e2 (h.0, without_replaced-Every a ls h.1 e1)
  ]

  pub invalidate_entry-Every :
      (c : DirectoryCache) (a : ℕ) {c' : DirectoryCache}
      → EveryLine P c
      → invalidate_entry c a ≡ some c'
      → EveryLine P c'
  unfolding invalidate_entry
  invalidate_entry-Every c a h e =
      let (k, e1, e2) = >>=-eq-some (without_replaced a c.replaced_entries) _ e in
      subst_some (EveryLine P) e2 (h.0, without_replaced-Every a c.replaced_entries h.1 e1)

  pub load_line-Every :
      (c : DirectoryCache) (p : Pointer) {l : Line} → EveryLine P c → load_line c p ≡ some l → P l
  load_line-Every c (in_slot n) h e =
      subst (SlotHolds P) e (All-get_or_default (SlotHolds P) c.directory.slots n none h.0 tt)
  load_line-Every c (in_replaced i) h e = All-get_elem? P c.replaced_entries i _ h.1 e

  pub store_line-Every :
      (c : DirectoryCache) (p : Pointer) (l : Line)
      → EveryLine P c
      → P l
      → EveryLine P (store_line c p l)
  unfolding set_directory_entry
  store_line-Every c (in_slot n) l h q =
      (All-set (SlotHolds P) c.directory.slots n (some l) h.0 q, h.1)
  store_line-Every c (in_replaced i) l h q = (h.0, All-set P c.replaced_entries i l h.1 q)

  pub create_directory_cache-Every : (n : ℕ) → EveryLine P (create_directory_cache n)
  unfolding create_directory_cache create_directory
  create_directory_cache-Every n = (All-replicate (SlotHolds P) n none tt, tt)
