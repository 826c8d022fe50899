-- ===== src/Memory/Directory/Cache/Lookup.antt =====
-- That `getDirectoryEntry` finds the entry again after a write through the pointer that it returned.
use model_lib.Prelude.{
  ==_iff, ==_refl, >>=-eq-some, Bool, Bool-cases, List, Option, [], ap, arith, get_or,
  get_or-set_ne, get_or-set_self, inl, inr, length, length-set, none, refl, some, some_injective,
  subst, subst_some, suc, sym, true, zero, ℕ, ◌<◌, ◌==◌, ◌∙◌, ◌∷◌, ◌≡◌, ◌≢◌,
}
use model_lib.Memory.Directory.Store.{Scheme, Line, Directory, set_directory_entry}
use model_lib.Memory.Directory.Cache.{
  Geometry, DirectoryCache, Pointer, in_slot, first_slot, has_address, is_free, or_claimed, or_free,
  find_entry, load_line, store_line, slot, line_or_new, replaced_at,
}
use model_lib.Memory.Directory.Cache.Slots.{
  Held, Held-lt, Held-get_directory_entry, first_slot-Held, AllFail, FirstAt, first_slot-Found,
  failed_first,
}

module _ (s : Scheme) where
  set-Held :
      (d : Directory) (n : ℕ) (l : Line) → n < length d.slots → Held (set_directory_entry d n l) n l
  unfolding set_directory_entry
  set-Held d n l b = get_or-set_self d.slots n (some l) none b

  set-Held_ne :
      (d : Directory) (n m : ℕ) (l k : Line)
      → n ≢ m
      → Held d m k
      → Held (set_directory_entry d n l) m k
  unfolding set_directory_entry
  set-Held_ne d n m l k ne h = get_or-set_ne d.slots n m (some l) none ne ∙ h

  -- With an entry in slot `n` that passes, the search ends there.
  first_slot-set :
      (test : Option ℕ → Bool) (at : ℕ → ℕ) (left i : ℕ) (d : Directory) (n : ℕ) (l : Line)
      → FirstAt s test at left i d n
      → n < length d.slots
      → test l.address ≡ true
      → first_slot s test at left i (set_directory_entry d n l)
        ≡ some (some n, set_directory_entry d n l)
  unfolding first_slot
  first_slot-set test at zero i d n l f b t = absurd f
  first_slot-set test at (suc left) i d n l f b t = elim (Bool-cases (n == at i)) [
    | inl e ↦
        let same : n ≡ at i = (==_iff n (at i)).0 e in
        rw
          (Held-get_directory_entry s (set_directory_entry d n l) (at i) l
            (subst (λ j. Held (set_directory_entry d n l) j l) same (set-Held d n l b)))
          (rw t (ap (λ j. some (some j, set_directory_entry d n l)) (sym same)))
    | inr e ↦ elim f [
      | inl e' ↦ ground arith
      | inr ((k, h, u), f') ↦
          rw
            (Held-get_directory_entry s (set_directory_entry d n l) (at i) k
              (set-Held_ne d n (at i) l k (ground arith) h))
            (rw u (first_slot-set test at left (suc i) d n l f' b t))
    ]
  ]

  FirstAt-set :
      (test : Option ℕ → Bool) (at : ℕ → ℕ) (left i : ℕ) (d : Directory) (n : ℕ) (l : Line)
      → FirstAt s test at left i d n
      → FirstAt s test at left i (set_directory_entry d n l) n
  FirstAt-set test at zero i d n l f = f
  FirstAt-set test at (suc left) i d n l (inl e) = inl e
  FirstAt-set test at (suc left) i d n l (inr ((k, h, u), f)) = elim (Bool-cases (n == at i)) [
    | inl e ↦ inl (sym ((==_iff n (at i)).0 e))
    | inr e ↦ inr (
      (k, set-Held_ne d n (at i) l k (ground arith) h, u),
      FirstAt-set test at left (suc i) d n l f,
    )
  ]

  length-set_directory_entry :
      (d : Directory) (n : ℕ) (l : Line) → length (set_directory_entry d n l).slots ≡ length d.slots
  unfolding set_directory_entry
  length-set_directory_entry d n l = length-set d.slots n (some l)

  -- Slot `n` is where a search for address `a` ends.
  abbrev EndsAt : ℕ → (ℕ → ℕ) → ℕ → Directory → ℕ → Type 0
  EndsAt a at left d n = FirstAt s (has_address a) at left 0 d n × (n < length d.slots)

  replaced_at-not_slot : (a i n : ℕ) (ls : List Line) → replaced_at a i ls ≢ some (in_slot n)
  unfolding replaced_at
  replaced_at-not_slot a i n [] e = cc
  replaced_at-not_slot a i n (l ∷ ls) e = elim (Bool-cases (has_address a l.address)) [
    | inl t ↦ cc (rw t at e)
    | inr t ↦ replaced_at-not_slot a (suc i) n ls (rw t at e)
  ]

  -- A free slot that is claimed for address `a`.
  claimed-EndsAt :
      (a : ℕ) (at : ℕ → ℕ) (left : ℕ) (d : Directory) (replaced_entries : List Line)
      (r : Option ℕ × Directory) (n : ℕ) {c' : DirectoryCache}
      → AllFail s (has_address a) at left 0 d
      → first_slot s is_free at left 0 d ≡ some r
      → or_claimed s a replaced_entries r ≡ (some (in_slot n), c')
      → EndsAt a at left c'.directory n
  claimed-EndsAt a at left d replaced_entries (some m, d') n {c'} fails e h =
      let (first, (k, held, _)) = first_slot-Found s is_free at left 0 d e in
      let l : Line = record (line_or_new s (get_or d'.slots m none)) { address = some a } in
      let same : m ≡ n = cc h in
      subst (λ (r : Option Pointer × DirectoryCache). EndsAt a at left r.1.directory n) h
        (subst (λ j. EndsAt a at left (set_directory_entry d' m l) j) same
          (
            FirstAt-set (has_address a) at left 0 d' m l (
                failed_first s (has_address a) is_free at left 0 d d' m fails
                  (first_slot-Held s is_free at left 0 d e) first),
            subst (λ j. m < j) (sym (length-set_directory_entry d' m l)) (Held-lt d'.slots m held),
          ))
  claimed-EndsAt a at left d replaced_entries (none, d') n {c'} fails e h = absurd (
      replaced_at-not_slot a 0 n replaced_entries
        (ap (λ (r : Option Pointer × DirectoryCache). r.0) h))

module _ (g : Geometry) (a : ℕ) where
  or_free-EndsAt :
      (replaced_entries : List Line) (d : Directory) (r : Option ℕ × Directory) (n : ℕ)
      {c' : DirectoryCache}
      → first_slot g.scheme (has_address a) (slot g a) g.associativity 0 d ≡ some r
      → or_free g a replaced_entries r ≡ some (some (in_slot n), c')
      → EndsAt g.scheme a (slot g a) g.associativity c'.directory n
  or_free-EndsAt replaced_entries d (some m, d') n {c'} e h =
      let (first, (k, held, _)) =
        first_slot-Found g.scheme (has_address a) (slot g a) g.associativity 0 d e in
      let same : m ≡ n = cc h in
      subst_some
        (λ (r : Option Pointer × DirectoryCache).
          EndsAt g.scheme a (slot g a) g.associativity r.1.directory n)
        h
        (subst (λ j. EndsAt g.scheme a (slot g a) g.associativity d' j) same
          (first, Held-lt d'.slots m held))
  or_free-EndsAt replaced_entries d (none, d') n {c'} e h =
      let (r, e1, e2) =
        >>=-eq-some (first_slot g.scheme is_free (slot g a) g.associativity 0 d') _ h in
      claimed-EndsAt g.scheme a (slot g a) g.associativity d' replaced_entries r n
        (first_slot-Found g.scheme (has_address a) (slot g a) g.associativity 0 d e) e1
        (some_injective _ _ e2)

  -- If `getDirectoryEntry` returns an entry of the array for an address, then after a write of an entry
  -- with this address through the pointer it returns the same pointer, changes nothing, and a read
  -- through the pointer gives what was written.
  pub find_entry-store_line :
      (c : DirectoryCache) (n : ℕ) (l : Line) {c' : DirectoryCache}
      → find_entry g c a ≡ some (some (in_slot n), c')
      → l.address ≡ some a
      → (find_entry g (store_line c' (in_slot n) l) a
          ≡ some (some (in_slot n), store_line c' (in_slot n) l))
        × (load_line (store_line c' (in_slot n) l) (in_slot n) ≡ some l)
  unfolding find_entry
  find_entry-store_line c n l {c'} e la =
      let (r, e1, e2) =
        >>=-eq-some (first_slot g.scheme (has_address a) (slot g a) g.associativity 0 c.directory) _
          e in
      let (first, below) = or_free-EndsAt c.replaced_entries c.directory r n e1 e2 in
      let passes : has_address a l.address ≡ true = rw la (==_refl a) in
      (
        rw
            (first_slot-set g.scheme (has_address a) (slot g a) g.associativity 0 c'.directory n l
              first below passes)
            refl,
        set-Held g.scheme c'.directory n l below,
      )
