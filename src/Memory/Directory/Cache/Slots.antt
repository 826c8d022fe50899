-- ===== src/Memory/Directory/Cache/Slots.antt =====
-- The search of `getDirectoryEntry` through the slots of an address: the first one that passes.
use model_lib.Prelude.{
  ==_iff, >>=-eq-some, Bool, Bool-cases, List, Option, [], ap, arith, false, get_or, get_or-set_ne,
  get_or-set_self, guard-eq-some, inl, inr, length, ltb, none, refl, some, subst, subst_some, suc,
  sym, true, zero, ℕ, ◌<◌, ◌==◌, ◌∙◌, ◌∷◌, ◌≡◌, ◌≢◌, ◌⊎◌,
}
use model_lib.Memory.Directory.Store.{
  Scheme, Line, Directory, create_line, set_directory_entry, found_or_created, get_directory_entry,
}
use model_lib.Memory.Directory.Cache.{first_slot}

-- The entry that slot `n` holds.
abbrev pub Held : Directory → ℕ → Line → Type 0
Held d n l = get_or d.slots n none ≡ some l

pub Held-lt :
    (xs : List (Option Line)) (n : ℕ) {l : Line} → get_or xs n none ≡ some l → n < length xs
Held-lt [] n h = cc
Held-lt (x ∷ xs) zero h = omega arith
Held-lt (x ∷ xs) (suc n) h = omega (arith, Held-lt xs n h)

module _ (s : Scheme) where
  found_or_created-Held :
      (d : Directory) (n : ℕ) (o : Option Line)
      → n < length d.slots
      → get_or d.slots n none ≡ o
      → Held (found_or_created s d n o).1 n (found_or_created s d n o).0
        × ((m : ℕ) (l : Line) → Held d m l → Held (found_or_created s d n o).1 m l)
  unfolding set_directory_entry
  found_or_created-Held d n (some l) b h = (h, λ m l k. k)
  found_or_created-Held d n none b h = (
    get_or-set_self d.slots n (some (create_line s)) none b,
    λ m l k. elim (Bool-cases (n == m)) [
      | inl t ↦ let same : n ≡ m = (==_iff n m).0 t in cc (subst (λ j. Held d j l) (sym same) k, h)
      | inr t ↦
          let other : n ≢ m = ground arith in
          get_or-set_ne d.slots n m (some (create_line s)) none other ∙ k
    ],
  )

  get_directory_entry-Held :
      (d : Directory) (n : ℕ) {r : Line × Directory}
      → get_directory_entry s d n ≡ some r
      → Held r.1 n r.0 × ((m : ℕ) (l : Line) → Held d m l → Held r.1 m l)
  unfolding get_directory_entry
  get_directory_entry-Held d n {r} e =
      let (below, e1) = guard-eq-some (ltb n (length d.slots)) _ e in
      subst_some
        (λ (r : Line × Directory).
          Held r.1 n r.0 × ((m : ℕ) (l : Line) → Held d m l → Held r.1 m l))
        e1 (found_or_created-Held d n (get_or d.slots n none) (ground arith) refl)

  -- A slot that holds an entry is read without a change.
  pub Held-get_directory_entry :
      (d : Directory) (n : ℕ) (l : Line) → Held d n l → get_directory_entry s d n ≡ some (l, d)
  unfolding get_directory_entry
  Held-get_directory_entry d n l h =
      let below : ltb n (length d.slots) ≡ true = ground (arith, Held-lt d.slots n h) in
      rw (below, get_directory_entry) (ap (λ o. some (found_or_created s d n o)) h)

  pub first_slot-Held :
      (test : Option ℕ → Bool) (at : ℕ → ℕ) (left i : ℕ) (d : Directory) {r : Option ℕ × Directory}
      → first_slot s test at left i d ≡ some r
      → (m : ℕ) (l : Line) → Held d m l
      → Held r.1 m l
  unfolding first_slot
  first_slot-Held test at zero i d {r} e m l h =
      subst_some (λ (o : Option ℕ × Directory). Held o.1 m l) e h
  first_slot-Held test at (suc left) i d {r} e m l h =
      let (g, e1, e2) = >>=-eq-some (get_directory_entry s d (at i)) _ e in
      let h1 : Held g.1 m l = (get_directory_entry-Held d (at i) e1).1 m l h in
      elim (Bool-cases (test g.0.address)) [
        | inl t ↦ subst_some (λ (o : Option ℕ × Directory). Held o.1 m l) (rw t at e2) h1
        | inr t ↦ first_slot-Held test at left (suc i) g.1 (rw t at e2) m l h1
      ]

  -- The entry in slot `at i` fails the test.
  abbrev Fails : (Option ℕ → Bool) → Directory → ℕ → Type 0
  Fails test d n = (l : Line) × Held d n l × (test l.address ≡ false)

  -- All the slots fail.
  abbrev pub AllFail : (Option ℕ → Bool) → (ℕ → ℕ) → ℕ → ℕ → Directory → Type 0
  AllFail test at zero i d = Unit
  AllFail test at (suc left) i d = Fails test d (at i) × AllFail test at left (suc i) d

  -- All slots before the first that is slot `n` fail.
  abbrev pub FirstAt : (Option ℕ → Bool) → (ℕ → ℕ) → ℕ → ℕ → Directory → ℕ → Type 0
  FirstAt test at zero i d n = ⊥
  FirstAt test at (suc left) i d n =
      (at i ≡ n) ⊎ (Fails test d (at i) × FirstAt test at left (suc i) d n)

  -- What a search finds.
  abbrev Found : (Option ℕ → Bool) → (ℕ → ℕ) → ℕ → ℕ → Option ℕ × Directory → Type 0
  Found test at left i (none, d) = AllFail test at left i d
  Found test at left i (some n, d) =
      FirstAt test at left i d n × ((l : Line) × Held d n l × (test l.address ≡ true))

  Found-suc :
      (test : Option ℕ → Bool) (at : ℕ → ℕ) (left i : ℕ) (r : Option ℕ × Directory)
      → Fails test r.1 (at i)
      → Found test at left (suc i) r
      → Found test at (suc left) i r
  Found-suc test at left i (none, d) f h = (f, h)
  Found-suc test at left i (some n, d) f h = (inr (f, h.0), h.1)

  pub first_slot-Found :
      (test : Option ℕ → Bool) (at : ℕ → ℕ) (left i : ℕ) (d : Directory) {r : Option ℕ × Directory}
      → first_slot s test at left i d ≡ some r
      → Found test at left i r
  unfolding first_slot
  first_slot-Found test at zero i d {r} e = subst_some (Found test at zero i) e tt
  first_slot-Found test at (suc left) i d {r} e =
      let (g, e1, e2) = >>=-eq-some (get_directory_entry s d (at i)) _ e in
      let held : Held g.1 (at i) g.0 = (get_directory_entry-Held d (at i) e1).0 in
      elim (Bool-cases (test g.0.address)) [
        | inl t ↦ subst_some (Found test at (suc left) i) (rw t at e2) (inl refl, (g.0, held, t))
        | inr t ↦
            let e3 : first_slot s test at left (suc i) g.1 ≡ some r = rw t at e2 in
            Found-suc test at left i r
              (g.0, first_slot-Held test at left (suc i) g.1 e3 (at i) g.0 held, t)
              (first_slot-Found test at left (suc i) g.1 e3)
      ]

  -- A search that failed, and one for a free slot after it.
  pub failed_first :
      (test free : Option ℕ → Bool) (at : ℕ → ℕ) (left i : ℕ) (d d' : Directory) (n : ℕ)
      → AllFail test at left i d
      → ((m : ℕ) (l : Line) → Held d m l → Held d' m l)
      → FirstAt free at left i d' n
      → FirstAt test at left i d' n
  failed_first test free at zero i d d' n a k f = f
  failed_first test free at (suc left) i d d' n ((l, h, t), a) k (inl e) = inl e
  failed_first test free at (suc left) i d d' n ((l, h, t), a) k (inr (g, f)) =
      inr ((l, k (at i) l h, t), failed_first test free at left (suc i) d d' n a k f)
