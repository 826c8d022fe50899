-- ===== src/Memory/Directory/Entry/Sharers.antt =====
-- The sharers of a directory entry as a set of cores.
use model_lib.Prelude.{
  ==_refl, Bool, List, [], ap, arith, false, get_elem?, get_or, get_or-set_ne, get_or-set_self,
  if◌then◌else◌, leb, length, ltb, refl, set, some, suc, sym, true, zero, ℕ, ◌%◌, ◌*◌, ◌+◌, ◌/◌,
  ◌<◌, ◌==◌, ◌^◌, ◌∙◌, ◌∷◌, ◌≡◌, ◌≢◌, ◌≤◌,
}
use native.Mathlib.Nat.{mod-lt}
use model_lib.Memory.Directory.Entry.{
  DirectoryEntry, count, sharers_from, sharers_list, has_sharer, add_limited, remove_sharer,
  first_sharer, get_one_sharer, draw_below, get_random_sharer,
}

-- How a write to a bit changes the number of set bits.
count-set :
    (bs : List Bool) (i : ℕ)
    → i < length bs
    → (get_or bs i false ≡ false → count (set bs i true) ≡ suc (count bs))
      × (get_or bs i false ≡ true → suc (count (set bs i false)) ≡ count bs)
unfolding count
count-set [] i h = absurd (omega arith)
count-set (b ∷ bs) zero h = ground arith
count-set (b ∷ bs) (suc i) h =
    let (up, down) = count-set bs i (omega arith) in
    (λ e. ground (arith, up e), λ e. ground (arith, down e))

-- `addSharer` with a hardware limit, for a core that is no sharer yet. Below the limit the core
-- becomes a sharer, the others stay, and there is one sharer more. At the limit the answer is `false`
-- and nothing changes.
pub add_limited_lem :
    (e : DirectoryEntry) (id limit : ℕ)
    → id < length e.sharers
    → has_sharer e id ≡ false
    → (count e.sharers < limit
        → (e' : DirectoryEntry) × (add_limited e id limit ≡ some (true, e'))
          × (has_sharer e' id ≡ true)
          × ((j : ℕ) → j ≢ id → has_sharer e' j ≡ has_sharer e j)
          × (count e'.sharers ≡ suc (count e.sharers)))
      × (limit ≤ count e.sharers → add_limited e id limit ≡ some (false, e))
unfolding add_limited has_sharer
add_limited_lem e id limit h n = (
  λ below.
      let room : leb limit (count e.sharers) ≡ false = ground arith in
      (
        record e { sharers = set e.sharers id true },
        rw (n, add_limited) (rw room refl),
        get_or-set_self e.sharers id true false h,
        λ j ne. get_or-set_ne e.sharers id j true false (λ q. ne (sym q)),
        (count-set e.sharers id h).0 n,
      ),
  λ full.
      let none_left : leb limit (count e.sharers) ≡ true = ground arith in
      rw (n, add_limited) (rw none_left refl),
)

-- `removeSharer` of a sharer, without a reply, always succeeds: the core is no sharer any more, the
-- others stay, and there is one sharer less.
pub remove_sharer_lem :
    (e : DirectoryEntry) (id : ℕ)
    → id < length e.sharers
    → has_sharer e id ≡ true
    → (e' : DirectoryEntry) × (remove_sharer e id false ≡ some e')
      × (has_sharer e' id ≡ false)
      × ((j : ℕ) → j ≢ id → has_sharer e' j ≡ has_sharer e j)
      × (suc (count e'.sharers) ≡ count e.sharers)
unfolding remove_sharer has_sharer
remove_sharer_lem e id h y = (
  record e { sharers = set e.sharers id false },
  rw (y, remove_sharer) refl,
  get_or-set_self e.sharers id false false h,
  λ j ne. get_or-set_ne e.sharers id j false false (λ q. ne (sym q)),
  (count-set e.sharers id h).1 y,
)

-- Whether a number stands in a list.
abbrev pub contains : ℕ → List ℕ → Bool
contains j [] = false
contains j (x ∷ xs) = if x == j then true else contains j xs

length-sharers_from : (bs : List Bool) (from : ℕ) → length (sharers_from from bs) ≡ count bs
unfolding sharers_from count
length-sharers_from [] from = refl
length-sharers_from (b ∷ bs) from = ground (arith, length-sharers_from bs (suc from))

-- Nothing below the first number stands in the list.
sharers_from_below :
    (bs : List Bool) (from j : ℕ) → j < from → contains j (sharers_from from bs) ≡ false
unfolding sharers_from
sharers_from_below [] from j h = refl
sharers_from_below (b ∷ bs) from j h =
    ground (arith, sharers_from_below bs (suc from) j (omega arith))

contains-sharers_from :
    (bs : List Bool) (from j : ℕ) → contains (from + j) (sharers_from from bs) ≡ get_or bs j false
unfolding sharers_from
contains-sharers_from [] from j = refl
contains-sharers_from (true ∷ bs) from zero =
    let z : from + 0 ≡ from = omega arith in ground (arith, z)
contains-sharers_from (false ∷ bs) from zero =
    let z : from + 0 ≡ from = omega arith in
    ap (λ k. contains k (sharers_from (suc from) bs)) z
    ∙ sharers_from_below bs (suc from) from (omega arith)
contains-sharers_from (true ∷ bs) from (suc j) =
    let shift : from + suc j ≡ suc from + j = omega arith in
    let other : (from == from + suc j) ≡ false = ground arith in
    rw other (
      ap (λ k. contains k (sharers_from (suc from) bs)) shift
      ∙ contains-sharers_from bs (suc from) j)
contains-sharers_from (false ∷ bs) from (suc j) =
    let shift : from + suc j ≡ suc from + j = omega arith in
    ap (λ k. contains k (sharers_from (suc from) bs)) shift ∙ contains-sharers_from bs (suc from) j

-- `getSharersList` lists exactly the sharers, as many as `getNumSharers` counts.
pub sharers_list_lem :
    (e : DirectoryEntry) (j : ℕ)
    → (length (sharers_list e) ≡ count e.sharers) × (contains j (sharers_list e) ≡ has_sharer e j)
unfolding sharers_list has_sharer
sharers_list_lem e j = (
  length-sharers_from e.sharers 0,
  let z : 0 + j ≡ j = omega arith in
      ap (λ k. contains k (sharers_from 0 e.sharers)) (sym z) ∙ contains-sharers_from e.sharers 0 j,
)

first_sharer-some :
    (bs : List Bool) (from : ℕ)
    → 0 < count bs
    → (j : ℕ) × (first_sharer from bs ≡ some (from + j)) × (get_or bs j false ≡ true)
unfolding first_sharer count
first_sharer-some [] from h = absurd (omega arith)
first_sharer-some (true ∷ bs) from h = let z : from ≡ from + 0 = omega arith in (0, ap some z, refl)
first_sharer-some (false ∷ bs) from h =
    let (j, e, g) = first_sharer-some bs (suc from) h in
    let shift : suc from + j ≡ from + suc j = omega arith in (suc j, e ∙ ap some shift, g)

-- `getOneSharer` of a limitless entry finds a sharer whenever there is one.
pub get_one_sharer_lem :
    (e : DirectoryEntry)
    → 0 < count e.sharers
    → (id : ℕ) × (get_one_sharer e ≡ some id) × (has_sharer e id ≡ true)
unfolding get_one_sharer has_sharer
get_one_sharer_lem e h =
    let (j, f, g) = first_sharer-some e.sharers 0 h in
    let z : 0 + j ≡ j = omega arith in (j, f ∙ ap some z, g)

contains_element :
    (xs : List ℕ) (i : ℕ)
    → i < length xs
    → (x : ℕ) × (get_elem? xs i ≡ some x) × (contains x xs ≡ true)
contains_element [] i h = absurd (omega arith)
contains_element (x ∷ xs) zero h = (x, refl, rw (==_refl x) refl)
contains_element (x ∷ xs) (suc i) h =
    let (y, e, c) = contains_element xs i (omega arith) in (y, e, ground arith)

-- `getOneSharer` of a limited entry draws one of the sharers whenever there is one, whatever the seed.
pub get_random_sharer_lem :
    (e : DirectoryEntry) (seed : ℕ)
    → 0 < count e.sharers
    → (id : ℕ) × (seed' : ℕ) × (get_random_sharer e seed ≡ some (id, seed'))
      × (has_sharer e id ≡ true)
unfolding get_random_sharer
get_random_sharer_lem e seed h =
    let (len, _) = sharers_list_lem e 0 in
    let r = draw_below (length (sharers_list e)) seed in
    let below : r.0 < length (sharers_list e) =
      mod-lt ((seed * 1103515245 + 12345) % 2 ^ 32 / 65536) (omega (arith, len)) in
    let (id, got, inside) = contains_element (sharers_list e) r.0 below in
    let some_left : ltb 0 (length (sharers_list e)) ≡ true = ground (arith, len) in
    (
      id,
      r.1,
      rw (some_left, get_random_sharer) (rw got refl),
      sym (sharers_list_lem e id).1 ∙ inside,
    )
