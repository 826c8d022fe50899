-- ===== src/Cache/Policy/Lru/Victim.antt =====
-- Which way `CacheSetLRU::getReplacementIndex` chooses in a set without a free way.
use model_lib.Prelude.{
  List, Option, Option-cases, [], arith, false, get_or, if◌then◌else◌, inl, inr, length, length-set,
  none, set, some, suc, sym, true, zero, ℕ, ◌%◌, ◌+◌, ◌<◌, ◌^◌, ◌∷◌, ◌≡◌, ◌≢◌, ◌≤◌,
}
use model_lib.Cache.Block.{Block, is_valid_replacement, block_at}
use model_lib.Cache.Policy.Ages.{touch}
use model_lib.Cache.Policy.Ways.{first_invalid, first_invalid-some}
use model_lib.Cache.Policy.Lru.Recency.{Ranks, move_to_front, touch-Ranks}
use model_lib.Cache.Policy.Lru.{scan, get_replacement_index, increment, update_replacement_index}
use model_lib.Cache.Policy.Lru.Scan.{Full, NotOlder, scan_done, scan_finds}

-- The specification: the last replaceable way in the recency order.
unfoldable pub oldest : List Block → List ℕ → Option ℕ
oldest blocks [] = none
oldest blocks (w ∷ ws) = elim (oldest blocks ws) [
  | some v ↦ some v
  | none ↦ if is_valid_replacement (block_at blocks w) then some w else none
]

oldest-none :
    (blocks : List Block) (order : List ℕ) (k : ℕ)
    → oldest blocks order ≡ none
    → k < length order
    → is_valid_replacement (block_at blocks (get_or order k 0)) ≡ false
unfolding oldest
oldest-none blocks [] k e h = absurd (omega arith)
oldest-none blocks (w ∷ ws) zero e h = ground arith
oldest-none blocks (w ∷ ws) (suc k) e h = ground (arith, oldest-none blocks ws k)

-- Where `oldest` stands in the order: nothing replaceable comes after it.
abbrev LastAt : List Block → List ℕ → ℕ → ℕ → Type 0
LastAt blocks order w k =
    (k < length order)
    × (get_or order k 0 ≡ w)
    × (is_valid_replacement (block_at blocks w) ≡ true)
    × ((j : ℕ)
        → k < j
        → j < length order
        → is_valid_replacement (block_at blocks (get_or order j 0)) ≡ false)

oldest-LastAt :
    (blocks : List Block) (order : List ℕ) (w : ℕ)
    → oldest blocks order ≡ some w
    → (k : ℕ) × LastAt blocks order w k
unfolding oldest
oldest-LastAt blocks [] w e = absurd (ground arith)
oldest-LastAt blocks (x ∷ xs) w e = elim (Option-cases (oldest blocks xs)) [
  | inl n ↦ (0, (omega arith, ground arith, ground arith, later n))
  | inr (v, s) ↦
      let (k, at) = oldest-LastAt blocks xs w (ground arith) in
      (suc k, (omega (arith, at.0), at.1, at.2, shifted k at.3))
]
  where
    later :
        oldest blocks xs ≡ none
        → (j : ℕ) → 0 < j
        → j < length (x ∷ xs)
        → is_valid_replacement (block_at blocks (get_or (x ∷ xs) j 0)) ≡ false
    later n zero p q = absurd (omega arith)
    later n (suc j) p q = oldest-none blocks xs j n (omega arith)

    shifted :
        (k : ℕ)
        → ((j : ℕ)
            → k < j
            → j < length xs
            → is_valid_replacement (block_at blocks (get_or xs j 0)) ≡ false)
        → (j : ℕ) → suc k < j
        → j < length (x ∷ xs)
        → is_valid_replacement (block_at blocks (get_or (x ∷ xs) j 0)) ≡ false
    shifted k l zero p q = absurd (omega arith)
    shifted k l (suc j) p q = l j (omega arith) (omega arith)

-- In a full set the victim is the least recently used of the replaceable ways, unless that is the
-- way in front of the order, and it becomes the most recently used one.
pub victim-oldest :
    (blocks : List Block) (order ages : List ℕ) (w : ℕ)
    → Ranks order ages
    → length blocks ≡ length ages
    → Full blocks
    → oldest blocks order ≡ some w
    → w ≢ get_or order 0 0
    → (get_replacement_index blocks ages ≡ some (w, touch ages w))
      × Ranks (move_to_front w order) (touch ages w)
unfolding get_replacement_index
victim-oldest blocks order ages w r e f o ne =
    let (k, at) = oldest-LastAt blocks order w o in
    let inside : w < length ages =
      ground (arith, at.1, r.way k (omega (arith, at.0, r.same_length))) in
    let rank : get_or ages w 0 ≡ k =
      ground (arith, at.1, r.way k (omega (arith, at.0, r.same_length))) in
    let older =
      λ (j : ℕ) (h : j < length blocks) (n : j ≢ w)
          (v : is_valid_replacement (block_at blocks j) ≡ true).
        let y : get_or ages j 0 < get_or ages w 0 = younger k at rank j h n v in y in
    let found : scan blocks ages 0 0 0 ≡ w = omega (
      arith,
      scan_finds blocks ages 0 0 0 w (omega arith) f (omega arith) at.2 (positive k at rank) older,
    ) in
    (rw found (ground arith), touch-Ranks order ages r w inside)
  where
    positive : (k : ℕ) → LastAt blocks order w k → get_or ages w 0 ≡ k → 0 < get_or ages w 0
    positive zero at rank = absurd (ne (sym at.1))
    positive (suc k) at rank = omega arith

    younger :
        (k : ℕ)
        → LastAt blocks order w k
        → get_or ages w 0 ≡ k
        → (j : ℕ) → j < length blocks
        → j ≢ w
        → is_valid_replacement (block_at blocks j) ≡ true
        → get_or ages j 0 < get_or ages w 0
    younger k at rank j h n v =
        ground (arith, at.1, r.place j (omega arith), r.same_length, at.3 (get_or ages j 0))

scan_free :
    (bs : List Block) (ages : List ℕ) (i index max k : ℕ)
    → length ages ≡ length bs
    → first_invalid bs i ≡ some k
    → scan bs ages i index max ≡ k
unfolding scan first_invalid
scan_free [] ages i index max k e h = absurd (ground arith)
scan_free (b ∷ bs) [] i index max k e h = absurd (omega arith)
scan_free (b ∷ bs) (a ∷ as') i index max k e h = ground (
  arith,
  scan_free bs as' (i + 1) i a k (omega arith),
  scan_free bs as' (i + 1) index max k (omega arith),
)

-- A way that holds no line is taken first, the one of the lowest index.
pub victim_free :
    (blocks : List Block) (ages : List ℕ) (k : ℕ)
    → length blocks ≡ length ages
    → first_invalid blocks 0 ≡ some k
    → get_replacement_index blocks ages ≡ some (k, touch ages k)
unfolding get_replacement_index
victim_free blocks ages k e h =
    let found : scan blocks ages 0 0 0 ≡ k = scan_free blocks ages 0 0 0 k (sym e) h in
    let inside = first_invalid-some blocks k h in rw found (ground arith)

-- In a full set with no replaceable way but perhaps the most recently used one, the victim is way 0,
-- whatever its state: also a line in the middle of an upgrade.
pub victim_unchecked :
    (blocks : List Block) (ages : List ℕ)
    → 0 < length blocks
    → Full blocks
    → ((j : ℕ) → j < length blocks → NotOlder blocks ages 0 j)
    → get_replacement_index blocks ages ≡ some (0, touch ages 0)
unfolding get_replacement_index
victim_unchecked blocks ages h f n =
    let found : scan blocks ages 0 0 0 ≡ 0 = scan_done blocks ages 0 0 0 f n in
    rw found (ground arith)

-- The scan never leaves the set: it returns the index so far or a way it has looked at.
scan_range :
    (bs : List Block) (ages : List ℕ) (i index max n : ℕ)
    → index < n
    → i + length bs ≤ n
    → scan bs ages i index max < n
unfolding scan
scan_range [] ages i index max n h l = h
scan_range (b ∷ bs) [] i index max n h l = h
scan_range (b ∷ bs) (a ∷ as') i index max n h l = ground (
  arith,
  scan_range bs as' (i + 1) i a n (omega arith) (omega arith),
  scan_range bs as' (i + 1) index max n h (omega arith),
)

pub victim_total :
    (blocks : List Block) (ages : List ℕ)
    → 0 < length blocks
    → (w : ℕ) × (get_replacement_index blocks ages ≡ some (w, touch ages w)) × (w < length blocks)
unfolding get_replacement_index
victim_total blocks ages h =
    let inside = scan_range blocks ages 0 0 0 (length blocks) h (omega arith) in
    (scan blocks ages 0 0 0, ground arith, inside)

-- With ages that rank the ways, an access to a way of the set always succeeds: a counter is
-- incremented, their number stays, and the way becomes the most recently used one.
pub update_total :
    (access order ages : List ℕ) (w : ℕ)
    → Ranks order ages
    → length access ≡ length ages
    → w < length ages
    → (access' : List ℕ) × (update_replacement_index access ages w ≡ some (access', touch ages w))
      × (length access' ≡ length access)
unfolding update_replacement_index increment
update_total access order ages w r l h =
    let a = get_or ages w 0 in
    let c = (get_or access a 0 + 1) % 2 ^ 64 in
    (set access a c, ground (arith, r.place w h), length-set access a c)
