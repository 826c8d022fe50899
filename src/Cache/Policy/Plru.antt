-- ===== src/Cache/Policy/Plru.antt =====
-- cache_set_plru.cc: the tree bits `b[0..6]` (b[7] is never used), for 4 and for 8 ways.
use model_lib.Prelude.{
  All, All-get_or, List, Option, Option-cases, arith, guard, if◌then◌else◌, inl, inr, length, none,
  some, true, ℕ, ◌<◌, ◌==◌, ◌>>=◌, ◌>>◌, ◌||◌, ◌≡◌, ◌≢◌, ◌⊎◌,
}
use model_lib.Cache.Block.{Block, create, is_valid_replacement, block_at}
use model_lib.Cache.Policy.Ways.{first_invalid, first_invalid-some}

pub record Plru : Type 0 where
  pub b0 : ℕ
  pub b1 : ℕ
  pub b2 : ℕ
  pub b3 : ℕ
  pub b4 : ℕ
  pub b5 : ℕ
  pub b6 : ℕ

-- The constructor: any other associativity is refused.
pub initial : ℕ → Option Plru
initial n = do
  guard (n == 4 || n == 8)
  some (record { b0 = 0; b1 = 0; b2 = 0; b3 = 0; b4 = 0; b5 = 0; b6 = 0 })

pub initial-some : (n : ℕ) → (n ≡ 4) ⊎ (n ≡ 8) → (s : Plru) × (initial n ≡ some s)
unfolding initial
initial-some n h = (record { b0 = 0; b1 = 0; b2 = 0; b3 = 0; b4 = 0; b5 = 0; b6 = 0 }, ground arith)

-- The leaf of the tree that the bits lead to.
pub leaf_of_4 : Plru → ℕ
leaf_of_4 s = if s.b0 == 0 then if s.b1 == 0 then 0 else 1 else if s.b2 == 0 then 2 else 3

pub leaf_of_8 : Plru → ℕ
leaf_of_8 s =
    if s.b0 == 0
    then if s.b1 == 0 then (if s.b2 == 0 then 0 else 1) else (if s.b3 == 0 then 2 else 3)
    else if s.b4 == 0
    then (if s.b5 == 0 then 4 else 5)
    else (if s.b6 == 0 then 6 else 7)

pub update_4 : Plru → ℕ → Plru
update_4 s w =
    if w == 0
    then record s { b0 = 1; b1 = 1 }
    else if w == 1
    then record s { b0 = 1; b1 = 0 }
    else if w == 2
    then record s { b0 = 0; b2 = 1 }
    else if w == 3
    then record s { b0 = 0; b2 = 0 }
    else s

pub update_8 : Plru → ℕ → Plru
update_8 s w =
    if w == 0
    then record s { b0 = 1; b1 = 1; b2 = 1 }
    else if w == 1
    then record s { b0 = 1; b1 = 1; b2 = 0 }
    else if w == 2
    then record s { b0 = 1; b1 = 0; b3 = 1 }
    else if w == 3
    then record s { b0 = 1; b1 = 0; b3 = 0 }
    else if w == 4
    then record s { b0 = 0; b4 = 1; b5 = 1 }
    else if w == 5
    then record s { b0 = 0; b4 = 1; b5 = 0 }
    else if w == 6
    then record s { b0 = 0; b4 = 0; b6 = 1 }
    else if w == 7
    then record s { b0 = 0; b4 = 0; b6 = 0 }
    else s

pub update_replacement_index : ℕ → Plru → ℕ → Option Plru
unfolding update_4 update_8
update_replacement_index assoc s w =
    if assoc == 4 then some (update_4 s w) else if assoc == 8 then some (update_8 s w) else none

-- The way that the tree selects for this associativity.
pub leaf : ℕ → Plru → Option ℕ
unfolding leaf_of_4 leaf_of_8
leaf assoc s =
    if assoc == 4 then some (leaf_of_4 s) else if assoc == 8 then some (leaf_of_8 s) else none

pub get_replacement_index : List Block → Plru → Option (ℕ × Plru)
get_replacement_index blocks s = elim (first_invalid blocks 0) [
  | some i ↦ do s' ← update_replacement_index (length blocks) s i; some (i, s')
  | none ↦ do
    w ← leaf (length blocks) s
    guard (is_valid_replacement (block_at blocks w))
    s' ← update_replacement_index (length blocks) s w
    some (w, s')
]

-- A tree with `assoc` leaves.
abbrev pub Supported : ℕ → Type 0
Supported assoc = (assoc ≡ 4) ⊎ (assoc ≡ 8)

leaf_of_4-update :
    (s : Plru) (w : ℕ) → w < 4 → (leaf_of_4 (update_4 s w) < 4) × (leaf_of_4 (update_4 s w) ≢ w)
unfolding leaf_of_4 update_4
leaf_of_4-update s w h = ground arith

leaf_of_8-update :
    (s : Plru) (w : ℕ) → w < 8 → (leaf_of_8 (update_8 s w) < 8) × (leaf_of_8 (update_8 s w) ≢ w)
unfolding leaf_of_8 update_8
leaf_of_8-update s w h = ground arith

-- With 4 or 8 ways an access to a way of the set succeeds, and afterwards the tree leads to a way of
-- the set other than the one accessed.
pub leaf-update :
    (assoc : ℕ) (s : Plru) (w : ℕ)
    → Supported assoc
    → w < assoc
    → (s' : Plru) × (v : ℕ) × (update_replacement_index assoc s w ≡ some s')
      × (leaf assoc s' ≡ some v)
      × (v < assoc)
      × (v ≢ w)
leaf-update assoc s w (inl e) h =
    let l = leaf_of_4-update s w (omega arith) in
    (
      update_4 s w,
      leaf_of_4 (update_4 s w),
      unfold update_replacement_index in rw e,
      unfold leaf in rw e,
      rw e l.0,
      l.1,
    )
leaf-update assoc s w (inr e) h =
    let l = leaf_of_8-update s w (omega arith) in
    (
      update_8 s w,
      leaf_of_8 (update_8 s w),
      unfold update_replacement_index in rw e,
      unfold leaf in rw e,
      rw e l.0,
      l.1,
    )

leaf-lt : (assoc : ℕ) (s : Plru) → Supported assoc → (v : ℕ) × (leaf assoc s ≡ some v) × (v < assoc)
unfolding leaf
leaf-lt assoc s (inl e) = (leaf_of_4 s, rw e, rw e (ground arith))
leaf-lt assoc s (inr e) = (leaf_of_8 s, rw e, rw e (ground arith))

-- In a full set of 4 or 8 replaceable ways the policy always finds a victim, the way the tree led to,
-- and afterwards the tree leads elsewhere.
pub victim_leaf :
    (blocks : List Block) (s : Plru)
    → Supported (length blocks)
    → first_invalid blocks 0 ≡ none
    → All (λ b. is_valid_replacement b ≡ true) blocks
    → (w : ℕ) × (s' : Plru) × (v : ℕ) × (get_replacement_index blocks s ≡ some (w, s'))
      × (leaf (length blocks) s ≡ some w)
      × (w < length blocks)
      × (leaf (length blocks) s' ≡ some v)
      × (v ≢ w)
unfolding get_replacement_index
victim_leaf blocks s a f r =
    let (w, l, h) = leaf-lt (length blocks) s a in
    let (s', v, u, l', h', ne) = leaf-update (length blocks) s w a h in
    let ok : is_valid_replacement (block_at blocks w) ≡ true = All-get_or _ blocks w create r h in
    (w, s', v, ground arith, l, h, l', ne)

-- With a supported associativity a set of replaceable lines always has a victim.
pub victim_some :
    (blocks : List Block) (s : Plru)
    → Supported (length blocks)
    → All (λ b. is_valid_replacement b ≡ true) blocks
    → (w : ℕ) × (s' : Plru) × (get_replacement_index blocks s ≡ some (w, s')) × (w < length blocks)
unfolding get_replacement_index
victim_some blocks s a ok = elim (Option-cases (first_invalid blocks 0)) [
  | inl f ↦ let (w, s', _, e, _, h, _, _) = victim_leaf blocks s a f ok in (w, s', e, h)
  | inr (k, f) ↦
      let inside = (first_invalid-some blocks k f).0 in
      let (s', _, u, _, _, _) = leaf-update (length blocks) s k a inside in
      (k, s', ground arith, inside)
]
