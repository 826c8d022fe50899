-- ===== src/Cache/Policy/Nru.antt =====
-- cache_set_nru.cc: one bit for each way, the number of updates since the last reset, and a
-- replacement pointer; the last two are bytes.
use model_lib.Prelude.{
  All, All-get_or, Bool, Bool-cases, List, Option, Option-cases, [], ap, arith, get_or,
  if◌then◌else◌, inl, inr, length, length-map, length-replicate, length-set, map, none, refl,
  replicate, set, some, suc, true, zero, ℕ, ◌%◌, ◌&&◌, ◌+◌, ◌<◌, ◌==◌, ◌∷◌, ◌≡◌, ◌≤◌,
}
use model_lib.Cache.Block.{Block, create, is_valid_replacement, block_at}
use model_lib.Cache.Policy.Ways.{
  first_invalid, first_invalid-some, search_round, found, missing, search_round_finds,
}

pub record Nru : Type 0 where
  pub bits : List ℕ
  pub num_bits_set : ℕ
  pub pointer : ℕ

-- The constructor, for `n` ways.
unfoldable pub initial : ℕ → Nru
initial n = record { bits = replicate n 0; num_bits_set = 0; pointer = 0 }

-- The loop that clears all bits.
abbrev pub cleared : List ℕ → List ℕ
cleared = map (λ _. 0)

pub update_replacement_index : Nru → ℕ → Nru
update_replacement_index s w =
    let bits = set s.bits w 1 in
    let count = (s.num_bits_set + 1) % 256 in
    if count == length s.bits
    then record s { bits = cleared bits; num_bits_set = 0 }
    else record s { bits = bits; num_bits_set = count }

-- The test of the search, at a way.
pub not_recent : List Block → List ℕ → ℕ → Bool
not_recent blocks bits w = get_or bits w 0 == 0 && is_valid_replacement (block_at blocks w)

pub get_replacement_index : List Block → Nru → Option (ℕ × Nru)
get_replacement_index blocks s = elim (first_invalid blocks 0) [
  | some i ↦ some (i, update_replacement_index s i)
  | none ↦
      elim (search_round (not_recent blocks s.bits) (length blocks) (length blocks) s.pointer) [
        | found w p ↦ some (w, update_replacement_index (record s { pointer = p }) w)
        | missing p ↦ none
      ]
]

-- In a full set with a replaceable way whose bit is clear, the victim is such a way, the pointer
-- stays in the set, and the rest of the state changes as by an access to the victim.
pub victim_not_recent :
    (blocks : List Block) (s : Nru) (j : ℕ)
    → length blocks ≤ 256
    → s.pointer < length blocks
    → first_invalid blocks 0 ≡ none
    → j < length blocks
    → get_or s.bits j 0 ≡ 0
    → is_valid_replacement (block_at blocks j) ≡ true
    → (w : ℕ) × (p : ℕ) × (get_replacement_index blocks s
        ≡ some (w, update_replacement_index (record s { pointer = p }) w))
      × (w < length blocks)
      × (p < length blocks)
      × (get_or s.bits w 0 ≡ 0)
      × (is_valid_replacement (block_at blocks w) ≡ true)
unfolding get_replacement_index not_recent
victim_not_recent blocks s j small h f i a r =
    let test = not_recent blocks s.bits in
    let (w, p, e, inside, stays, passes) =
      search_round_finds test (length blocks) small s.pointer j h i (ground arith) in
    (w, p, ground arith, inside, stays, ground arith, ground arith)

-- How many ways have their bit set.
unfoldable pub ones : List ℕ → ℕ
ones [] = 0
ones (b ∷ bs) = (if b == 0 then 0 else 1) + ones bs

-- The counter bounds the number of bits set, and some bit is clear. With 256 ways the counter, a
-- byte, would never reach the associativity.
pub record Inv (s : Nru) : Type 0 where
  pub counted : ones s.bits ≤ s.num_bits_set
  pub room : s.num_bits_set < length s.bits
  pub small : length s.bits < 256

ones-set : (bits : List ℕ) (w : ℕ) → ones (set bits w 1) ≤ suc (ones bits)
unfolding ones
ones-set [] w = omega arith
ones-set (b ∷ bs) zero = ground arith
ones-set (b ∷ bs) (suc w) = omega (arith, ones-set bs w)

ones-cleared : (bits : List ℕ) → ones (cleared bits) ≡ 0
unfolding ones
ones-cleared [] = refl
ones-cleared (b ∷ bs) = omega (arith, ones-cleared bs)

ones-replicate : (n : ℕ) → ones (replicate n 0) ≡ 0
unfolding ones
ones-replicate zero = refl
ones-replicate (suc n) = omega (arith, ones-replicate n)

ones-room :
    (bits : List ℕ) → ones bits < length bits → (j : ℕ) × (j < length bits) × (get_or bits j 0 ≡ 0)
unfolding ones
ones-room [] h = absurd (omega arith)
ones-room (b ∷ bs) h = elim (Bool-cases (b == 0)) [
  | inl e ↦ (0, omega arith, ground arith)
  | inr e ↦ let (j, p, z) = ones-room bs (ground arith) in (suc j, omega arith, z)
]

pub initial-Inv : (n : ℕ) → 0 < n → n < 256 → Inv (initial n)
unfolding initial
initial-Inv n h small = omega (arith, ones-replicate n, length-replicate {A = ℕ} n 0)

pub update_replacement_index-Inv : (s : Nru) (w : ℕ) → Inv s → Inv (update_replacement_index s w)
unfolding update_replacement_index
update_replacement_index-Inv s w v = ground (
  arith,
  ones-set s.bits w,
  length-set s.bits w 1,
  ones-cleared (set s.bits w 1),
  length-map {B = ℕ} (λ _. 0) (set s.bits w 1),
)

-- In a set of replaceable lines, with the invariant and the pointer in the set, the policy always
-- finds a victim, in a full set one whose bit is clear, and the state changes as by an access to it.
pub victim_clear :
    (blocks : List Block) (s : Nru)
    → Inv s
    → length s.bits ≡ length blocks
    → s.pointer < length blocks
    → All (λ b. is_valid_replacement b ≡ true) blocks
    → (w : ℕ) × (p : ℕ) × (get_replacement_index blocks s
        ≡ some (w, update_replacement_index (record s { pointer = p }) w))
      × (w < length blocks)
      × (p < length blocks)
      × (first_invalid blocks 0 ≡ none → get_or s.bits w 0 ≡ 0)
unfolding get_replacement_index
victim_clear blocks s v l h ok = elim (Option-cases (first_invalid blocks 0)) [
  | inl f ↦
      let (j, p, z) = ones-room s.bits (omega (arith, v.counted, v.room)) in
      let (w, q, e, i, stays, clear, _) =
        victim_not_recent blocks s j (omega (arith, v.small)) h f (omega arith) z
          (All-get_or _ blocks j create ok (omega arith)) in
      (w, q, e, i, stays, λ _. clear)
  | inr (k, f) ↦
      (k, s.pointer, ground arith, (first_invalid-some blocks k f).0, h, λ g. absurd (ground arith))
]

pub length-update : (s : Nru) (w : ℕ) → length (update_replacement_index s w).bits ≡ length s.bits
unfolding update_replacement_index
length-update s w =
    ground (arith, length-set s.bits w 1, length-map {B = ℕ} (λ _. 0) (set s.bits w 1))

pub pointer-update : (s : Nru) (w : ℕ) → (update_replacement_index s w).pointer ≡ s.pointer
unfolding update_replacement_index
pointer-update s w = ground arith

-- `updates s w n` is the state after `n` accesses to way `w`.
pub updates : Nru → ℕ → ℕ → Nru
updates s w zero = s
updates s w (suc n) = updates (update_replacement_index s w) w n

cleared-set : (bits : List ℕ) (w v : ℕ) → cleared (set bits w v) ≡ cleared bits
cleared-set [] w v = refl
cleared-set (b ∷ bs) zero v = refl
cleared-set (b ∷ bs) (suc w) v = ap (◌∷◌ 0) (cleared-set bs w v)

update_counts :
    (s : Nru) (w : ℕ)
    → suc s.num_bits_set < length s.bits
    → length s.bits < 256
    → update_replacement_index s w
      ≡ record s { bits = set s.bits w 1; num_bits_set = suc s.num_bits_set }
unfolding update_replacement_index
update_counts s w h small = ground arith

update_resets :
    (s : Nru) (w : ℕ)
    → suc s.num_bits_set ≡ length s.bits
    → length s.bits < 256
    → update_replacement_index s w ≡ record s { bits = cleared s.bits; num_bits_set = 0 }
unfolding update_replacement_index
update_resets s w h small = ground (arith, cleared-set s.bits w 1)

-- The reset counts accesses and not bits, in a set of fewer than 256 ways: after as many accesses to
-- one way as the counter lacks of the number of ways, all bits are clear and the counter is 0.
pub reset_by_one_way :
    (k : ℕ) (s : Nru) (w : ℕ)
    → s.num_bits_set + suc k ≡ length s.bits
    → length s.bits < 256
    → updates s w (suc k) ≡ record s { bits = cleared s.bits; num_bits_set = 0 }
unfolding updates
reset_by_one_way zero s w e h = update_resets s w (omega arith) h
reset_by_one_way (suc k) s w e h = rw (update_counts s w (omega arith) (omega arith)) (
    ground (
      arith,
      reset_by_one_way k (record s { bits = set s.bits w 1; num_bits_set = suc s.num_bits_set }) w,
      length-set s.bits w 1,
      cleared-set s.bits w 1,
    ))
