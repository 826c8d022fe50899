-- ===== src/Cache/Address.antt =====
-- cache_base.h and cache_base.cc, with address_home_lookup.cc (`getTag`) and misc/rng.h: how an address
-- is split into tag, set and offset. Addresses are 64-bit words, indices 32-bit words.
use model_lib.Prelude.{
  Bool, Option, Option-cases, arith, false, guard, if◌then◌else◌, inl, inr, none, not, refl, some,
  true, ℕ, ◌%◌, ◌*◌, ◌+◌, ◌-◌, ◌/◌, ◌<◌, ◌==◌, ◌>>=◌, ◌>>◌, ◌^◌, ◌||◌, ◌≡◌,
}
use Prim.Native.Nat.{bit_and}
use Prim.Native.String.{String}
use text.Mathlib.Text.{◌==◌ as str_eq}
use native.Mathlib.Nat.{one-le-pow, div-add-mod', mod-lt}
use model_lib.Prelude.Bits.{bit_and-ones}
use model_lib.Misc.Utils.{floor_log2}

-- `CacheBase::hash_t`
pub data Hash : Type 0 where
  hash_mask hash_mod hash_rng1_mod hash_rng2_mod : Hash

-- `parseAddressHash`
abbrev pub parse_address_hash : String → Option Hash
parse_address_hash name =
    if str_eq name "mask"
    then some hash_mask
    else if str_eq name "mod"
    then some hash_mod
    else if str_eq name "rng1_mod"
    then some hash_rng1_mod
    else if str_eq name "rng2_mod"
    then some hash_rng2_mod
    else none

-- `AddressHomeLookup`: the shift and the number of modules.
pub record HomeLookup : Type 0 where
  pub ahl_param : ℕ
  pub total_modules : ℕ

-- `AddressHomeLookup::getTag`
abbrev pub home_tag : HomeLookup → ℕ → ℕ
home_tag l addr = addr / 2 ^ l.ahl_param / l.total_modules

-- `rng_seed` and `rng_next`: the number drawn and the new state.
abbrev pub rng_seed : ℕ → ℕ
rng_seed seed = (seed * 2 ^ 16 + 0x330e) % 2 ^ 64

abbrev pub rng_next : ℕ → ℕ × ℕ
rng_next state =
    let state' = bit_and ((0x5_deec_e66d * state + 0xb) % 2 ^ 64) (2 ^ 48 - 1) in
    (state' / 2 ^ 16, state')

-- The fields of `CacheBase`.
pub record CacheBase : Type 0 where
  pub cache_size : ℕ
  pub associativity : ℕ
  pub blocksize : ℕ
  pub hash : Hash
  pub num_sets : ℕ
  pub log_blocksize : ℕ
  pub ahl : Option HomeLookup

is_mask : Hash → Bool
is_mask hash_mask = true
is_mask _ = false

-- `m_num_sets == (1UL << floorLog2(m_num_sets))`
is_full_power : ℕ → Bool
is_full_power n = elim (floor_log2 n) [ none ↦ false | some p ↦ n == 2 ^ p ]

-- The constructor. `cache_size` is in KB.
pub create_base : ℕ → ℕ → ℕ → Hash → Option HomeLookup → Option CacheBase
unfolding is_mask is_full_power
create_base cache_size associativity blocksize hash ahl = do
  let size = 1024 * cache_size
  let num_sets = size / (associativity * blocksize % 2 ^ 32) % 2 ^ 32
  guard (is_full_power num_sets || not (is_mask hash))
  log ← floor_log2 blocksize
  some (record {
    cache_size = size;
    associativity = associativity;
    blocksize = blocksize;
    hash = hash;
    num_sets = num_sets;
    log_blocksize = log;
    ahl = ahl;
  })

unfoldable pub block_num : CacheBase → ℕ → ℕ
block_num c addr = elim c.ahl [ none ↦ addr / 2 ^ c.log_blocksize | some l ↦ home_tag l addr ]

-- The switch over `m_hash`, before the conversion to a 32-bit word.
unfoldable pub hashed : Hash → ℕ → ℕ → ℕ
hashed hash_mask num_sets b = bit_and b (num_sets - 1)
hashed hash_mod num_sets b = b % num_sets
hashed hash_rng1_mod num_sets b = (rng_next (rng_seed b)).0 % num_sets
hashed hash_rng2_mod num_sets b = (rng_next (rng_next (rng_seed b)).1).0 % num_sets

-- `splitAddress`: the tag and the set.
unfoldable pub split_address : CacheBase → ℕ → ℕ × ℕ
unfolding block_num
split_address c addr =
    (addr / 2 ^ c.log_blocksize, hashed c.hash c.num_sets (block_num c addr) % 2 ^ 32)

-- The offset that the longer `splitAddress` returns besides.
pub block_offset : CacheBase → ℕ → ℕ
block_offset c addr = bit_and addr (c.blocksize - 1) % 2 ^ 32

pub tag_to_address : CacheBase → ℕ → ℕ
tag_to_address c tag = tag * 2 ^ c.log_blocksize % 2 ^ 64

-- What the constructor makes sure of.
pub record IsBase (c : CacheBase) : Type 0 where
  pub sets_small : c.num_sets < 2 ^ 32
  pub masked : c.hash ≡ hash_mask → (p : ℕ) × (c.num_sets ≡ 2 ^ p)

full_power : (n : ℕ) → is_full_power n ≡ true → (p : ℕ) × (n ≡ 2 ^ p)
unfolding is_full_power
full_power n h = elim (Option-cases (floor_log2 n)) [
  | inl e ↦ absurd (ground arith)
  | inr (p, e) ↦ (p, ground arith)
]

create_base-fields :
    (size assoc blocksize : ℕ) (hash : Hash) (ahl : Option HomeLookup) (c : CacheBase)
    → create_base size assoc blocksize hash ahl ≡ some c
    → ((is_full_power c.num_sets || not (is_mask c.hash)) ≡ true)
      × (c.num_sets ≡ 1024 * size / (assoc * blocksize % 2 ^ 32) % 2 ^ 32)
      × (floor_log2 c.blocksize ≡ some c.log_blocksize)
      × (c.blocksize ≡ blocksize)
unfolding create_base
create_base-fields size assoc blocksize hash ahl c e = ground arith

pub create_base-IsBase :
    (size assoc blocksize : ℕ) (hash : Hash) (ahl : Option HomeLookup) (c : CacheBase)
    → create_base size assoc blocksize hash ahl ≡ some c
    → IsBase c
create_base-IsBase size assoc blocksize hash ahl c e =
    let (checked, sets, log, _) = create_base-fields size assoc blocksize hash ahl c e in
    record {
      sets_small = omega (arith, sets);
      masked = λ m. full_power c.num_sets (unfold is_mask in ground arith);
    }

hashed-lt :
    (hash : Hash) (n b : ℕ)
    → 0 < n
    → (hash ≡ hash_mask → (p : ℕ) × (n ≡ 2 ^ p))
    → hashed hash n b < n
unfolding hashed
hashed-lt hash_mask n b h m =
    let (p, e) = m refl in rw (e, bit_and-ones p b) (mod-lt b (one-le-pow p 2 (omega arith)))
hashed-lt hash_mod n b h m = mod-lt b h
hashed-lt hash_rng1_mod n b h m = mod-lt _ h
hashed-lt hash_rng2_mod n b h m = mod-lt _ h

-- Every address falls into a set of a cache that has sets, by every hash.
pub set_index-lt :
    (c : CacheBase) (addr : ℕ) → IsBase c → 0 < c.num_sets → (split_address c addr).1 < c.num_sets
unfolding split_address
set_index-lt c addr v pos =
    omega (arith, hashed-lt c.hash c.num_sets (block_num c addr) pos v.masked, v.sets_small)

-- Tag and offset give the address back, where the block size is the power of two that the
-- constructor's logarithm stands for.
pub tag_to_address-split :
    (c : CacheBase) (addr : ℕ)
    → c.blocksize ≡ 2 ^ c.log_blocksize
    → c.blocksize < 2 ^ 32
    → addr < 2 ^ 64
    → tag_to_address c (split_address c addr).0 + block_offset c addr ≡ addr
unfolding tag_to_address split_address block_offset
tag_to_address-split c addr e small h =
    let whole = div-add-mod' addr (2 ^ c.log_blocksize) in
    let offset : bit_and addr (c.blocksize - 1) ≡ addr % 2 ^ c.log_blocksize =
      rw e (bit_and-ones c.log_blocksize addr) in
    let rest = mod-lt addr {m = 2 ^ c.log_blocksize} (one-le-pow c.log_blocksize 2 (omega arith)) in
    omega (arith, whole, offset, rest, e)
