-- ===== src/Cache/Replacement.antt =====
-- The virtual functions of cache_set.h over the policy classes: `createCacheSet`,
-- `getReplacementIndex` and `updateReplacementIndex`.
pub mod Total
use model_lib.Prelude.{List, Option, if◌then◌else◌, none, some, ℕ, ◌%◌, ◌>>=◌, ◌>>◌, ◌^◌}
use Prim.Native.String.{String}
use text.Mathlib.Text.{◌==◌ as str_eq}
use model_lib.Cache.Block.{Block}
use model_lib.Cache.Policy.Ages.{touch, initial_ages_from}
use model_lib.Cache.Policy.Nmru.{Nmru}
use model_lib.Cache.Policy.Nru.{Nru}
use model_lib.Cache.Policy.Plru.{Plru}
use model_lib.Cache.Policy.Srrip.{Srrip}
use model_lib.Cache.Policy.Lru
use model_lib.Cache.Policy.Mru
use model_lib.Cache.Policy.Nmru
use model_lib.Cache.Policy.Nru
use model_lib.Cache.Policy.Plru
use model_lib.Cache.Policy.Random
use model_lib.Cache.Policy.RoundRobin
use model_lib.Cache.Policy.Srrip

-- `CacheBase::ReplacementPolicy`
pub data PolicyType : Type 0 where
  round_robin lru nru mru nmru plru srrip random : PolicyType

-- `CacheSet::parsePolicyType`; `none` is the value -1, which `createCacheSet` refuses.
abbrev pub parse_policy_type : String → Option PolicyType
parse_policy_type policy =
    if str_eq policy "round_robin"
    then some round_robin
    else if str_eq policy "lru"
    then some lru
    else if str_eq policy "nru"
    then some nru
    else if str_eq policy "mru"
    then some mru
    else if str_eq policy "nmru"
    then some nmru
    else if str_eq policy "plru"
    then some plru
    else if str_eq policy "srrip"
    then some srrip
    else if str_eq policy "random"
    then some random
    else none

-- The state that each subclass of `CacheSet` adds.
pub data Policy : Type 0 where
  round_robin_state : ℕ → Policy
  lru_state : List ℕ → Policy
  nru_state : Nru → Policy
  mru_state : List ℕ → Policy
  nmru_state : Nmru → Policy
  plru_state : Plru → Policy
  srrip_state : Srrip → Policy
  random_state : ℕ → Policy

-- The constructors of the subclasses, for `n` ways; `numbits` is the configured width of SRRIP and
-- `seed` the time that seeds the random policy.
pub create_policy : PolicyType → ℕ → ℕ → ℕ → Option Policy
create_policy round_robin n numbits seed = some (round_robin_state (RoundRobin.initial n))
create_policy lru n numbits seed = some (lru_state (initial_ages_from n 0))
create_policy nru n numbits seed = some (nru_state (Nru.initial n))
create_policy mru n numbits seed = some (mru_state (initial_ages_from n 0))
create_policy nmru n numbits seed =
    some (nmru_state (record { ages = initial_ages_from n 0; pointer = 0 }))
create_policy plru n numbits seed = do s ← Plru.initial n; some (plru_state s)
create_policy srrip n numbits seed = some (srrip_state (Srrip.initial n numbits))
create_policy random n numbits seed = some (random_state (seed % 2 ^ 32))

abbrev pub with_state {ℓ} : {S : Type ℓ} → (S → Policy) → Option (ℕ × S) → Option (ℕ × Policy)
with_state f none = none
with_state f (some (w, s)) = some (w, f s)

-- `fuel` bounds the draws of the random policy; no other policy needs it.
unfoldable pub get_replacement_index : ℕ → List Block → Policy → Option (ℕ × Policy)
get_replacement_index fuel blocks (round_robin_state s) =
    with_state round_robin_state (RoundRobin.get_replacement_index blocks s)
get_replacement_index fuel blocks (lru_state s) =
    with_state lru_state (Lru.get_replacement_index blocks s)
get_replacement_index fuel blocks (nru_state s) =
    with_state nru_state (Nru.get_replacement_index blocks s)
get_replacement_index fuel blocks (mru_state s) =
    with_state mru_state (Mru.get_replacement_index blocks s)
get_replacement_index fuel blocks (nmru_state s) =
    with_state nmru_state (Nmru.get_replacement_index blocks s)
get_replacement_index fuel blocks (plru_state s) =
    with_state plru_state (Plru.get_replacement_index blocks s)
get_replacement_index fuel blocks (srrip_state s) =
    with_state srrip_state (Srrip.get_replacement_index blocks s)
get_replacement_index fuel blocks (random_state s) =
    with_state random_state (Random.get_replacement_index fuel blocks s)

-- The first result is `CacheSetInfoLRU::m_access`, which only the LRU policy uses.
pub update_replacement_index : ℕ → List ℕ → Policy → ℕ → Option (List ℕ × Policy)
update_replacement_index assoc access (round_robin_state s) w = some (access, round_robin_state s)
update_replacement_index assoc access (lru_state s) w = do
  r ← Lru.update_replacement_index access s w
  some (r.0, lru_state r.1)
update_replacement_index assoc access (nru_state s) w =
    some (access, nru_state (Nru.update_replacement_index s w))
update_replacement_index assoc access (mru_state s) w = some (access, mru_state (touch s w))
update_replacement_index assoc access (nmru_state s) w =
    some (access, nmru_state (Nmru.update_replacement_index s w))
update_replacement_index assoc access (plru_state s) w = do
  s' ← Plru.update_replacement_index assoc s w
  some (access, plru_state s')
update_replacement_index assoc access (srrip_state s) w =
    some (access, srrip_state (Srrip.update_replacement_index s w))
update_replacement_index assoc access (random_state s) w = some (access, random_state s)
