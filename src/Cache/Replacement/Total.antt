-- ===== src/Cache/Replacement/Total.antt =====
-- The constructors and the virtual functions of the policies in cache_set_*.cc over one invariant.
use model_lib.Prelude.{
  All, All-get_or, List, ap, arith, length, length-replicate, refl, some, true, ℕ, ◌<◌, ◌^◌, ◌≡◌,
  ◌≤◌,
}
use model_lib.Cache.Block.{Block, create, is_valid_replacement}
use model_lib.Cache.Policy.Ages.{touch, initial_ages_from, length-initial_ages_from, length-touch}
use model_lib.Cache.Policy.Lru
use model_lib.Cache.Policy.Lru.Recency.{Ranks, move_to_front, touch-Ranks, initial_ages-Ranks}
use model_lib.Cache.Policy.Mru
use model_lib.Cache.Policy.Nmru
use model_lib.Cache.Policy.Nmru.{Nmru}
use model_lib.Cache.Policy.Nru
use model_lib.Cache.Policy.Nru.{Nru}
use model_lib.Cache.Policy.Plru
use model_lib.Cache.Policy.Plru.{Plru}
use model_lib.Cache.Policy.Random
use model_lib.Cache.Policy.RoundRobin
use model_lib.Cache.Policy.Srrip
use model_lib.Cache.Policy.Srrip.{Srrip}
use model_lib.Cache.Replacement.{
  PolicyType, round_robin, lru, nru, mru, nmru, plru, srrip, random, Policy, round_robin_state,
  lru_state, nru_state, mru_state, nmru_state, plru_state, srrip_state, random_state, create_policy,
  with_state, get_replacement_index, update_replacement_index,
}

-- The ages stand for an order of the `n` ways.
abbrev pub AreRanked : ℕ → List ℕ → Type 0
AreRanked n ages = ((order : List ℕ) × Ranks order ages) × (length ages ≡ n)

-- The invariant of each policy in a set of `n` ways.
abbrev pub IsReady : ℕ → Policy → Type 0
IsReady n (round_robin_state s) = s < n
IsReady n (lru_state s) = AreRanked n s
IsReady n (nru_state s) = Nru.Inv s × (length s.bits ≡ n) × (s.pointer < n)
IsReady n (mru_state s) = AreRanked n s
IsReady n (nmru_state s) = AreRanked n s.ages × (s.pointer < n) × (1 < n)
IsReady n (plru_state s) = Plru.Supported n
IsReady n (srrip_state s) = Srrip.Inv n s
IsReady n (random_state s) = Unit {0}

touch-AreRanked :
    (n : ℕ) (ages : List ℕ) (w : ℕ) → w < n → AreRanked n ages → AreRanked n (touch ages w)
touch-AreRanked n ages w h ((order, r), l) = (
  (move_to_front w order, touch-Ranks order ages r w (omega arith)),
  omega (arith, length-touch ages w),
)

-- An access to a way of the set always succeeds, with a hit counter for each way, and keeps the
-- invariant of every policy.
pub update_replacement_index-IsReady :
    (n : ℕ) (access : List ℕ) (p : Policy) (w : ℕ)
    → w < n
    → length access ≡ n
    → IsReady n p
    → (access' : List ℕ) × (p' : Policy) × (update_replacement_index n access p w
        ≡ some (access', p'))
      × IsReady n p'
      × (length access' ≡ n)
unfolding update_replacement_index
update_replacement_index-IsReady n access (round_robin_state s) w h l r =
    (access, round_robin_state s, refl, r, l)
update_replacement_index-IsReady n access (lru_state s) w h l ((order, r), e) =
    let (access', u, l') = Lru.Victim.update_total access order s w r (omega arith) (omega arith) in
    (
      access',
      lru_state (touch s w),
      ground arith,
      touch-AreRanked n s w h ((order, r), e),
      omega arith,
    )
update_replacement_index-IsReady n access (nru_state s) w h l (v, e, p) = (
  access,
  _,
  refl,
  (
    Nru.update_replacement_index-Inv s w v,
    omega (arith, Nru.length-update s w),
    ground (arith, Nru.pointer-update s w),
  ),
  l,
)
update_replacement_index-IsReady n access (mru_state s) w h l r =
    (access, mru_state (touch s w), refl, touch-AreRanked n s w h r, l)
update_replacement_index-IsReady n access (nmru_state s) w h l (r, p, two) = (
  access,
  _,
  refl,
  unfold Nmru.update_replacement_index in (touch-AreRanked n s.ages w h r, p, two),
  l,
)
update_replacement_index-IsReady n access (plru_state s) w h l r =
    let (s', _, u, _, _, _) = Plru.leaf-update n s w r h in
    (access, plru_state s', ground arith, r, l)
update_replacement_index-IsReady n access (srrip_state s) w h l r =
    (access, _, refl, Srrip.update_replacement_index-Inv n s w h r, l)
update_replacement_index-IsReady n access (random_state s) w h l r =
    (access, random_state s, refl, tt, l)

-- A set of at most 256 ways whose lines may all be replaced.
module _ (blocks : List Block) (ok : All (λ b. is_valid_replacement b ≡ true) blocks)
    (pos : 0 < length blocks) (small : length blocks ≤ 256) where
  abbrev Chooses : ℕ → Policy → Type 0
  Chooses fuel p =
      (w : ℕ) × (p' : Policy) × (get_replacement_index fuel blocks p ≡ some (w, p'))
      × (w < length blocks)
      × IsReady (length blocks) p'

  -- In a set of 1 to 256 ways of replaceable lines every policy that is ready finds a way of the set,
  -- with fuel for one draw of the random policy, and is ready afterwards.
  pub get_replacement_index_total :
      (fuel : ℕ) (p : Policy) → 0 < fuel → IsReady (length blocks) p → Chooses fuel p
  unfolding get_replacement_index
  get_replacement_index_total fuel (round_robin_state s) f r =
      let (w, e, h, _) =
        RoundRobin.victim_below_replaceable blocks s 0 r pos
          (All-get_or _ blocks 0 create ok pos) in
      (w, _, ap (with_state round_robin_state) e, h, RoundRobin.previous-lt (length blocks) w h)
  get_replacement_index_total fuel (lru_state s) f r =
      let (w, e, h) = Lru.Victim.victim_total blocks s pos in
      (w, _, ap (with_state lru_state) e, h, touch-AreRanked (length blocks) s w h r)
  get_replacement_index_total fuel (nru_state s) f (v, l, p) =
      let (w, q, e, h, stays, _) = Nru.victim_clear blocks s v l p ok in
      let s' = record s { pointer = q } in
      let v' : Nru.Inv s' = record { counted = v.counted; room = v.room; small = v.small } in
      (
        w,
        _,
        ap (with_state nru_state) e,
        h,
        (
          Nru.update_replacement_index-Inv s' w v',
          omega (arith, Nru.length-update s' w),
          ground (arith, Nru.pointer-update s' w),
        ),
      )
  get_replacement_index_total fuel (mru_state s) f ((order, r), l) =
      let (w, e, h) = Mru.victim_total blocks order s r l pos ok in
      (w, _, ap (with_state mru_state) e, h, touch-AreRanked (length blocks) s w h ((order, r), l))
  get_replacement_index_total fuel (nmru_state s) f (((order, r), l), p, two) =
      let (w, q, e, h, stays) = Nmru.victim_total blocks order s r l two p ok in
      (
        w,
        _,
        ap (with_state nmru_state) e,
        h,
        (touch-AreRanked (length blocks) s.ages w h ((order, r), l), stays, two),
      )
  get_replacement_index_total fuel (plru_state s) f r =
      let (w, s', e, h) = Plru.victim_some blocks s r ok in
      (w, _, ap (with_state plru_state) e, h, r)
  get_replacement_index_total fuel (srrip_state s) f r =
      let (w, s', e, h, v) = Srrip.Victim.victim_some blocks small ok s pos r in
      (w, _, ap (with_state srrip_state) e, h, v)
  get_replacement_index_total fuel (random_state s) f r =
      let (w, s', e, h) = Random.victim_total fuel blocks s f pos ok in
      (w, _, ap (with_state random_state) e, h, tt)

initial-AreRanked : (n : ℕ) → n ≤ 256 → AreRanked n (initial_ages_from n 0)
initial-AreRanked n h =
    ((initial_ages_from n 0, initial_ages-Ranks n h), length-initial_ages_from n 0)

-- What a policy type needs of the associativity and of the SRRIP width.
abbrev pub Configured : PolicyType → ℕ → ℕ → Type 0
Configured nmru n numbits = 1 < n
Configured plru n numbits = Plru.Supported n
Configured srrip n numbits = (1 < 2 ^ numbits) × (2 ^ numbits ≤ 256)
Configured t n numbits = Unit {0}

-- The constructors succeed and establish the invariants for 1 to 255 ways: more than one for NMRU,
-- 4 or 8 for PLRU, and counters of one to eight bits for SRRIP.
pub create_policy-IsReady :
    (t : PolicyType) (n numbits seed : ℕ)
    → 0 < n
    → n < 256
    → Configured t n numbits
    → (p : Policy) × (create_policy t n numbits seed ≡ some p) × IsReady n p
unfolding create_policy
create_policy-IsReady round_robin n numbits seed h k c =
    (_, refl, unfold RoundRobin.initial in omega arith)
create_policy-IsReady lru n numbits seed h k c = (_, refl, initial-AreRanked n (omega arith))
create_policy-IsReady nru n numbits seed h k c = (
  _,
  refl,
  (Nru.initial-Inv n h k, unfold Nru.initial in length-replicate n 0, unfold Nru.initial in h),
)
create_policy-IsReady mru n numbits seed h k c = (_, refl, initial-AreRanked n (omega arith))
create_policy-IsReady nmru n numbits seed h k c =
    (_, refl, (initial-AreRanked n (omega arith), h, c))
create_policy-IsReady plru n numbits seed h k c =
    let (s, e) = Plru.initial-some n c in (plru_state s, ground arith, c)
create_policy-IsReady srrip n numbits seed h k c =
    (_, refl, Srrip.initial-Inv n numbits h (omega arith) c.1)
create_policy-IsReady random n numbits seed h k c = (_, refl, tt)
