-- ===== src/Cache/Policy/Ages.antt =====
-- The ageing of ways shared by cache_set_lru.cc (`moveToMRU`), cache_set_mru.cc and cache_set_nmru.cc
-- (`updateReplacementIndex`). `m_lru_bits` is an array of bytes.
use model_lib.Prelude.{
  List, [], ap, arith, get_or, get_or-map, get_or-set_ne, get_or-set_self, if◌then◌else◌, length,
  length-map, length-set, ltb, map, refl, set, suc, zero, ℕ, ◌%◌, ◌+◌, ◌<◌, ◌∙◌, ◌∷◌, ◌≡◌, ◌≢◌,
}

-- The constructor's loop, `m_lru_bits[i] = i`.
unfoldable pub initial_ages_from : ℕ → ℕ → List ℕ
initial_ages_from zero i = []
initial_ages_from (suc n) i = i % 256 ∷ initial_ages_from n (i + 1)

-- One round of the loop, at a way of age `a`, with the accessed way at age `pivot`. The pivot is
-- read again in each round, but its own round never changes it.
abbrev pub age : ℕ → ℕ → ℕ
age pivot a = if ltb a pivot then (a + 1) % 256 else a

unfoldable pub touch : List ℕ → ℕ → List ℕ
touch ages w = set (map (age (get_or ages w 0)) ages) w 0

pub length-touch : (ages : List ℕ) (w : ℕ) → length (touch ages w) ≡ length ages
unfolding touch
length-touch ages w =
    let p = get_or ages w 0 in
    ground (arith, length-set (map (age p) ages) w 0, length-map (age p) ages)

pub get_or-touch_self : (ages : List ℕ) (w : ℕ) → w < length ages → get_or (touch ages w) w 0 ≡ 0
unfolding touch
get_or-touch_self ages w h =
    let p = get_or ages w 0 in
    get_or-set_self (map (age p) ages) w 0 0 (omega (arith, length-map (age p) ages))

pub get_or-touch_ne :
    (ages : List ℕ) (w i : ℕ)
    → i < length ages
    → w ≢ i
    → get_or (touch ages w) i 0 ≡ age (get_or ages w 0) (get_or ages i 0)
unfolding touch
get_or-touch_ne ages w i h n =
    let p = get_or ages w 0 in
    get_or-set_ne (map (age p) ages) w i 0 0 n ∙ get_or-map (age p) ages i 0 0 h

pub length-initial_ages_from : (n i : ℕ) → length (initial_ages_from n i) ≡ n
unfolding initial_ages_from
length-initial_ages_from zero i = refl
length-initial_ages_from (suc n) i = ap suc (length-initial_ages_from n (i + 1))

pub get_or-initial_ages_from :
    (n i k : ℕ) → k < n → get_or (initial_ages_from n i) k 0 ≡ (i + k) % 256
unfolding initial_ages_from
get_or-initial_ages_from zero i k h = absurd (omega arith)
get_or-initial_ages_from (suc n) i zero h = ap (λ x. x % 256) (omega arith)
get_or-initial_ages_from (suc n) i (suc k) h =
    get_or-initial_ages_from n (i + 1) k (omega arith) ∙ ap (λ x. x % 256) (omega arith)
