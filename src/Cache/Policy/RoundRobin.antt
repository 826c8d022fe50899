-- ===== src/Cache/Policy/RoundRobin.antt =====
-- cache_set_round_robin.cc: the state is `m_replacement_index`.
use model_lib.Prelude.{
  Bool-cases, List, Option, arith, false, if◌then◌else◌, inl, inr, length, ltb-cases, none, some,
  suc, true, zero, ℕ, ◌+◌, ◌-◌, ◌<◌, ◌==◌, ◌≡◌, ◌⊎◌,
}
use model_lib.Cache.Block.{Block, shared_upgrading, is_valid_replacement, block_at}

-- The constructor, for `n` ways.
unfoldable pub initial : ℕ → ℕ
initial n = n - 1

unfoldable pub previous : ℕ → ℕ → ℕ
previous assoc index = if index == 0 then assoc - 1 else index - 1

-- `getReplacementIndex` calls itself until the way before the current one is replaceable, and
-- returns the current one. It does not return at all if no way is; the fuel is the number of calls.
unfoldable pub calls : List Block → ℕ → ℕ → Option (ℕ × ℕ)
calls blocks zero index = none
calls blocks (suc n) index =
    let index' = previous (length blocks) index in
    let rest = calls blocks n index' in
    if is_valid_replacement (block_at blocks index') then some (index, index') else rest

-- No run makes more calls than there are ways.
unfoldable pub get_replacement_index : List Block → ℕ → Option (ℕ × ℕ)
get_replacement_index blocks index = calls blocks (length blocks) index

pub previous-lt : (assoc index : ℕ) → index < assoc → previous assoc index < assoc
unfolding previous
previous-lt assoc index h = ground arith

-- `k + 1` steps down from `index`, going round at 0, lead to the replaceable way `j`.
calls_reach :
    (blocks : List Block) (n k index j : ℕ)
    → index < length blocks
    → j < length blocks
    → k < n
    → (index ≡ j + suc k) ⊎ (index + length blocks ≡ j + suc k)
    → is_valid_replacement (block_at blocks j) ≡ true
    → (w : ℕ) × (calls blocks n index ≡ some (w, previous (length blocks) w))
      × (w < length blocks)
      × (is_valid_replacement (block_at blocks (previous (length blocks) w)) ≡ true)
unfolding calls
calls_reach blocks zero k index j h i l e r = absurd (omega arith)
calls_reach blocks (suc n) zero index j h i l e r =
    let s : previous (length blocks) index ≡ j = unfold previous in ground arith in
    (index, ground arith, h, ground arith)
calls_reach blocks (suc n) (suc k) index j h i l e r =
    elim (Bool-cases (is_valid_replacement (block_at blocks (previous (length blocks) index)))) [
      | inl t ↦ (index, ground arith, h, t)
      | inr t ↦
          let (w, c, p, v) =
            calls_reach blocks n k (previous (length blocks) index) j (previous-lt _ index h) i
              (omega arith) (unfold previous in ground arith) r in
          (w, ground arith, p, v)
    ]

-- If some way is replaceable the calls end, with a way of the set, and the way below it (where the
-- next search starts) is replaceable.
pub victim_below_replaceable :
    (blocks : List Block) (index j : ℕ)
    → index < length blocks
    → j < length blocks
    → is_valid_replacement (block_at blocks j) ≡ true
    → (w : ℕ) × (get_replacement_index blocks index ≡ some (w, previous (length blocks) w))
      × (w < length blocks)
      × (is_valid_replacement (block_at blocks (previous (length blocks) w)) ≡ true)
unfolding get_replacement_index
victim_below_replaceable blocks index j h i r = elim (ltb-cases j index) [
  | inl (e, l) ↦
      calls_reach blocks (length blocks) (index - j - 1) index j h i (omega arith)
        (inl (omega arith)) r
  | inr (e, g) ↦
      calls_reach blocks (length blocks) (index + length blocks - j - 1) index j h i (omega arith)
        (inr (omega arith)) r
]

-- The way that is returned is not the one that was tested: where the way at the pointer is in the
-- middle of an upgrade and the one below it is not, the victim is the line under upgrade.
pub victim_upgrading :
    (blocks : List Block) (index : ℕ)
    → index < length blocks
    → (block_at blocks index).cstate ≡ shared_upgrading
    → is_valid_replacement (block_at blocks (previous (length blocks) index)) ≡ true
    → (w : ℕ) × (index' : ℕ) × (get_replacement_index blocks index ≡ some (w, index'))
      × (is_valid_replacement (block_at blocks w) ≡ false)
unfolding get_replacement_index calls
victim_upgrading blocks index h u r =
    (index, previous (length blocks) index, some_call (length blocks) h, ground arith)
  where
    some_call :
        (n : ℕ) → index < n → calls blocks n index ≡ some (index, previous (length blocks) index)
    some_call zero l = absurd (omega arith)
    some_call (suc n) l = ground arith
