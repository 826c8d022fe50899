-- ===== src/Cache/Block.antt =====
-- cache_state.h, cache_block_info.h and cache_block_info.cc: the state of one cache line.
use model_lib.Prelude.{Bool, List, false, get_or, not, refl, true, ℕ, ◌-◌, ◌==◌, ◌^◌, ◌≡◌}

-- `CacheState::cstate_t`; the three states kept for reports only are left out.
pub data CacheState : Type 0 where
  invalid shared shared_upgrading exclusive owned modified : CacheState

-- `CacheState::readable` and `CacheState::writable`
pub readable : CacheState → Bool
readable modified = true
readable owned = true
readable shared = true
readable exclusive = true
readable invalid = false
readable shared_upgrading = false

pub writable : CacheState → Bool
writable modified = true
writable invalid = false
writable shared = false
writable shared_upgrading = false
writable exclusive = false
writable owned = false

pub record Block : Type 0 where
  pub tag : ℕ
  pub cstate : CacheState
  pub owner : ℕ
  pub used : ℕ
  pub options : ℕ

-- `(IntPtr) ~0`
abbrev pub no_tag : ℕ
no_tag = 2 ^ 64 - 1

-- The constructor's default arguments.
abbrev pub create : Block
create = record { tag = no_tag; cstate = CacheState.invalid; owner = 0; used = 0; options = 0 }

abbrev pub is_valid : Block → Bool
is_valid b = not (b.tag == no_tag)

abbrev pub set_tag : Block → ℕ → Block
set_tag b t = record b { tag = t }

-- Owner, usage and options keep their values.
abbrev pub invalidate_block : Block → Block
invalidate_block b = record b { tag = no_tag; cstate = CacheState.invalid }

abbrev is_upgrading : CacheState → Bool
is_upgrading shared_upgrading = true
is_upgrading _ = false

-- `CacheSet::isValidReplacement` at the block itself.
abbrev pub is_valid_replacement : Block → Bool
is_valid_replacement b = not (is_upgrading b.cstate)

-- `m_cache_block_info_array[i]`; the source never indexes past the array.
abbrev pub block_at : List Block → ℕ → Block
block_at blocks i = get_or blocks i create

-- A line that may be written may be read.
pub writable-readable : (s : CacheState) → writable s ≡ true → readable s ≡ true
unfolding writable readable
writable-readable modified h = refl
writable-readable invalid h = h
writable-readable shared h = refl
writable-readable shared_upgrading h = h
writable-readable exclusive h = refl
writable-readable owned h = refl
