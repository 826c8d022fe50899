-- ===== src/Cache/Policy/PointerTests.antt =====
-- Runs of the policies of cache_set_*.cc that keep a pointer or a tree, on sets of four ways.
use model_lib.Prelude.{List, [], arith, false, get_or, refl, some, ℕ, ◌<◌, ◌∷◌, ◌≡◌, ◌≤◌}
use model_lib.Cache.Block.{
  Block, CacheState, shared, shared_upgrading, is_valid_replacement, block_at,
}
use model_lib.Cache.Policy.Ways.{first_invalid}
use model_lib.Cache.Policy.Nru
use model_lib.Cache.Policy.Nru.{Nru}
use model_lib.Cache.Policy.Plru.{Plru}
use model_lib.Cache.Policy.RoundRobin
use model_lib.Cache.Policy.Srrip
use model_lib.Cache.Policy.Srrip.{Srrip}

abbrev line : ℕ → CacheState → Block
line tag state = record { tag = tag; cstate = state; owner = 0; used = 0; options = 0 }

abbrev lines : List Block
lines = line 10 shared ∷ line 11 shared ∷ line 12 shared ∷ line 13 shared ∷ []

abbrev upgrading : List Block
upgrading =
    line 10 shared_upgrading
    ∷ line 11 shared_upgrading
    ∷ line 12 shared
    ∷ line 13 shared_upgrading
    ∷ []

abbrev nru : Nru
nru = record { bits = 1 ∷ 0 ∷ 1 ∷ 0 ∷ []; num_bits_set = 2; pointer = 0 }

nru-Inv : Nru.Inv nru
unfolding Nru.ones
nru-Inv = record { counted = omega arith; room = omega arith; small = omega arith }

abbrev clear : Nru
clear = record { bits = 0 ∷ 0 ∷ 0 ∷ 0 ∷ []; num_bits_set = 0; pointer = 0 }

abbrev tree : Plru
tree = record { b0 = 1; b1 = 0; b2 = 1; b3 = 0; b4 = 0; b5 = 0; b6 = 0 }

victim_upgrading_example :
    (w : ℕ) × (index' : ℕ) × (RoundRobin.get_replacement_index upgrading 3 ≡ some (w, index'))
    × (is_valid_replacement (block_at upgrading w) ≡ false)
unfolding RoundRobin.previous
victim_upgrading_example = RoundRobin.victim_upgrading upgrading 3 (omega arith) refl refl

abbrev counters : Srrip
counters = record { rrip_max = 3; rrip_insert = 2; bits = 1 ∷ 0 ∷ 2 ∷ 1 ∷ []; pointer = 0 }

counters-Inv : Srrip.Inv 4 counters
counters-Inv = record {
  ways = refl;
  pointer_in = omega arith;
  narrow = omega arith;
  insert_le = omega arith;
  counters = (omega arith, (omega arith, (omega arith, (omega arith, tt))));
}

victim_distant_example :
    (w : ℕ) × (s' : Srrip) × (Srrip.get_replacement_index lines counters ≡ some (w, s'))
    × (w < 4)
    × ((i : ℕ) → i < 4 → get_or counters.bits i 0 ≤ get_or counters.bits w 0)
    × Srrip.Inv 4 s'
unfolding first_invalid
victim_distant_example =
    Srrip.Victim.victim_distant lines (omega arith) (refl, (refl, (refl, (refl, tt)))) counters
      (omega arith) counters-Inv refl
