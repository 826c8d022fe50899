-- ===== src/Cache/Policy/Tests.antt =====
-- Runs of the replacement policies in cache_set_*.cc on sets of four ways.
use model_lib.Prelude.{List, [], arith, refl, some, suc, zero, ℕ, ◌<◌, ◌∷◌, ◌≡◌}
use model_lib.Cache.Block.{Block, CacheState, shared, shared_upgrading}
use model_lib.Cache.Policy.Ages.{touch, initial_ages_from}
use model_lib.Cache.Policy.Lru
use model_lib.Cache.Policy.Lru.Recency.{Ranks, move_to_front, initial_ages-Ranks}
use model_lib.Cache.Policy.Lru.Scan.{NotOlder}
use model_lib.Cache.Policy.Lru.Victim.{oldest, victim-oldest}

abbrev line : ℕ → CacheState → Block
line tag state = record { tag = tag; cstate = state; owner = 0; used = 0; options = 0 }

abbrev lines : List Block
lines = line 10 shared ∷ line 11 shared ∷ line 12 shared ∷ line 13 shared ∷ []

abbrev upgrading : List Block
upgrading =
    line 10 shared_upgrading
    ∷ line 11 shared_upgrading
    ∷ line 12 shared_upgrading
    ∷ line 13 shared
    ∷ []

abbrev ages : List ℕ
ages = 0 ∷ 1 ∷ 2 ∷ 3 ∷ []

ages-Ranks : Ranks ages ages
unfolding initial_ages_from
ages-Ranks = initial_ages-Ranks 4 (omega arith)

victim-oldest_example :
    (Lru.get_replacement_index lines ages ≡ some (3, touch ages 3))
    × Ranks (move_to_front 3 ages) (touch ages 3)
unfolding oldest
victim-oldest_example =
    victim-oldest lines ages ages 3 ages-Ranks refl (refl, (refl, (refl, (refl, tt)))) refl
      (λ e. omega (arith, e))

only_front : (j : ℕ) → j < 4 → NotOlder upgrading (1 ∷ 2 ∷ 3 ∷ 0 ∷ []) 0 j
only_front zero h e = absurd (ground (arith, e))
only_front (suc zero) h e = absurd (ground (arith, e))
only_front (suc (suc zero)) h e = absurd (ground (arith, e))
only_front (suc (suc (suc zero))) h e = omega arith
only_front (suc (suc (suc (suc j)))) h e = absurd (omega arith)
