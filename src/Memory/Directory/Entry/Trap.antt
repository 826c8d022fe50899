-- ===== src/Memory/Directory/Entry/Trap.antt =====
-- The software trap of directory_entry_limitless.h.
use model_lib.Prelude.{
  >>=-eq-some, List, Option, [], ap, arith, false, if◌then◌else◌, length, length-replicate,
  length-set, ltb, some, some_injective, sym, true, ℕ, ◌&&◌, ◌==◌, ◌>>=◌, ◌∙◌, ◌∷◌, ◌≡◌,
}
use model_lib.Memory.Directory.Entry.{
  Limitless, storage_size, create_limitless, create_entry, add_limitless, get_latency,
}

-- Cores that become sharers one after the other.
abbrev pub add_all : Limitless → List ℕ → ℕ → Option Limitless
add_all l [] limit = some l
add_all l (id ∷ ids) limit = do l' ← add_limitless l id limit; add_all l' ids limit

add_limitless_trap :
    (l q : Limitless) (id limit : ℕ)
    → add_limitless l id limit ≡ some q
    → (length q.entry.sharers ≡ length l.entry.sharers)
      × (q.trap_enabled ≡ (if length l.entry.sharers == limit then true else l.trap_enabled))
      × (q.trap_penalty ≡ l.trap_penalty)
unfolding add_limitless
add_limitless_trap l q id limit e =
    (ground (arith, length-set l.entry.sharers id true), ground arith, ground arith)

add_all_trap :
    (l l' : Limitless) (ids : List ℕ) (limit : ℕ)
    → add_all l ids limit ≡ some l'
    → (l'.trap_enabled ≡ (
        if (length l.entry.sharers == limit) && ltb 0 (length ids) then true else l.trap_enabled))
      × (l'.trap_penalty ≡ l.trap_penalty)
add_all_trap l l' [] limit e =
    let same : l ≡ l' = some_injective l l' e in
    (ground (arith, same), ap (λ (x : Limitless). x.trap_penalty) (sym same))
add_all_trap l l' (id ∷ ids) limit e =
    let (q, one, later) = >>=-eq-some (add_limitless l id limit) (λ q. add_all q ids limit) e in
    let (size, trap, penalty) = add_limitless_trap l q id limit one in
    let (trap', penalty') = add_all_trap q l' ids limit later in
    (ground (arith, size, trap, trap'), penalty' ∙ penalty)

-- The trap looks at the number of bits that hold the sharers and not at the number of sharers:
-- after any additions to a new entry that no assertion ends, however many they are, the latency is
-- the penalty if that number is the hardware limit and there was an addition, and zero otherwise.
pub trap_by_storage_size :
    (cores penalty limit : ℕ) (ids : List ℕ) (l : Limitless)
    → add_all (create_limitless cores penalty) ids limit ≡ some l
    → get_latency l ≡ (if (storage_size cores == limit) && ltb 0 (length ids) then penalty else 0)
unfolding create_limitless create_entry get_latency
trap_by_storage_size cores penalty limit ids l e =
    let (trap, price) = add_all_trap (create_limitless cores penalty) l ids limit e in
    let size = length-replicate (storage_size cores) false in ground (arith, trap, price, size)
