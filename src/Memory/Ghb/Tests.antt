-- ===== src/Memory/Ghb/Tests.antt =====
-- A run of ghb_prefetcher.cc from its constructor.
use model_lib.Prelude.{List, arith, some, ℕ, ◌≡◌}
use model_lib.Memory.Ghb.{GhbPrefetcher, create_prefetcher, get_next_address}
use model_lib.Memory.Ghb.Bounds.{InRange}
use model_lib.Memory.Ghb.Recording.{create_prefetcher-InRange, get_next_address_total}

-- A prefetcher that has seen the address 4096.
abbrev prefetcher : GhbPrefetcher
prefetcher = record (create_prefetcher 2 2 8 4) { last_address = 4096 }

prefetcher-InRange : InRange prefetcher
prefetcher-InRange =
    let v = create_prefetcher-InRange 2 2 8 4 (omega arith) (omega arith) in
    record {
      some_table = v.some_table;
      head = v.head;
      table_head = v.table_head;
      links = v.links;
      pointers = v.pointers;
    }

get_next_address_total_example :
    (addresses : List ℕ) × (q : GhbPrefetcher) × (get_next_address prefetcher 4160
      ≡ some (addresses, q))
    × InRange q
get_next_address_total_example =
    get_next_address_total prefetcher 4160 prefetcher-InRange (λ e. omega (arith, e))
