-- ===== src/Misc/Tests.antt =====
-- Runs of utils.cc and circular_queue.h.
use model_lib.Prelude.{
  List, [], arith, get_elem?, none, refl, some, suc, true, zero, ℕ, ◌%◌, ◌+◌, ◌<◌, ◌↔◌, ◌∷◌, ◌≡◌,
  ◌≢◌,
}
use model_lib.Misc.CircularQueue.{CircularQueue, count, empty, full, push, pop}
use model_lib.Misc.CircularQueue.Refine.{Holds}
use model_lib.Misc.CircularQueue.Fifo.{queue_refines_list}

-- Three slots, of which two are in use around the end.
abbrev ring : CircularQueue ℕ
ring = record { size = 3; first = 1; last = 2; queue = 8 ∷ 0 ∷ 7 ∷ [] }

ring-Holds : Holds ring (7 ∷ 8 ∷ [])
ring-Holds = record {
  small = omega arith;
  room = omega arith;
  slots = refl;
  last_in = omega arith;
  first_at = refl;
  elements = elements;
}
  where
    elements : (i : ℕ) → i < 2 → get_elem? ring.queue ((2 + i) % 3) ≡ get_elem? (7 ∷ 8 ∷ []) i
    elements zero h = refl
    elements (suc zero) h = refl
    elements (suc (suc i)) h = absurd (omega arith)

abbrev held : List ℕ
held = 7 ∷ 8 ∷ []

queue_refines_list_example :
    (count ring ≡ 2)
    × ((empty ring ≡ true) ↔ (held ≡ []))
    × ((full ring ≡ true) ↔ (3 ≡ ring.size))
    × (3 ≢ ring.size → (q' : CircularQueue ℕ) × (push ring 9 ≡ some q') × Holds q' (7 ∷ 8 ∷ 9 ∷ []))
    × (3 ≡ ring.size → push ring 9 ≡ none)
    × ((x : ℕ) (rest : List ℕ)
        → held ≡ x ∷ rest
        → (q' : CircularQueue ℕ) × (pop ring ≡ some (x, q')) × Holds q' rest)
    × (held ≡ [] → pop ring ≡ none)
queue_refines_list_example = queue_refines_list ring (7 ∷ 8 ∷ []) 9 ring-Holds
