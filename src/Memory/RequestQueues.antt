-- ===== src/Memory/RequestQueues.antt =====
-- cache/req_queue_list_template.h without ENABLE_CIRCULAR_QUEUE: a queue of outstanding requests
-- for each address. The map is a function, `none` where `count(address)` is 0.
pub mod Sizes
pub mod Each
pub mod Fifo
use model_lib.Prelude.{
  Bool, List, Option, [], false, get_elem?, if◌then◌else◌, length, none, set, some, true, ℕ, ◌++◌,
  ◌==◌, ◌∷◌,
}

abbrev pub ReqQueueList : Type 0 → Type 0
ReqQueueList R = ℕ → Option (List R)

module _ {R : Type 0} where
  abbrev pub no_requests : ReqQueueList R
  no_requests = λ _. none

  -- What `new std::queue` starts from.
  abbrev pub queue_or_new : Option (List R) → List R
  queue_or_new none = []
  queue_or_new (some l) = l

  unfoldable pub enqueue : ReqQueueList R → ℕ → R → ReqQueueList R
  enqueue q address r = λ b. if address == b then some (queue_or_new (q address) ++ r ∷ []) else q b

  -- The queue goes when its last request does.
  abbrev pub queue_left : List R → Option (List R)
  queue_left [] = none
  queue_left (r ∷ rs) = some (r ∷ rs)

  abbrev pub dequeue_from : ReqQueueList R → ℕ → Option (List R) → Option (R × ReqQueueList R)
  dequeue_from q address none = none
  dequeue_from q address (some []) = none
  dequeue_from q address (some (r ∷ rs)) =
      some (r, λ b. if address == b then queue_left rs else q b)

  unfoldable pub dequeue : ReqQueueList R → ℕ → Option (R × ReqQueueList R)
  dequeue q address = dequeue_from q address (q address)

  abbrev pub front_of : Option (List R) → Option R
  front_of none = none
  front_of (some l) = get_elem? l 0

  unfoldable pub front : ReqQueueList R → ℕ → Option R
  front q address = front_of (q address)

  unfoldable pub size : ReqQueueList R → ℕ → ℕ
  size q address = length (queue_or_new (q address))

  abbrev pub is_absent : Option (List R) → Bool
  is_absent none = true
  is_absent (some l) = false

  unfoldable pub is_empty : ReqQueueList R → ℕ → Bool
  is_empty q address = is_absent (q address)

  abbrev pub replace_front : R → Option (List R) → Option (List R)
  replace_front r none = none
  replace_front r (some l) = some (set l 0 r)

  -- A write through the pointer that `front` returns.
  unfoldable pub set_front : ReqQueueList R → ℕ → R → ReqQueueList R
  set_front q address r = λ b. if address == b then replace_front r (q address) else q b
