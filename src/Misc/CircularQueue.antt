-- ===== src/Misc/CircularQueue.antt =====
-- circular_queue.h: a ring buffer that keeps one slot free.
pub mod Slots
pub mod Refine
pub mod Fifo
use model_lib.Prelude.{
  Bool, List, Option, get_elem?, guard, if◌then◌else◌, ltb, not, replicate, set, some, ℕ, ◌%◌, ◌+◌,
  ◌-◌, ◌==◌, ◌>>=◌, ◌>>◌, ◌^◌,
}

pub record CircularQueue {ℓ} (A : Type ℓ) : Type ℓ where
  pub size : ℕ
  pub first : ℕ
  pub last : ℕ
  pub queue : List A

-- One more than `i`, around the ring.
abbrev pub next_slot : ℕ → ℕ → ℕ
next_slot size i = (i + 1) % 2 ^ 32 % size

module _ {ℓ} {A : Type ℓ} where
  -- The constructor; `new T[m_size]` holds some elements, here `blank`.
  pub create : ℕ → A → CircularQueue A
  create size blank = record {
    size = (size + 1) % 2 ^ 32;
    first = 0;
    last = 0;
    queue = replicate ((size + 1) % 2 ^ 32) blank;
  }

  pub full : CircularQueue A → Bool
  full q = next_slot q.size q.first == q.last

  pub empty : CircularQueue A → Bool
  empty q = q.first == q.last

  -- `size()`
  pub count : CircularQueue A → ℕ
  count q = (q.first + q.size + (2 ^ 32 - q.last)) % 2 ^ 32 % q.size

  pub push : CircularQueue A → A → Option (CircularQueue A)
  push q t = do
    guard (not (full q))
    some (record q { first = next_slot q.size q.first; queue = set q.queue q.first t })

  pub pop : CircularQueue A → Option (A × CircularQueue A)
  pop q = do
    guard (not (empty q))
    t ← get_elem? q.queue q.last
    some (t, record q { last = next_slot q.size q.last })

  pub push_circular : CircularQueue A → A → Option (CircularQueue A)
  push_circular q t = if full q then (do r ← pop q; push r.1 t) else push q t

  pub front : CircularQueue A → Option A
  front q = do guard (not (empty q)); get_elem? q.queue q.last

  abbrev pub back : CircularQueue A → Option A
  back q = do
    guard (not (empty q))
    get_elem? q.queue ((q.first + q.size + (2 ^ 32 - 1)) % 2 ^ 32 % q.size)

  -- `at`
  pub element_at : CircularQueue A → ℕ → Option A
  element_at q i = do guard (ltb i (count q)); get_elem? q.queue ((q.last + i) % 2 ^ 32 % q.size)
