-- ===== src/Performance/Contention.antt =====
-- performance_model/contention_model.h and contention_model.cc: a resource with a number of slots. The
-- calls that take cycles, which convert them and call these, are left out.
pub mod Start
pub mod Fence
use model_lib.Prelude.{
  Bool, List, [], false, get_or, if◌then◌else◌, leb, length, ltb, map, replicate, set, suc, true, ℕ,
  ◌%◌, ◌+◌, ◌-◌, ◌==◌, ◌^◌, ◌∷◌,
}
use model_lib.Performance.HistoryList.{minus}
use model_lib.System.Threads.{plus}

-- An element of `m_time`: the time at which the slot is free, and the tag of its request.
pub record Slot : Type 0 where
  pub free_at : ℕ
  pub tag : ℕ

-- `m_num_outstanding` is the length of `m_time`.
pub record ContentionModel : Type 0 where
  pub slots : List Slot
  pub last : ℕ
  pub n_requests : ℕ
  pub n_barriers : ℕ
  pub n_outoforder : ℕ
  pub n_simultaneous : ℕ
  pub n_hasfreefail : ℕ
  pub total_delay : ℕ
  pub total_barrier_delay : ℕ

pub create_model : ℕ → ContentionModel
create_model num_outstanding = record {
  slots = replicate num_outstanding (record { free_at = 0; tag = 0 });
  last = 0;
  n_requests = 0;
  n_barriers = 0;
  n_outoforder = 0;
  n_simultaneous = 0;
  n_hasfreefail = 0;
  total_delay = 0;
  total_barrier_delay = 0;
}

abbrev pub used_in : List Slot → ℕ → ℕ
used_in [] t_start = 0
used_in (s ∷ ss) t_start =
    let rest = used_in ss t_start in if ltb t_start s.free_at then suc rest else rest

unfoldable pub get_num_used : ContentionModel → ℕ → ℕ
get_num_used c t_start = used_in c.slots t_start

abbrev tag_time : List Slot → ℕ → ℕ
tag_time [] tag = 2 ^ 64 - 1
tag_time (s ∷ ss) tag = let rest = tag_time ss tag in if s.tag == tag then s.free_at else rest

pub get_tag_completion_time : ContentionModel → ℕ → ℕ
get_tag_completion_time c tag = tag_time c.slots tag

abbrev any_free : List Slot → ℕ → ℕ → Bool
any_free [] t_start tag = false
any_free (s ∷ ss) t_start tag =
    let rest = any_free ss t_start tag in
    if leb s.free_at t_start then true else if s.tag == tag then true else rest

pub has_free_slot : ContentionModel → ℕ → ℕ → Bool × ContentionModel
has_free_slot c t_start tag =
    if any_free c.slots t_start tag
    then (true, c)
    else (false, record c { n_hasfreefail = (c.n_hasfreefail + 1) % 2 ^ 64 })

abbrev any_tag : List Slot → ℕ → Bool
any_tag [] tag = false
any_tag (s ∷ ss) tag = let rest = any_tag ss tag in if s.tag == tag then true else rest

pub has_tag : ContentionModel → ℕ → Bool
has_tag c tag = any_tag c.slots tag

-- The loop that finds the latest time of the slots.
abbrev pub latest : List Slot → ℕ → ℕ
latest [] max_time = max_time
latest (s ∷ ss) max_time = latest ss (if ltb max_time s.free_at then s.free_at else max_time)

unfoldable pub get_barrier_completion_time : ContentionModel → ℕ → ℕ → ℕ → ℕ × ContentionModel
get_barrier_completion_time c t_start t_delay tag =
    let max_time = latest c.slots t_start in
    let t_end = plus max_time t_delay in
    if length c.slots == 0 then (plus t_start t_delay, c) else (
      t_end,
      record c {
        slots = map (λ _. record { free_at = t_end; tag = tag }) c.slots;
        n_barriers = (c.n_barriers + 1) % 2 ^ 64;
        total_barrier_delay = plus c.total_barrier_delay (minus max_time t_start);
      },
    )

-- The loop of `getCompletionTime`: from slot `i` on, the first slot that is free, or else the first
-- of those that are free the earliest. `unit` is the slot so far and its time.
abbrev pub find_unit : ℕ → List Slot → ℕ → ℕ × ℕ → ℕ × ℕ
find_unit t_start [] i unit = unit
find_unit t_start (s ∷ ss) i unit =
    let rest =
      find_unit t_start ss (suc i) (if ltb s.free_at unit.1 then (i, s.free_at) else unit) in
    if leb s.free_at t_start then (i, s.free_at) else rest

-- The time of slot 0, at which the loops start.
abbrev pub first_time : List Slot → ℕ
first_time ss = (get_or ss 0 (record { free_at = 0; tag = 0 })).free_at

-- The last branch, for a request in its order.
abbrev pub in_order : ContentionModel → ℕ → ℕ → ℕ → ℕ × ContentionModel
in_order c t_start t_delay tag =
    let unit = find_unit t_start c.slots 0 (0, first_time c.slots) in
    let t_begin = if ltb t_start unit.1 then unit.1 else t_start in
    let t_end = plus t_begin t_delay in
    (
      t_end,
      record c {
        slots = set c.slots unit.0 (record { free_at = t_end; tag = tag });
        last = t_start;
        n_simultaneous = (c.n_simultaneous + (if t_start == c.last then 1 else 0)) % 2 ^ 64;
        total_delay = plus c.total_delay (minus t_begin t_start);
      },
    )

abbrev with_request : ℕ × ContentionModel → ℕ × ContentionModel
with_request r = (r.0, record r.1 { n_requests = (r.1.n_requests + 1) % 2 ^ 64 })

unfoldable pub get_completion_time : ContentionModel → ℕ → ℕ → ℕ → ℕ × ContentionModel
get_completion_time c t_start t_delay tag =
    if length c.slots == 0
    then (plus t_start t_delay, c)
    else if t_start == 0
    then with_request (t_delay, c)
    else if ltb t_start c.last
    then with_request
        (plus t_start t_delay, record c { n_outoforder = (c.n_outoforder + 1) % 2 ^ 64 })
    else with_request (in_order c t_start t_delay tag)

-- The loop of `getStartTime`, on the least time so far.
abbrev pub peek_start : ℕ → List Slot → ℕ → ℕ
peek_start t_start [] least = if ltb t_start least then least else t_start
peek_start t_start (s ∷ ss) least =
    let rest = peek_start t_start ss (if ltb s.free_at least then s.free_at else least) in
    if leb s.free_at t_start then t_start else rest

unfoldable pub get_start_time : ContentionModel → ℕ → ℕ
get_start_time c t_start =
    if length c.slots == 0
    then t_start
    else if ltb t_start c.last
    then t_start
    else peek_start t_start c.slots (first_time c.slots)
