-- ===== src/Performance/Tests.antt =====
-- Runs of queue_model_history_list.cc on two free intervals, and of contention_model.cc on two slots.
use model_lib.Prelude.{
  [], arith, drop, get_elem?, if◌then◌else◌, inl, inr, length, ltb, refl, set, some, ℕ, ◌∷◌, ◌≡◌,
  ◌≤◌,
}
use model_lib.Performance.HistoryList.{FreeIntervalList, compute_using_history_list}
use model_lib.Performance.HistoryList.Left.{Left}
use model_lib.Performance.HistoryList.Slots.{Ordered, Served, chosen}
use model_lib.Performance.HistoryList.Answers.{
  history_list_answers, gives_free_time, interval_reversed,
}
use model_lib.Performance.Contention.{ContentionModel, Slot, get_completion_time, get_start_time}
use model_lib.Performance.Contention.Start.{AreBusyUntil, completion-start, get_completion_time_lem}
use model_lib.System.Threads.{plus}

abbrev intervals : FreeIntervalList
intervals = (100, 200) ∷ (300, 1000) ∷ []

intervals-Ordered : Ordered 0 intervals
intervals-Ordered =
    (omega arith, omega arith, omega arith, (omega arith, omega arith, omega arith, tt))

history_list_answers_example :
    (r : ℕ × FreeIntervalList) × (compute_using_history_list 10 5 intervals 150 60 ≡ some r)
history_list_answers_example =
    history_list_answers 10 5 150 60 intervals (omega arith) (omega arith) (inr (inl (omega arith)))

gives_free_time_example :
    (left : FreeIntervalList) × (after : FreeIntervalList) × (compute_using_history_list 10 5
        intervals 150 60
      ≡ some (150, after))
    × Served 0 300 60 intervals after
    × Left 5 300 60 300 1000 intervals left
    × (after ≡ (if ltb 10 (length left) then drop 1 left else left))
unfolding chosen
gives_free_time_example =
    gives_free_time 10 5 150 60 300 1000 intervals (omega arith) intervals-Ordered refl
      (omega arith) (omega arith)

interval_reversed_example :
    compute_using_history_list 10 5 intervals 50 180 ≡ some (50, (280, 200) ∷ (300, 1000) ∷ [])
interval_reversed_example =
    interval_reversed 10 5 50 180 100 200 ((300, 1000) ∷ []) (omega arith) (omega arith)
      (omega arith) (omega arith) (omega arith)

-- Both slots are in use at 60; the second is free first.
abbrev busy : ContentionModel
busy = record {
  slots = record { free_at = 100; tag = 1 } ∷ record { free_at = 80; tag = 2 } ∷ [];
  last = 50;
  n_requests = 2;
  n_barriers = 0;
  n_outoforder = 0;
  n_simultaneous = 0;
  n_hasfreefail = 0;
  total_delay = 0;
  total_barrier_delay = 0;
}

completion-start_example : 100 ≡ plus (get_start_time busy 60) 20
unfolding get_completion_time
completion-start_example = completion-start busy 60 20 3 (λ e. omega (arith, e))

get_completion_time_lem_example :
    (100 ≡ plus (get_start_time busy 60) 20)
    × (60 ≤ get_start_time busy 60)
    × AreBusyUntil busy.slots 60 (get_start_time busy 60)
    × (unit : ℕ) × (s : Slot) × (get_elem? busy.slots unit ≡ some s)
    × (s.free_at ≤ get_start_time busy 60)
    × ((get_completion_time busy 60 20 3).1.slots
        ≡ set busy.slots unit (record { free_at = 100; tag = 3 }))
    × ((get_completion_time busy 60 20 3).1.last ≡ 60)
unfolding get_completion_time
get_completion_time_lem_example =
    get_completion_time_lem busy 60 20 3 (omega arith) (λ e. omega (arith, e)) (omega arith)
