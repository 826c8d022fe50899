-- ===== src/Performance/HistoryList.antt =====
-- queue_model_history_list.cc: a shared resource as a list of free intervals of time. Left out are the
-- analytical model for old requests, with its moving average, and the statistics.
pub mod Slots
pub mod Left
pub mod Answers
use model_lib.Prelude.{
  List, Option, [], drop, guard, if◌then◌else◌, leb, length, ltb, none, some, ℕ, ◌%◌, ◌&&◌, ◌+◌,
  ◌-◌, ◌>>=◌, ◌>>◌, ◌^◌, ◌∷◌,
}
use model_lib.System.Threads.{plus}

-- The difference of two `SubsecondTime`s, unsigned words of 64 bits.
abbrev pub minus : ℕ → ℕ → ℕ
minus a b = (a + (2 ^ 64 - b)) % 2 ^ 64

-- `FreeIntervalList`
abbrev pub FreeIntervalList : Type 0
FreeIntervalList = List (ℕ × ℕ)

-- The constructor's list.
abbrev pub all_free : FreeIntervalList
all_free = (0, 2 ^ 63) ∷ []

-- A part of a free interval goes back into the list if it is long enough.
abbrev pub give_back : ℕ → ℕ → ℕ → FreeIntervalList → FreeIntervalList
give_back min first second rest =
    if leb min (minus second first) then (first, second) ∷ rest else rest

-- The loop of `computeUsingHistoryList`: the delay and the list. The source starts with the delay
-- MaxTime, 2 ^ 64 - 1, and asserts after the loop that it has another one; here the loop has found
-- none.
pub allocate : ℕ → ℕ → ℕ → FreeIntervalList → Option (ℕ × FreeIntervalList)
allocate min pkt proc [] = none
allocate min pkt proc ((first, second) ∷ rest) =
    let later = allocate min pkt proc rest in
    if leb first pkt && leb (plus pkt proc) second
    then some (0, give_back min first pkt (give_back min (plus pkt proc) second rest))
    else if ltb pkt first
    then some (minus first pkt, give_back min (plus first proc) second rest)
    else (do r ← later; some (r.0, (first, second) ∷ r.1))

-- `computeUsingHistoryList`
pub compute_using_history_list : ℕ → ℕ → FreeIntervalList → ℕ → ℕ → Option (ℕ × FreeIntervalList)
compute_using_history_list max_size min intervals pkt proc = do
  guard (leb (length intervals) max_size)
  r ← allocate min pkt proc intervals
  some (r.0, if ltb max_size (length r.1) then drop 1 r.1 else r.1)
