-- ===== src/Tests/Qos.antt =====
-- The priority scheduler with two queued items.
use ipv_8_public_base_statio.Common.{ℕ, [], ◌∷◌}
use ipv_8_public_base_statio.Qos.Scheduler.{PriorityScheduler, new, push}
use ipv_8_public_base_statio.Qos.Scheduler.Laws.{
  IsScheduler, Taken, new-IsScheduler, push-IsScheduler, take_next_lem,
}

-- Capacity 2, item 7 in class 1.
abbrev one_queued : PriorityScheduler ℕ
one_queued = record {
  queues = [] ∷ (7 ∷ []) ∷ [] ∷ [] ∷ [];
  counts = 0 ∷ 1 ∷ 0 ∷ 0 ∷ [];
  cap = 2;
  dropped = 0;
}

abbrev none_queued : PriorityScheduler ℕ
none_queued = record {
  queues = [] ∷ [] ∷ [] ∷ [] ∷ [];
  counts = 0 ∷ 0 ∷ 0 ∷ 0 ∷ [];
  cap = 2;
  dropped = 0;
}

one_queued-IsScheduler : IsScheduler one_queued
unfolding new push
one_queued-IsScheduler = push-IsScheduler (new 2) 1 7 (new-IsScheduler 2)

take_next_lem_example : Taken one_queued
take_next_lem_example = take_next_lem one_queued one_queued-IsScheduler
