-- ===== src/Qos/Scheduler.antt =====
-- The bounded priority queue of four classes (src/core/ipv8-qos/src/scheduler.rs). The arrays
-- `queues` and `counts` are lists of four entries.
pub mod Queues
pub mod Laws
use ipv_8_public_base_statio.Common.{
  ℕ, zero, suc, ◌+◌, ◌-◌, Bool, Option, none, some, List, [], ◌∷◌, ◌++◌, min, max, leb, ◌==◌,
  if◌then◌else◌, get_or, set, replicate,
}
use ipv_8_public_base_statio.Qos.Classifier.{num_classes}

pub record PriorityScheduler (T : Type 0) : Type 0 where
  pub queues : List (List T)
  pub counts : List ℕ
  pub cap : ℕ
  pub dropped : ℕ

pub sum : List ℕ → ℕ
sum [] = 0
sum (n ∷ ns) = n + sum ns

module _ {T : Type 0} where
  unfoldable pub new : ℕ → PriorityScheduler T
  new cap = record {
    queues = replicate num_classes [];
    counts = replicate num_classes 0;
    cap = max cap 1;
    dropped = 0;
  }

  -- A refused item is handed back.
  unfoldable pub push : PriorityScheduler T → ℕ → T → PriorityScheduler T × Option T
  push s class item =
      let c = min class (num_classes - 1) in
      if leb s.cap (get_or s.counts c 0)
      then (record s { dropped = s.dropped + 1 }, some item)
      else (
        record s {
          queues = set s.queues c (get_or s.queues c [] ++ (item ∷ []));
          counts = set s.counts c (get_or s.counts c 0 + 1);
        },
        none,
      )

  -- `pop_front` of one class.
  unfoldable pub pop_class : PriorityScheduler T → ℕ → List T → Option (T × PriorityScheduler T)
  pop_class s class [] = none
  pop_class s class (item ∷ rest) = some (
    item,
    record s {
      queues = set s.queues class rest;
      counts = set s.counts class (get_or s.counts class 0 - 1);
    },
  )

  unfoldable pub or_else :
      Option (T × PriorityScheduler T)
      → Option (T × PriorityScheduler T)
      → Option (T × PriorityScheduler T)
  or_else none other = other
  or_else (some r) other = some r

  -- The loop `for class in (0..n).rev()`.
  unfoldable pub take_below : PriorityScheduler T → ℕ → Option (T × PriorityScheduler T)
  unfolding or_else pop_class
  take_below s zero = none
  take_below s (suc class) =
      let rest = take_below s class in or_else (pop_class s class (get_or s.queues class [])) rest

  unfoldable pub take_next : PriorityScheduler T → Option (T × PriorityScheduler T)
  unfolding take_below
  take_next s = take_below s num_classes

  unfoldable pub len : PriorityScheduler T → ℕ
  unfolding sum
  len s = sum s.counts

  unfoldable pub is_empty_scheduler : PriorityScheduler T → Bool
  unfolding len
  is_empty_scheduler s = len s == 0

  unfoldable pub class_len : PriorityScheduler T → ℕ → ℕ
  class_len s class = get_or s.counts class 0
