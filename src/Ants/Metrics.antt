-- ===== src/Ants/Metrics.antt =====
-- `Metrics` of tools/ants/pool.go, and `Update` and the configuration of tools/ants/metrics.go. The
-- figures of the library's pool (running, waiting, capacity) are arguments.
use Prim.Native.String.{String}
use soelib.Common.{ℕ, ◌+◌, ◌/◌, List, [], ◌∷◌, if◌then◌else◌, length, ltb}
use soelib.Common.Int.{ℤ, sub_ℕ}
use soelib.Ants.Types.{SlowTaskRecord, FailedTaskRecord, Pool}

-- What the library's pool reports.
pub record Gauges : Type 0 where
  pub running : ℕ
  pub waiting : ℕ
  pub capacity : ℕ
  pub now : ℕ

pub record Metrics : Type 0 where
  pub name : String
  pub running_goroutines : ℕ
  pub waiting_tasks : ℕ
  pub total_tasks : ℕ
  pub failed_tasks : ℕ
  pub pool_capacity : ℕ
  pub pool_size : ℕ
  pub timestamp : ℕ
  pub task_execution_time : ℕ
  pub max_task_execution_time : ℕ
  pub min_task_execution_time : ℕ
  pub queue_length_change : ℤ
  pub goroutines_created : ℕ
  pub goroutines_destroyed : ℕ
  pub success_tasks : ℤ
  pub tracked_tasks : ℕ
  pub slow_tasks : List SlowTaskRecord
  pub failed_tasks_list : List FailedTaskRecord

unfoldable pub sum : List ℕ → ℕ
sum [] = 0
sum (t ∷ ts) = t + sum ts

-- The mean of the recorded durations, 0 if there is none.
unfoldable pub average : List ℕ → ℕ
unfolding sum
average ts = if ltb 0 (length ts) then sum ts / length ts else 0

-- What the loads of the counters return, one after the other: the first two make `SuccessTasks`.
pub record Loads : Type 0 where
  pub total_for_success : ℕ
  pub failed_for_success : ℕ
  pub total : ℕ
  pub failed : ℕ
  pub tracked : ℕ

-- The section of `Metrics` with the write lock, as far as it changes the pool: it stores the queue
-- length that was read before.
unfoldable pub store_queue_length : Pool → Gauges → Pool
store_queue_length p g = record p { last_queue_length = g.waiting }

-- What `Metrics` returns: `p`, `q` and `r` are the pool in its first section with the read lock, in
-- the one with the write lock, and in the second one with the read lock, among which others may run;
-- the counters change also with the read lock held.
unfoldable pub metrics : Pool → Pool → Pool → Loads → Gauges → Metrics
unfolding average
metrics p q r l g = record {
  name = r.name;
  running_goroutines = g.running;
  waiting_tasks = g.waiting;
  total_tasks = l.total;
  failed_tasks = l.failed;
  pool_capacity = g.capacity;
  pool_size = g.running;
  timestamp = g.now;
  task_execution_time = average p.task_execution_times;
  max_task_execution_time = r.max_task_execution_time;
  min_task_execution_time = r.min_task_execution_time;
  queue_length_change = sub_ℕ g.waiting p.last_queue_length;
  goroutines_created = r.goroutines_created;
  goroutines_destroyed = r.goroutines_destroyed;
  success_tasks = sub_ℕ l.total_for_success l.failed_for_success;
  tracked_tasks = l.tracked;
  slow_tasks = q.slow_task_records;
  failed_tasks_list = q.failed_task_records;
}

-- `Update` refreshes some of the fields of a value that was made before.
unfoldable pub update : Metrics → Pool → Loads → Gauges → Metrics
unfolding average
update m p l g =
    let any = ltb 0 (length p.task_execution_times) in
    record m {
      timestamp = g.now;
      running_goroutines = g.running;
      waiting_tasks = g.waiting;
      total_tasks = l.total;
      failed_tasks = l.failed;
      pool_capacity = g.capacity;
      success_tasks = sub_ℕ l.total l.failed;
      task_execution_time = if any then average p.task_execution_times else m.task_execution_time;
      max_task_execution_time =
          if any then p.max_task_execution_time else m.max_task_execution_time;
      min_task_execution_time =
          if any then p.min_task_execution_time else m.min_task_execution_time;
      goroutines_created = p.goroutines_created;
      goroutines_destroyed = p.goroutines_destroyed;
    }
