-- ===== src/Ants/Types.antt =====
-- The data of tools/ants: `PoolError` and `Pool` of pool.go, the records of metrics.go and
-- `HealthConfig` of work.go. Durations and times are nanoseconds; counters are far from the end of
-- their 64 bits. Thresholds and limits are not negative.
use Prim.Native.String.{String}
use soelib.Common.{ℕ, List, Option, Bool, false, map, length, ltb, drop, ◌-◌, if◌then◌else◌}

-- The codes of pool.go, each with its number.
pub data ErrCode : Type 0 where
  submit_task create_pool invalid_config pool_closed task_panic task_timeout context_canceled :
      ErrCode

unfoldable pub code_number : ErrCode → ℕ
code_number submit_task = 1001
code_number create_pool = 1002
code_number invalid_config = 1003
code_number pool_closed = 1004
code_number task_panic = 1005
code_number task_timeout = 1006
code_number context_canceled = 1007

-- `Err` keeps the text of the wrapped error, if there is one.
pub record PoolError : Type 0 where
  pub code : ErrCode
  pub message : String
  pub err : Option String

pub record HealthConfig : Type 0 where
  pub enabled : Bool
  pub slow_task_threshold : ℕ
  pub max_slow_task_records : ℕ
  pub max_failed_task_records : ℕ

unfoldable pub default_health_config : HealthConfig
default_health_config = record {
  enabled = false;
  slow_task_threshold = 0;
  max_slow_task_records = 100;
  max_failed_task_records = 100;
}

pub record SlowTaskRecord : Type 0 where
  pub task_id : String
  pub execution_time : ℕ
  pub timestamp : ℕ

pub record FailedTaskRecord : Type 0 where
  pub task_id : String
  pub error : String
  pub timestamp : ℕ

-- The fields of `Pool`, and of `PoolWithFunc`, but for the library's pool and the mutex. A callback
-- is named by a number.
pub record Pool : Type 0 where
  pub name : String
  pub total_tasks : ℕ
  pub failed_tasks : ℕ
  pub error_callbacks : List ℕ
  pub task_execution_times : List ℕ
  pub max_task_execution_time : ℕ
  pub min_task_execution_time : ℕ
  pub goroutines_created : ℕ
  pub goroutines_destroyed : ℕ
  pub last_queue_length : ℕ
  pub health_config : HealthConfig
  pub tracked_tasks : ℕ
  pub slow_task_records : List SlowTaskRecord
  pub failed_task_records : List FailedTaskRecord

-- A call of a callback.
pub record Call : Type 0 where
  pub callback : ℕ
  pub error : PoolError

unfoldable pub call_error_callbacks : Pool → PoolError → List Call
call_error_callbacks p e = map (λ c. record { callback = c; error = e }) p.error_callbacks

-- `if len(xs) > n { xs = xs[len(xs)-n:] }`
unfoldable pub keep_last {ℓ} : {A : Type ℓ} → ℕ → List A → List A
keep_last n xs = if ltb n (length xs) then drop (length xs - n) xs else xs
