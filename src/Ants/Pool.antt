-- ===== src/Ants/Pool.antt =====
-- `Pool` of tools/ants/pool.go. A submission has two parts, before and after the call of the
-- library, and the deferred function of the wrapped task is a third, `finish`; a task that waits or
-- runs is the data that its wrapper has captured. Each part yields the calls of callbacks it makes.
use Prim.Native.String.{String}
use Prim.Native.String
use soelib.Common.{
  ℕ, ◌+◌, List, [], ◌∷◌, ◌++◌, Option, none, some, Bool, ◌&&◌, ◌||◌, ltb, ◌==◌, if◌then◌else◌,
}
use soelib.Ants.Types.{
  submit_task, task_panic, context_canceled, PoolError, HealthConfig, SlowTaskRecord,
  FailedTaskRecord, Pool, Call, call_error_callbacks, keep_last,
}

-- What the wrapper of a task captures when it is submitted.
pub data Pending : Type 0 where
  plain : Pending
  with_task_id : (task_id : String) (health_enabled : Bool) (slow_threshold : ℕ) → Pending
  with_context : Pending

-- What happened to a task: its duration, the value of a panic as text, the error of the context if
-- that was done before the task's turn (the task is then not called), and the clock at the end.
pub record Outcome : Type 0 where
  pub execution_time : ℕ
  pub panic_err : Option String
  pub ctx_canceled : Option String
  pub now : ℕ

-- A slow and a failed task are recorded, and the oldest records dropped.
unfoldable pub record_slow : Pool → SlowTaskRecord → Pool
unfolding keep_last
record_slow p r = record p {
  slow_task_records =
      keep_last p.health_config.max_slow_task_records (p.slow_task_records ++ r ∷ []);
}

unfoldable pub record_failed : Pool → FailedTaskRecord → Pool
unfolding keep_last
record_failed p r = record p {
  failed_task_records =
      keep_last p.health_config.max_failed_task_records (p.failed_task_records ++ r ∷ []);
}

-- The metrics that `Submit` and `SubmitWithContext` update under the lock.
unfoldable pub record_time : Pool → ℕ → Pool
unfolding keep_last
record_time p t = record p {
  task_execution_times = keep_last 1000 (p.task_execution_times ++ t ∷ []);
  max_task_execution_time =
      if ltb p.max_task_execution_time t then t else p.max_task_execution_time;
  min_task_execution_time =
      if p.min_task_execution_time == 0 || ltb t p.min_task_execution_time
      then t
      else p.min_task_execution_time;
}

-- `failedTasks` goes up and every callback is called with the error.
unfoldable pub fail : Pool → PoolError → Pool × List Call
unfolding call_error_callbacks
fail p e = (record p { failed_tasks = p.failed_tasks + 1 }, call_error_callbacks p e)

abbrev pub panic_error : String → String → PoolError
panic_error message v = record { code = task_panic; message = message; err = some v }

-- The end of the deferred functions: a panic is counted and reported.
abbrev pub report_panic : String → Pool → Option String → Pool × List Call
report_panic message p none = (p, [])
report_panic message p (some v) = fail p (panic_error message v)

-- The same where a done context counts as a failure.
abbrev pub report_context : Pool → Option String → Option String → Pool × List Call
report_context p (some v) ctx = fail p (panic_error "任务执行过程中发生panic" v)
report_context p none (some e) =
    fail p (record { code = context_canceled; message = "上下文已取消"; err = some e })
report_context p none none = (p, [])

-- The records of a tracked task, if the health analysis was on when it was submitted.
unfoldable pub note_slow : Pool → String → ℕ → Outcome → Pool
unfolding record_slow
note_slow p task_id slow_threshold o =
    if ltb 0 slow_threshold && ltb slow_threshold o.execution_time
    then record_slow p
        (record { task_id = task_id; execution_time = o.execution_time; timestamp = o.now })
    else p

abbrev pub note_failed : Pool → String → Option String → ℕ → Pool
note_failed p task_id none now = p
note_failed p task_id (some v) now =
    record_failed p (record { task_id = task_id; error = String.◌++◌ "panic: " v; timestamp = now })

unfoldable pub analyse : Pool → String → Bool → ℕ → Outcome → Pool
unfolding note_slow
analyse p task_id health_enabled slow_threshold o =
    if health_enabled
    then note_failed (note_slow p task_id slow_threshold o) task_id o.panic_err o.now
    else p

-- The message of a panic of the task with the given ID.
abbrev pub panic_message : String → String
panic_message task_id = String.◌++◌ (String.◌++◌ "任务 " task_id) " 执行过程中发生panic"

-- The deferred function of the wrapped task.
unfoldable pub finish : Pool → Pending → Outcome → Pool × List Call
finish p plain o = report_panic "任务执行过程中发生panic" (record_time p o.execution_time) o.panic_err
finish p (with_task_id task_id enabled threshold) o =
    report_panic (panic_message task_id) (analyse p task_id enabled threshold o) o.panic_err
finish p with_context o = report_context (record_time p o.execution_time) o.panic_err o.ctx_canceled

-- The first part of each submission, with what the wrapper captures.
unfoldable pub begin_submit : Pool → Pool × Pending
begin_submit p = (record p { total_tasks = p.total_tasks + 1 }, plain)

unfoldable pub begin_submit_with_context : Pool → Pool × Pending
begin_submit_with_context p = (record p { total_tasks = p.total_tasks + 1 }, with_context)

unfoldable pub begin_submit_with_task_id : Pool → String → Pool × Pending
begin_submit_with_task_id p task_id =
    let c = p.health_config in
    (
      record p {
        total_tasks = p.total_tasks + 1;
        tracked_tasks = if c.enabled then p.tracked_tasks + 1 else p.tracked_tasks;
      },
      with_task_id task_id c.enabled c.slow_task_threshold,
    )

-- What a submission returns.
pub record Submitted : Type 0 where
  pub pool : Pool
  pub calls : List Call
  pub error : Option PoolError

-- The message of a refused submission.
abbrev pub refusal_message : Pending → String
refusal_message plain = "提交任务失败"
refusal_message with_context = "提交任务失败"
refusal_message (with_task_id task_id _ _) = String.◌++◌ (String.◌++◌ "提交任务 " task_id) " 失败"

-- The second part: `none` is the library's acceptance, `some e` its error.
unfoldable pub end_submit : Pool → Pending → Option String → Submitted
unfolding fail
end_submit p task none = record { pool = p; calls = []; error = none }
end_submit p task (some e) =
    let err : PoolError = record {
      code = submit_task;
      message = refusal_message task;
      err = some e;
    } in
    let (p', calls) = fail p err in record { pool = p'; calls = calls; error = some err }

unfoldable pub set_health_config : Pool → HealthConfig → Pool
set_health_config p config = record p { health_config = config }

unfoldable pub get_health_config : Pool → HealthConfig
get_health_config p = p.health_config

unfoldable pub register_error_callback : Pool → ℕ → Pool
register_error_callback p callback = record p {
  error_callbacks = p.error_callbacks ++ callback ∷ [];
}
