-- ===== src/Ants/Func.antt =====
-- `PoolWithFunc` of tools/ants/pool.go: one worker function, called with each argument. Its struct
-- has the fields of `Pool`.
use Prim.Native.String.{String}
use Prim.Native.String
use soelib.Common.{
  ℕ, ◌+◌, ◌*◌, List, [], ◌∷◌, Option, none, some, false, ◌⊎◌, inl, inr, if◌then◌else◌,
}
use soelib.Ants.Types.{create_pool, submit_task, PoolError, Pool, Call}
use soelib.Ants.Pool.{Outcome, Submitted, fail, record_time, analyse, report_panic}
use soelib.Ants.Options.{
  Options, Setter, with_expiry_duration, with_max_blocking_tasks, minute, no_options, pool_size,
  apply_all, option_slice, NewLibraryPool, created,
}

abbrev pub PoolWithFunc : Type 0
PoolWithFunc = Pool

-- The worker's argument: `taskWithID`, or any other value.
pub data FuncArg : Type 0 where
  task_with_id : (task_id : String) → FuncArg
  bare : FuncArg

-- The options of this pool have no panic handler by default, and one that the caller sets is not
-- passed on.
unfoldable pub func_default_options : ℕ → List Setter
func_default_options size = with_expiry_duration minute ∷ with_max_blocking_tasks (size * 3) ∷ []

unfoldable pub func_option_slice : Options → List Setter
unfolding option_slice
func_option_slice o = option_slice (record o { panic_handler = false })

abbrev pub func_creation : Option String → String → ℕ → PoolError ⊎ PoolWithFunc
func_creation (some e) name size =
    inl (record { code = create_pool; message = "创建带函数的线程池失败"; err = some e })
func_creation none name size = inr (created name size)

module _ (apply : Setter → Options → Options) (new_pool : NewLibraryPool) where
  unfoldable pub new_pool_with_func_with_options :
      ℕ → String → ℕ → (Options → Options) → PoolError ⊎ PoolWithFunc
  unfolding pool_size func_default_options func_option_slice
  new_pool_with_func_with_options num_cpu name size user =
      let n = pool_size num_cpu size in
      let options = user (apply_all apply (func_default_options n) no_options) in
      func_creation (new_pool n (func_option_slice options)) name n

  unfoldable pub new_pool_with_func : ℕ → String → Option ℕ → PoolError ⊎ PoolWithFunc
  unfolding new_pool_with_func_with_options
  new_pool_with_func num_cpu name none = new_pool_with_func_with_options num_cpu name 0 (λ o. o)
  new_pool_with_func num_cpu name (some size) =
      new_pool_with_func_with_options num_cpu name size (λ o. o)

-- The metrics, and for a task with an ID its records under the configuration of the moment.
unfoldable pub func_records : PoolWithFunc → FuncArg → Outcome → PoolWithFunc
func_records p bare o = record_time p o.execution_time
func_records p (task_with_id id) o =
    let p' = record_time p o.execution_time in
    analyse p' id p.health_config.enabled p.health_config.slow_task_threshold o

-- The deferred function of the wrapped worker function.
unfoldable pub func_finish : PoolWithFunc → FuncArg → Outcome → PoolWithFunc × List Call
unfolding func_records
func_finish p arg o = report_panic "任务执行过程中发生panic" (func_records p arg o) o.panic_err

unfoldable pub begin_invoke : PoolWithFunc → PoolWithFunc × FuncArg
begin_invoke p = (record p { total_tasks = p.total_tasks + 1 }, bare)

unfoldable pub begin_invoke_with_task_id : PoolWithFunc → String → PoolWithFunc × FuncArg
begin_invoke_with_task_id p id = (
  record p {
    total_tasks = p.total_tasks + 1;
    tracked_tasks = if p.health_config.enabled then p.tracked_tasks + 1 else p.tracked_tasks;
  },
  task_with_id id,
)

abbrev pub invoke_message : FuncArg → String
invoke_message bare = "提交任务到 PoolWithFunc 失败"
invoke_message (task_with_id id) = String.◌++◌ (String.◌++◌ "提交任务 " id) " 到 PoolWithFunc 失败"

-- After the library's answer, `none` for acceptance.
unfoldable pub end_invoke : PoolWithFunc → FuncArg → Option String → Submitted
unfolding fail
end_invoke p arg none = record { pool = p; calls = []; error = none }
end_invoke p arg (some e) =
    let err : PoolError = record {
      code = submit_task;
      message = invoke_message arg;
      err = some e;
    } in
    let (p', calls) = fail p err in record { pool = p'; calls = calls; error = some err }
