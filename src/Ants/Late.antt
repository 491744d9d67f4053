-- ===== src/Ants/Late.antt =====
-- Which health configuration judges a task with an ID, in the two pools of tools/ants/pool.go.
use Prim.Native.String.{String}
use soelib.Common.{◌≡◌, arith}
use soelib.Ants.Types.{HealthConfig, Pool}
use soelib.Ants.Pool.{
  with_task_id, Outcome, fail, finish, record_time, begin_submit_with_task_id, set_health_config,
}
use soelib.Ants.Func.{task_with_id, func_finish, begin_invoke_with_task_id}
use soelib.Ants.History.{keep_new, slow_of, finish-slow, analyse-slow}

func_finish-slow :
    (p : Pool) (id : String) (o : Outcome)
    → (func_finish p (task_with_id id) o).0.slow_task_records
      ≡ keep_new p.health_config.max_slow_task_records p.slow_task_records
          (slow_of (with_task_id id p.health_config.enabled p.health_config.slow_task_threshold) o)
unfolding func_finish fail record_time
func_finish-slow p id o =
    let c = p.health_config in
    ground
      (arith, analyse-slow (record_time p o.execution_time) id c.enabled c.slow_task_threshold o)

-- The configuration is changed to `c` while a task waits. A `Pool` judges by the switch and the
-- threshold from before, a `PoolWithFunc` by those of `c`; both trim to the limit of `c`.
pub judged_by :
    (p : Pool) (id : String) (c : HealthConfig) (o : Outcome)
    → let begun = begin_submit_with_task_id p id in
      let invoked = begin_invoke_with_task_id p id in
      let old = p.health_config in
      ((finish (set_health_config begun.0 c) begun.1 o).0.slow_task_records
        ≡ keep_new c.max_slow_task_records p.slow_task_records
            (slow_of (with_task_id id old.enabled old.slow_task_threshold) o))
      × ((func_finish (set_health_config invoked.0 c) invoked.1 o).0.slow_task_records
          ≡ keep_new c.max_slow_task_records p.slow_task_records
              (slow_of (with_task_id id c.enabled c.slow_task_threshold) o))
unfolding begin_submit_with_task_id begin_invoke_with_task_id set_health_config
judged_by p id c o =
    let begun = begin_submit_with_task_id p id in
    let invoked = set_health_config (begin_invoke_with_task_id p id).0 c in
    (finish-slow (set_health_config begun.0 c) begun.1 o, func_finish-slow invoked id o)
