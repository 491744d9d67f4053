-- ===== src/Ants/Samples.antt =====
-- Runs of the model of tools/ants, and the theorems about it at sample inputs.
use soelib.Common.{ℕ, ◌+◌, List, [], ◌∷◌, none, some, true, false, length, ◌≡◌, ◌↔◌, refl}
use soelib.Common.Int.{sub_ℕ, pos}
use soelib.Ants.Types.{default_health_config, HealthConfig, Pool, keep_last}
use soelib.Ants.Pool.{
  plain, with_task_id, with_context, Outcome, finish, begin_submit, end_submit, record_time,
  analyse, fail, record_failed,
}
use soelib.Ants.Options.{Options, no_options, created}
use soelib.Ants.Metrics.{Gauges, Loads, metrics}
use soelib.Ants.System.{
  Later, no_step, and_step, System, submit, answer, end, start, Reach, here, next, begun, answered,
  finished,
}
use soelib.Ants.Accounting.{success_tasks-eq}
use soelib.Ants.History.{
  Ended, finish_all, collect, time_of, slow_of, failed_of, finish_all-records,
}
use soelib.Ants.Context.{TaskRun, timeout_err, timeout_turn, context_turn}
use soelib.Ants.Global.{
  MonitorConfig, Global, GlobalPoolConfig, done, deadlock, no_globals, start_global_monitor,
  filled_in, init_coroutine_pool_with_config, set_monitor_config, stop_global_monitor, loops_return,
  launched,
}
use soelib.Ants.Monitor.{
  IsSound, Sound, held, launched-IsSound, pool-IsSound, no_globals-IsSound,
  set_monitor_config-Sound, set_monitor_config-deadlock_iff,
}

abbrev watching : HealthConfig
watching = record {
  enabled = true;
  slow_task_threshold = 50;
  max_slow_task_records = 1;
  max_failed_task_records = 2;
}

abbrev fresh_pool : Pool
fresh_pool = created "p" 4

abbrev watched_pool : Pool
watched_pool = record fresh_pool { health_config = watching }

abbrev took : ℕ → Outcome
took t = record { execution_time = t; panic_err = none; ctx_canceled = none; now = 1000 }

abbrev boom : ℕ → Outcome
boom t = record { execution_time = t; panic_err = some "boom"; ctx_canceled = none; now = 1000 }

abbrev gauges : Gauges
gauges = record { running = 1; waiting = 2; capacity = 4; now = 2000 }

-- One task ends well, one submission is refused, one task panics and one waits for an answer.
abbrev t1 : System
t1 = begun (start fresh_pool) (begin_submit fresh_pool)

abbrev t2 : System
t2 = answered t1 [] plain none

abbrev t3 : System
t3 = begun t2 (begin_submit t2.pool)

abbrev t4 : System
t4 = answered t3 [] plain (some "full")

abbrev t5 : System
t5 = finished t4 [] plain (took 7)

abbrev t6 : System
t6 = begun t5 (begin_submit t5.pool)

t6-Reach : Reach fresh_pool t6
unfolding begin_submit end_submit finish
t6-Reach =
    next
      (next
        (next (next (next (next here submit) (answer [] plain [] none refl)) submit)
          (answer [] plain [] (some "full") refl))
        (end [] plain [] (took 7) refl))
      submit

-- A task fails after `t6` has been reached.
abbrev t7 : System
t7 = answered t6 [] plain (some "full")

t6-t7 : Later t6 t7
unfolding begin_submit end_submit finish
t6-t7 = and_step no_step (answer [] plain [] (some "full") refl)

abbrev loads : Loads
loads = record { total_for_success = 3; failed_for_success = 2; total = 3; failed = 2; tracked = 0 }

t6_total : 3 ≡ t6.pool.total_tasks
unfolding begin_submit end_submit finish record_time
t6_total = refl

t7_failed : 2 ≡ t7.pool.failed_tasks
unfolding begin_submit end_submit finish record_time
t7_failed = refl

success_tasks-eq_example :
    (n : ℕ) × (t7.pool.failed_tasks ≡ t6.pool.failed_tasks + n)
    × ((metrics t6.pool t6.pool t7.pool loads gauges).success_tasks
        ≡ sub_ℕ (length t6.calling + length t6.pending + t6.succeeded) n)
success_tasks-eq_example =
    success_tasks-eq t6.pool t6.pool t7.pool loads gauges refl refl t6-Reach t6-t7 t6_total
      t7_failed

-- A task waits for its answer and one has ended well, and the one that waits is refused between the
-- loads: the figure is 1.
success_tasks_run : (metrics t6.pool t6.pool t7.pool loads gauges).success_tasks ≡ pos 1
unfolding metrics begin_submit end_submit finish record_time
success_tasks_run = refl

abbrev ends : List Ended
ends =
    record { task = plain; outcome = took 7 }
    ∷ record { task = with_task_id "a" true 50; outcome = took 60 }
    ∷ record { task = with_context; outcome = boom 3 }
    ∷ record { task = with_task_id "b" true 50; outcome = boom 70 }
    ∷ []

finish_all-records_example :
    ((finish_all watched_pool ends).task_execution_times ≡ keep_last 1000 (collect time_of ends))
    × ((finish_all watched_pool ends).slow_task_records ≡ keep_last 1 (collect slow_of ends))
    × ((finish_all watched_pool ends).failed_task_records ≡ keep_last 2 (collect failed_of ends))
finish_all-records_example = finish_all-records watched_pool ends refl refl refl

-- Of the two slow tasks the later one is kept.
slow_run :
    (finish_all watched_pool ends).slow_task_records
    ≡ record { task_id = "b"; execution_time = 70; timestamp = 1000 } ∷ []
unfolding finish_all finish record_time record_failed analyse fail
slow_run = refl

abbrev short_run : TaskRun
short_run = record { duration = 5; panic_err = none }

-- The submission has returned after 3, before the timeout, and after 1000.
timeout_turn_run :
    (timeout_err 1000 2000 (some 3) ≡ some "context canceled")
    × (timeout_err 1000 2000 (some 1500) ≡ some "context deadline exceeded")
    × (timeout_err 1000 500 none ≡ none)
    × ((timeout_turn 1000 1 none short_run 0).called ≡ true)
unfolding timeout_err timeout_turn context_turn
timeout_turn_run = (refl, refl, refl, refl)

abbrev monitored : MonitorConfig
monitored = record {
  enabled = true;
  interval = 1000;
  print_basic_metrics = true;
  print_health_info = true;
  max_slow_tasks_print = 5;
  max_failed_tasks_print = 5;
}

-- A global pool whose monitor runs.
abbrev with_pool : Global
with_pool = record no_globals { ants_pool = some fresh_pool; once_done = true }

with_pool-IsSound : IsSound with_pool
with_pool-IsSound = pool-IsSound no_globals (some fresh_pool) no_globals-IsSound

abbrev running_monitor : Global
running_monitor = launched with_pool monitored

running_monitor_run : start_global_monitor with_pool monitored ≡ done running_monitor
unfolding start_global_monitor filled_in
running_monitor_run = refl

running_monitor-IsSound : IsSound running_monitor
running_monitor-IsSound = launched-IsSound with_pool monitored with_pool-IsSound refl

abbrev switched_off : MonitorConfig
switched_off = record monitored { enabled = false }

abbrev pool_config : GlobalPoolConfig
pool_config = record {
  name = "p";
  size = 4;
  user = λ o. o;
  health = default_health_config;
  monitor = monitored;
}

set_monitor_config-Sound_example :
    Sound (set_monitor_config running_monitor switched_off)
    × Sound (start_global_monitor running_monitor switched_off)
    × Sound (stop_global_monitor running_monitor)
    × Sound (init_coroutine_pool_with_config (λ s o. o) (λ n o. none) 2 running_monitor pool_config)
    × IsSound (loops_return running_monitor)
set_monitor_config-Sound_example =
    set_monitor_config-Sound (λ s o. o) (λ n o. none) 2 running_monitor switched_off pool_config
      running_monitor-IsSound refl

-- The monitor is stopped, and its goroutine returns.
stopped_run :
    (set_monitor_config running_monitor switched_off
      ≡ done (record running_monitor { monitor_running = false; closed = 0 ∷ [] }))
    × ((loops_return (record running_monitor { monitor_running = false; closed = 0 ∷ [] })).loops
        ≡ [])
unfolding set_monitor_config stop_global_monitor loops_return
stopped_run = (refl, refl)

set_monitor_config-deadlock_iff_example :
    ((set_monitor_config running_monitor monitored ≡ deadlock (held running_monitor))
      ↔ ((monitored.enabled ≡ true) × (running_monitor.monitor_running ≡ true)))
    × (set_monitor_config (held running_monitor) switched_off ≡ deadlock (held running_monitor))
    × (start_global_monitor (held running_monitor) switched_off ≡ deadlock (held running_monitor))
    × (stop_global_monitor (held running_monitor) ≡ deadlock (held running_monitor))
set_monitor_config-deadlock_iff_example =
    set_monitor_config-deadlock_iff running_monitor monitored switched_off refl

abbrev some_options : Options
some_options = record no_options { expiry_duration = 9; nonblocking = true; logger = some 3 }
