-- ===== src/Ants/Global.antt =====
-- The global pool and its monitor in tools/ants/work.go. Channels are numbered as they are made.
-- An operation runs from its start to its end, or to a `Lock` of `monitorMu` while that is held, where
-- it waits (`deadlock`) in the state that it has come to; `panicked` is the close of a closed channel.
use Prim.Native.String.{String}
use soelib.Common.{
  ℕ, ◌+◌, ◌*◌, List, [], ◌∷◌, Option, none, some, Bool, true, false, ◌||◌, ◌==◌, if◌then◌else◌, ◌⊎◌,
  inl, inr,
}
use soelib.Ants.Types.{PoolError, HealthConfig, default_health_config, Pool}
use soelib.Ants.Pool.{
  Pending, begin_submit, begin_submit_with_task_id, set_health_config, get_health_config,
}
use soelib.Ants.Options.{Options, Setter, NewLibraryPool, new_with_options, new, minute}

pub record MonitorConfig : Type 0 where
  pub enabled : Bool
  pub interval : ℕ
  pub print_basic_metrics : Bool
  pub print_health_info : Bool
  pub max_slow_tasks_print : ℕ
  pub max_failed_tasks_print : ℕ

unfoldable pub default_monitor_config : MonitorConfig
default_monitor_config = record {
  enabled = false;
  interval = 5 * minute;
  print_basic_metrics = true;
  print_health_info = true;
  max_slow_tasks_print = 5;
  max_failed_tasks_print = 5;
}

-- A monitor goroutine in its select, with the stop channel on which it waits and its configuration.
-- The moments in which it prints are no states of the model.
pub record Loop : Type 0 where
  pub channel : ℕ
  pub config : MonitorConfig

-- `locked` says whether `monitorMu` is held.
pub record Global : Type 0 where
  pub ants_pool : Option Pool
  pub once_done : Bool
  pub monitor_running : Bool
  pub monitor_stop_ch : Option ℕ
  pub closed : List ℕ
  pub loops : List Loop
  pub next_channel : ℕ
  pub locked : Bool

abbrev pub no_globals : Global
no_globals = record {
  ants_pool = none;
  once_done = false;
  monitor_running = false;
  monitor_stop_ch = none;
  closed = [];
  loops = [];
  next_channel = 0;
  locked = false;
}

pub data Ran : Type 0 where
  done deadlock : Global → Ran
  panicked : Ran

abbrev pub is_closed : List ℕ → ℕ → Bool
is_closed [] c = false
is_closed (d ∷ ds) c = d == c || is_closed ds c

abbrev pub close_channel : Global → Option ℕ → Ran
close_channel g none = done (record g { monitor_running = false })
close_channel g (some c) =
    if is_closed g.closed c
    then panicked
    else done (record g { monitor_running = false; closed = c ∷ g.closed })

abbrev pub and_then : Ran → (Global → Ran) → Ran
and_then (done g) f = f g
and_then (deadlock g) f = deadlock g
and_then panicked f = panicked

-- `monitorMu.Lock()`, and `monitorMu.Unlock()` at the end.
abbrev pub lock : Global → Ran
lock g = if g.locked then deadlock g else done (record g { locked = true })

abbrev pub with_lock : (Global → Ran) → Global → Ran
with_lock body g = and_then (and_then (lock g) body) (λ h. done (record h { locked = false }))

abbrev pub stop_locked : Global → Ran
stop_locked g = if g.monitor_running then close_channel g g.monitor_stop_ch else done g

unfoldable pub stop_global_monitor : Global → Ran
stop_global_monitor g = with_lock stop_locked g

-- The defaults of the fields that are not set.
unfoldable pub filled_in : MonitorConfig → MonitorConfig
filled_in c = record c {
  interval = if c.interval == 0 then 5 * minute else c.interval;
  max_slow_tasks_print = if c.max_slow_tasks_print == 0 then 5 else c.max_slow_tasks_print;
  max_failed_tasks_print = if c.max_failed_tasks_print == 0 then 5 else c.max_failed_tasks_print;
}

abbrev pub launched : Global → MonitorConfig → Global
launched g c = record g {
  monitor_running = true;
  monitor_stop_ch = some g.next_channel;
  loops = record { channel = g.next_channel; config = c } ∷ g.loops;
  next_channel = g.next_channel + 1;
}

abbrev pub launch_if : Option Pool → Global → MonitorConfig → Global
launch_if none g c = g
launch_if (some p) g c = launched g c

-- A monitor that runs is stopped by `StopGlobalMonitor`.
abbrev pub stop_running : Global → Ran
stop_running g = if g.monitor_running then stop_global_monitor g else done g

abbrev pub start_locked : MonitorConfig → Global → Ran
start_locked c g = and_then (stop_running g) (λ h. done (launch_if h.ants_pool h (filled_in c)))

unfoldable pub start_global_monitor : Global → MonitorConfig → Ran
unfolding filled_in
start_global_monitor g c = with_lock (start_locked c) g

unfoldable pub set_monitor_config : Global → MonitorConfig → Ran
set_monitor_config g c = if c.enabled then start_global_monitor g c else stop_global_monitor g

-- None if it waits for the mutex.
unfoldable pub is_monitor_running : Global → Option Bool
is_monitor_running g = if g.locked then none else some g.monitor_running

-- A monitor goroutine whose channel is closed returns.
abbrev pub live : List ℕ → List Loop → List Loop
live closed [] = []
live closed (l ∷ ls) =
    let rest = live closed ls in if is_closed closed l.channel then rest else l ∷ rest

unfoldable pub loops_return : Global → Global
loops_return g = record g { loops = live g.closed g.loops }

pub record GlobalPoolConfig : Type 0 where
  pub name : String
  pub size : ℕ
  pub user : Options → Options
  pub health : HealthConfig
  pub monitor : MonitorConfig

abbrev pub pool_or_none : PoolError ⊎ Pool → Option Pool
pool_or_none (inl e) = none
pool_or_none (inr p) = some p

module _ (apply : Setter → Options → Options) (new_pool : NewLibraryPool) (num_cpu : ℕ) where
  abbrev pub init_with : PoolError ⊎ Pool → Global → GlobalPoolConfig → Ran
  init_with (inl e) g config = done (record g {
    ants_pool = pool_or_none (new apply new_pool num_cpu config.name none);
    once_done = true;
  })
  init_with (inr p) g config =
      let g' = record g {
        ants_pool = some (set_health_config p config.health);
        once_done = true;
      } in
      if config.monitor.enabled then start_global_monitor g' config.monitor else done g'

  -- `PreAlloc` is set by `config.user`.
  unfoldable pub init_coroutine_pool_with_config : Global → GlobalPoolConfig → Ran
  init_coroutine_pool_with_config g config =
      if g.once_done
      then done g
      else (init_with (new_with_options apply new_pool num_cpu config.name config.size config.user)
          g config)

-- Submissions to the global pool: without a pool they are logged and dropped.
unfoldable pub submit_task : Global → Option (Pool × Pending)
submit_task g = elim g.ants_pool [ none ↦ none | some p ↦ some (begin_submit p) ]

unfoldable pub submit_task_with_id : Global → String → Option (Pool × Pending)
submit_task_with_id g id = elim g.ants_pool [
  | none ↦ none
  | some p ↦ some (begin_submit_with_task_id p id)
]

unfoldable pub set_global_health_config : Global → HealthConfig → Global
set_global_health_config g c = elim g.ants_pool [
  | none ↦ g
  | some p ↦ record g { ants_pool = some (set_health_config p c) }
]

unfoldable pub get_global_health_config : Global → HealthConfig
get_global_health_config g = elim g.ants_pool [
  | none ↦ default_health_config
  | some p ↦ get_health_config p
]
