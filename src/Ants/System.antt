-- ===== src/Ants/System.antt =====
-- A pool of tools/ants/pool.go at work: submissions by any number of goroutines, tasks that the
-- library runs in any order, and the other operations, interleaved. Each step is a part of an
-- operation that runs under the lock or on the atomic counters.
use Prim.Native.String.{String}
use soelib.Common.{
  ℕ, ◌+◌, List, [], ◌∷◌, ◌++◌, Option, none, some, Bool, true, false, if◌then◌else◌, ◌≡◌,
}
use soelib.Ants.Types.{HealthConfig, Pool, Call}
use soelib.Ants.Pool.{
  Pending, with_context, Outcome, finish, begin_submit, begin_submit_with_context,
  begin_submit_with_task_id, end_submit, set_health_config, register_error_callback,
}
use soelib.Ants.Metrics.{Gauges, store_queue_length}

-- `calling` are the submissions that wait for the library's answer, `pending` the tasks that it has
-- taken and not finished, `succeeded` how many tasks ended without a failure.
pub record System : Type 0 where
  pub pool : Pool
  pub calling : List Pending
  pub pending : List Pending
  pub succeeded : ℕ
  pub calls : List Call

-- A task ends well if it was called and did not panic.
abbrev pub ended_well : Pending → Option String → Option String → Bool
ended_well task (some v) ctx = false
ended_well with_context none (some e) = false
ended_well _ none _ = true

abbrev pub enqueue : Option String → Pending → List Pending → List Pending
enqueue none task pending = pending ++ task ∷ []
enqueue (some e) task pending = pending

abbrev pub begun : System → Pool × Pending → System
begun s (p, task) = record s { pool = p; calling = s.calling ++ task ∷ [] }

abbrev pub answered : System → List Pending → Pending → Option String → System
answered s others task e =
    let r = end_submit s.pool task e in
    record s {
      pool = r.pool;
      calling = others;
      pending = enqueue e task s.pending;
      calls = s.calls ++ r.calls;
    }

abbrev pub finished : System → List Pending → Pending → Outcome → System
finished s others task o =
    let r = finish s.pool task o in
    record s {
      pool = r.0;
      pending = others;
      succeeded =
          if ended_well task o.panic_err o.ctx_canceled then s.succeeded + 1 else s.succeeded;
      calls = s.calls ++ r.1;
    }

pub data Step (s : System) : System → Type 0 where
  submit : Step s (begun s (begin_submit s.pool))
  submit_with_context : Step s (begun s (begin_submit_with_context s.pool))
  submit_with_task_id : (id : String) → Step s (begun s (begin_submit_with_task_id s.pool id))
  answer :
      (before : List Pending) (task : Pending) (after : List Pending) (e : Option String)
      → s.calling ≡ before ++ task ∷ after
      → Step s (answered s (before ++ after) task e)
  end :
      (before : List Pending) (task : Pending) (after : List Pending) (o : Outcome)
      → s.pending ≡ before ++ task ∷ after
      → Step s (finished s (before ++ after) task o)
  configure : (c : HealthConfig) → Step s (record s { pool = set_health_config s.pool c })
  register : (f : ℕ) → Step s (record s { pool = register_error_callback s.pool f })
  observe : (g : Gauges) → Step s (record s { pool = store_queue_length s.pool g })

abbrev pub start : Pool → System
start p = record { pool = p; calling = []; pending = []; succeeded = 0; calls = [] }

pub data Reach (p : Pool) : System → Type 0 where
  here : Reach p (start p)
  next : {s t : System} → Reach p s → Step s t → Reach p t

-- A state and one that it comes to.
pub data Later (s : System) : System → Type 0 where
  no_step : Later s s
  and_step : {t u : System} → Later s t → Step t u → Later s u
