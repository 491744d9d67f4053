-- ===== src/Ants/Accounting.antt =====
-- The counters of a pool (tools/ants/pool.go) account for every task that was ever submitted.
use Prim.Native.String.{String}
use soelib.Common.{
  ℕ, ◌+◌, ◌-◌, ◌≤◌, List, [], ◌∷◌, ◌++◌, Option, none, some, Bool, if◌then◌else◌, length,
  length-append, ◌≡◌, ap, ap₂, ◌∙◌, arith,
}
use soelib.Common.Int.{sub_ℕ, sub_ℕ-shift}
use soelib.Ants.Types.{Pool}
use soelib.Ants.Pool.{
  Pending, plain, with_task_id, with_context, Outcome, finish, begin_submit, fail, analyse,
  begin_submit_with_context, begin_submit_with_task_id, end_submit, set_health_config,
  register_error_callback, record_time, record_slow, record_failed,
}
use soelib.Ants.Metrics.{Gauges, Loads, metrics, store_queue_length}
use soelib.Ants.System.{
  System, Step, submit, submit_with_context, submit_with_task_id, answer, end, configure, register,
  observe, Later, no_step, and_step, Reach, here, next, ended_well, enqueue,
}

-- Every submitted task is waiting for an answer, pending, done, or counted as failed.
pub record IsAccounted (s : System) : Type 0 where
  pub balance :
      s.pool.total_tasks ≡ length s.calling + length s.pending + s.succeeded + s.pool.failed_tasks

analyse-counts :
    (p : Pool) (id : String) (on : Bool) (slow : ℕ) (o : Outcome)
    → ((analyse p id on slow o).total_tasks ≡ p.total_tasks)
      × ((analyse p id on slow o).failed_tasks ≡ p.failed_tasks)
unfolding analyse record_slow record_failed
analyse-counts p id on slow o = ground arith

-- The end of a task leaves the total alone and counts a failure exactly if it did not end well.
pub finish-counts :
    (p : Pool) (task : Pending) (o : Outcome)
    → ((finish p task o).0.total_tasks ≡ p.total_tasks)
      × ((finish p task o).0.failed_tasks ≡ (
          if ended_well task o.panic_err o.ctx_canceled
          then p.failed_tasks
          else p.failed_tasks + 1))
unfolding finish record_time fail
finish-counts p plain o = ground arith
finish-counts p (with_task_id id on slow) o = ground (arith, analyse-counts p id on slow o)
finish-counts p with_context o = ground arith

end_submit-counts :
    (p : Pool) (task : Pending) (e : Option String)
    → ((end_submit p task e).pool.total_tasks ≡ p.total_tasks)
      × (length (enqueue e task []) + (end_submit p task e).pool.failed_tasks ≡ p.failed_tasks + 1)
unfolding end_submit
end_submit-counts p task e = ground arith

end_submit-failed :
    (p : Pool) (task : Pending) (e : Option String)
    → p.failed_tasks ≤ (end_submit p task e).pool.failed_tasks
unfolding end_submit
end_submit-failed p task none = omega arith
end_submit-failed p task (some x) = omega arith

length-enqueue :
    (e : Option String) (task : Pending) (pending : List Pending)
    → length (enqueue e task pending) ≡ length pending + length (enqueue e task [])
length-enqueue none task pending = length-append pending (task ∷ [])
length-enqueue (some e) task pending = omega arith

-- One element less than a list that holds it.
length-remove :
    (l before : List Pending) (task : Pending) (after : List Pending)
    → l ≡ before ++ task ∷ after
    → length l ≡ length (before ++ after) + 1
length-remove l before task after e = omega (
  arith,
  ap (length {A = Pending}) e,
  length-append before (task ∷ after),
  length-append before after,
)

length-snoc : (l : List Pending) (task : Pending) → length (l ++ task ∷ []) ≡ length l + 1
length-snoc l task = length-append l (task ∷ [])

pub Step-IsAccounted : {s t : System} → Step s t → IsAccounted s → IsAccounted t
unfolding begin_submit begin_submit_with_context begin_submit_with_task_id set_health_config
    register_error_callback store_queue_length
Step-IsAccounted {s} submit i = record {
  balance = omega (arith, i.balance, length-snoc s.calling plain);
}
Step-IsAccounted {s} submit_with_context i = record {
  balance = omega (arith, i.balance, length-snoc s.calling with_context);
}
Step-IsAccounted {s} (submit_with_task_id id) i = record {
  balance = omega (arith, i.balance, length-snoc s.calling _);
}
Step-IsAccounted {s} (answer before task after e q) i = record {
  balance = omega (
    arith,
    i.balance,
    length-remove s.calling before task after q,
    end_submit-counts s.pool task e,
    length-enqueue e task s.pending,
  );
}
Step-IsAccounted {s} (end before task after o q) i = record {
  balance =
      ground (
        arith,
        i.balance,
        length-remove s.pending before task after q,
        finish-counts s.pool task o,
      );
}
Step-IsAccounted (configure c) i = record { balance = i.balance }
Step-IsAccounted (register f) i = record { balance = i.balance }
Step-IsAccounted (observe g) i = record { balance = i.balance }

pub Reach-IsAccounted :
    {p : Pool} {s : System} → p.total_tasks ≡ 0 → p.failed_tasks ≡ 0 → Reach p s → IsAccounted s
Reach-IsAccounted {p} none_yet no_failure here = record { balance = omega arith }
Reach-IsAccounted none_yet no_failure (next r st) =
    Step-IsAccounted st (Reach-IsAccounted none_yet no_failure r)

-- A step counts failures up only.
Step-failed : {s t : System} → Step s t → s.pool.failed_tasks ≤ t.pool.failed_tasks
unfolding begin_submit begin_submit_with_context begin_submit_with_task_id set_health_config
    register_error_callback store_queue_length
Step-failed submit = omega arith
Step-failed submit_with_context = omega arith
Step-failed (submit_with_task_id id) = omega arith
Step-failed {s} (answer before task after e q) = ground (arith, end_submit-failed s.pool task e)
Step-failed {s} (end before task after o q) = ground (arith, finish-counts s.pool task o)
Step-failed (configure c) = omega arith
Step-failed (register f) = omega arith
Step-failed (observe g) = omega arith

Later-failed : {s t : System} → Later s t → s.pool.failed_tasks ≤ t.pool.failed_tasks
Later-failed no_step = omega arith
Later-failed (and_step l st) = omega (arith, Later-failed l, Step-failed st)

-- From a new pool on, whatever the interleaving: `SuccessTasks` is the number of tasks that, when the
-- total is loaded, have ended well, wait for the library's answer, or wait or run, less the number of
-- those that fail between that load and the load of the failed ones.
pub success_tasks-eq :
    {p : Pool} {s t : System} (q r u : Pool) (l : Loads) (g : Gauges)
    → p.total_tasks ≡ 0
    → p.failed_tasks ≡ 0
    → Reach p s
    → Later s t
    → l.total_for_success ≡ s.pool.total_tasks
    → l.failed_for_success ≡ t.pool.failed_tasks
    → (n : ℕ) × (t.pool.failed_tasks ≡ s.pool.failed_tasks + n)
      × ((metrics q r u l g).success_tasks
          ≡ sub_ℕ (length s.calling + length s.pending + s.succeeded) n)
unfolding metrics
success_tasks-eq {s} {t} q r u l g none_yet no_failure reach later total failed =
    let n = t.pool.failed_tasks - s.pool.failed_tasks in
    let more : t.pool.failed_tasks ≡ s.pool.failed_tasks + n = omega (arith, Later-failed later) in
    (
      n,
      more,
      ap₂ sub_ℕ (total ∙ (Reach-IsAccounted none_yet no_failure reach).balance) (failed ∙ more)
          ∙ sub_ℕ-shift (length s.calling + length s.pending + s.succeeded) n s.pool.failed_tasks,
    )
