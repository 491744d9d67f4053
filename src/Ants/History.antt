-- ===== src/Ants/History.antt =====
-- The records of a pool of tools/ants/pool.go against the whole history of the tasks that ended.
use Prim.Native.String.{String}
use Prim.Native.String
use soelib.Common.{
  ℕ, List, [], ◌∷◌, ◌++◌, Option, none, some, Bool, true, false, ◌&&◌, ltb, if◌then◌else◌, ◌≡◌,
  refl, ap, ◌∙◌, sym, arith,
}
use mathlib.Core.List.{append-nil, append_assoc}
use soelib.Ants.Types.{Pool, HealthConfig, SlowTaskRecord, FailedTaskRecord, keep_last}
use soelib.Ants.Pool.{
  Pending, plain, with_task_id, with_context, Outcome, finish, fail, analyse, record_time,
  record_slow, record_failed,
}
use soelib.Ants.Window.{keep_last-snoc}

-- A task with what happened to it.
pub record Ended : Type 0 where
  pub task : Pending
  pub outcome : Outcome

-- The pool after the tasks have ended in this order.
unfoldable pub finish_all : Pool → List Ended → Pool
finish_all p [] = p
finish_all p (e ∷ es) = finish_all (finish p e.task e.outcome).0 es

-- The duration that a task adds to the metrics: tracked tasks add none.
abbrev pub time_of : Pending → Outcome → Option ℕ
time_of plain o = some o.execution_time
time_of (with_task_id _ _ _) o = none
time_of with_context o = some o.execution_time

abbrev pub slow_of : Pending → Outcome → Option SlowTaskRecord
slow_of plain o = none
slow_of with_context o = none
slow_of (with_task_id id on slow) o =
    if on && (ltb 0 slow && ltb slow o.execution_time)
    then some (record { task_id = id; execution_time = o.execution_time; timestamp = o.now })
    else none

abbrev pub push {ℓ} : {A : Type ℓ} → Option A → List A → List A
push none xs = xs
push (some x) xs = x ∷ xs

abbrev pub collect {ℓ} : {A : Type ℓ} → (Pending → Outcome → Option A) → List Ended → List A
collect f [] = []
collect f (e ∷ es) = push (f e.task e.outcome) (collect f es)

abbrev pub keep_new {ℓ} : {A : Type ℓ} → ℕ → List A → Option A → List A
keep_new n xs none = xs
keep_new n xs (some x) = keep_last n (xs ++ x ∷ [])

pub analyse-times :
    (p : Pool) (id : String) (on : Bool) (slow : ℕ) (o : Outcome)
    → ((analyse p id on slow o).task_execution_times ≡ p.task_execution_times)
      × ((analyse p id on slow o).max_task_execution_time ≡ p.max_task_execution_time)
      × ((analyse p id on slow o).min_task_execution_time ≡ p.min_task_execution_time)
      × ((analyse p id on slow o).health_config ≡ p.health_config)
unfolding analyse record_slow record_failed
analyse-times p id on slow o = ground arith

finish-times :
    (p : Pool) (task : Pending) (o : Outcome)
    → (finish p task o).0.task_execution_times
      ≡ keep_new 1000 p.task_execution_times (time_of task o)
unfolding finish record_time fail
finish-times p plain o = ground arith
finish-times p (with_task_id id on slow) o = ground (arith, analyse-times p id on slow o)
finish-times p with_context o = ground arith

pub analyse-slow :
    (p : Pool) (id : String) (on : Bool) (slow : ℕ) (o : Outcome)
    → (analyse p id on slow o).slow_task_records
      ≡ keep_new p.health_config.max_slow_task_records p.slow_task_records
          (slow_of (with_task_id id on slow) o)
unfolding analyse record_slow record_failed
analyse-slow p id on slow o = ground arith

pub finish-slow :
    (p : Pool) (task : Pending) (o : Outcome)
    → (finish p task o).0.slow_task_records
      ≡ keep_new p.health_config.max_slow_task_records p.slow_task_records (slow_of task o)
unfolding finish record_time fail
finish-slow p plain o = ground arith
finish-slow p (with_task_id id on slow) o = ground (arith, analyse-slow p id on slow o)
finish-slow p with_context o = ground arith

abbrev pub panic_record : String → ℕ → Option String → Option FailedTaskRecord
panic_record id now none = none
panic_record id now (some v) =
    some (record { task_id = id; error = String.◌++◌ "panic: " v; timestamp = now })

abbrev pub failed_of : Pending → Outcome → Option FailedTaskRecord
failed_of plain o = none
failed_of with_context o = none
failed_of (with_task_id id false slow) o = none
failed_of (with_task_id id true slow) o = panic_record id o.now o.panic_err

analyse-failed :
    (p : Pool) (id : String) (on : Bool) (slow : ℕ) (o : Outcome)
    → (analyse p id on slow o).failed_task_records
      ≡ keep_new p.health_config.max_failed_task_records p.failed_task_records
          (failed_of (with_task_id id on slow) o)
unfolding analyse record_slow record_failed
analyse-failed p id false slow o = refl
analyse-failed p id true slow o = ground arith

finish-failed :
    (p : Pool) (task : Pending) (o : Outcome)
    → (finish p task o).0.failed_task_records
      ≡ keep_new p.health_config.max_failed_task_records p.failed_task_records (failed_of task o)
unfolding finish record_time fail
finish-failed p plain o = ground arith
finish-failed p (with_task_id id on slow) o = ground (arith, analyse-failed p id on slow o)
finish-failed p with_context o = ground arith

finish-health :
    (p : Pool) (task : Pending) (o : Outcome) → (finish p task o).0.health_config ≡ p.health_config
unfolding finish record_time fail
finish-health p plain o = ground arith
finish-health p (with_task_id id on slow) o = ground (arith, analyse-times p id on slow o)
finish-health p with_context o = ground arith

-- A list of the pool that each end of a task extends by at most one element and trims to `n`.
module _ {ℓ} {A : Type ℓ} (field : Pool → List A) (f : Pending → Outcome → Option A) (n : ℕ)
    (c : HealthConfig)
    (step : (p : Pool) (task : Pending) (o : Outcome)
      → p.health_config ≡ c
      → field (finish p task o).0 ≡ keep_new n (field p) (f task o)) where
  keep_new-keep_last :
      (h xs : List A) (new : Option A)
      → xs ≡ keep_last n h
      → (es : List Ended) (goal : Pool)
      → ((h' : List A)
          → keep_new n xs new ≡ keep_last n h'
          → field (finish_all goal es) ≡ keep_last n (h' ++ collect f es))
      → field (finish_all goal es) ≡ keep_last n (h ++ push new (collect f es))
  keep_new-keep_last h xs none e es goal k = k h e
  keep_new-keep_last h xs (some x) e es goal k =
      k (h ++ x ∷ []) (ap (λ (l : List A). keep_last n (l ++ x ∷ [])) e ∙ keep_last-snoc n h x)
      ∙ ap (keep_last n) (append_assoc h (x ∷ []) (collect f es))

  finish_all-kept :
      (es : List Ended) (p : Pool) (h : List A)
      → p.health_config ≡ c
      → field p ≡ keep_last n h
      → field (finish_all p es) ≡ keep_last n (h ++ collect f es)
  unfolding finish_all
  finish_all-kept [] p h conf e = e ∙ ap (keep_last n) (sym (append-nil h))
  finish_all-kept (x ∷ es) p h conf e =
      let p' = (finish p x.task x.outcome).0 in
      keep_new-keep_last h (field p) (f x.task x.outcome) e es p' (λ h' e'.
        finish_all-kept es p' h' (finish-health p x.task x.outcome ∙ conf)
          (step p x.task x.outcome conf ∙ e'))

keep_last-nil {ℓ} : {A : Type ℓ} (n : ℕ) → keep_last {A = A} n [] ≡ []
unfolding keep_last
keep_last-nil n = ground arith

-- After any tasks have ended in any order, a pool that had no records holds the last 1000
-- durations of the untracked tasks and, of the tracked ones, the last slow and the last failed
-- tasks that its health configuration has room for: no others, and in the order of their ends.
pub finish_all-records :
    (p : Pool) (es : List Ended)
    → p.task_execution_times ≡ []
    → p.slow_task_records ≡ []
    → p.failed_task_records ≡ []
    → ((finish_all p es).task_execution_times ≡ keep_last 1000 (collect time_of es))
      × ((finish_all p es).slow_task_records
          ≡ keep_last p.health_config.max_slow_task_records (collect slow_of es))
      × ((finish_all p es).failed_task_records
          ≡ keep_last p.health_config.max_failed_task_records (collect failed_of es))
finish_all-records p es times slow failed =
    let c = p.health_config in
    (
      finish_all-kept (λ q. q.task_execution_times) time_of 1000 c
          (λ q task o conf. finish-times q task o) es p [] refl (times ∙ sym (keep_last-nil 1000)),
      finish_all-kept (λ q. q.slow_task_records) slow_of c.max_slow_task_records c
          (λ q task o conf.
            finish-slow q task o
            ∙ ap (λ d. keep_new d.max_slow_task_records q.slow_task_records (slow_of task o)) conf)
          es p [] refl (slow ∙ sym (keep_last-nil c.max_slow_task_records)),
      finish_all-kept (λ q. q.failed_task_records) failed_of c.max_failed_task_records c
          (λ q task o conf.
            finish-failed q task o
            ∙ ap (λ d. keep_new d.max_failed_task_records q.failed_task_records (failed_of task o))
                conf)
          es p [] refl (failed ∙ sym (keep_last-nil c.max_failed_task_records)),
    )
