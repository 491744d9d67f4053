-- ===== src/TimeTask/Service.antt =====
-- `TimeTaskService` of tools/task/time_task.go. The jobs are those that the clock package (alex023)
-- returns, as numbers: it returns one, although the code ignores its errors. An operation runs from its
-- start to its end, or to a `Lock` of the mutex while that is held, where it waits.
use soelib.Common.{
  ℕ, List, [], ◌∷◌, ◌++◌, map, Option, none, some, Bool, true, false, if◌then◌else◌, Eq, length,
}

pub record TaskJob (K : Type 0) : Type 0 where
  pub name : K
  pub job : ℕ

-- `canceled` has the jobs whose `Cancel` was called.
pub record Service (K : Type 0) : Type 0 where
  pub cache : List (TaskJob K)
  pub canceled : List ℕ

-- The service with its mutex.
pub record Shared (K : Type 0) : Type 0 where
  pub service : Service K
  pub locked : Bool

pub data Ran (K : Type 0) : Type 0 where
  done deadlock : Shared K → Ran K

abbrev pub and_then : {K : Type 0} → Ran K → (Shared K → Ran K) → Ran K
and_then (done s) f = f s
and_then (deadlock s) f = deadlock s

-- `Lock`, and the deferred `Unlock`.
abbrev pub with_lock : {K : Type 0} → (Shared K → Ran K) → Shared K → Ran K
with_lock body s =
    if s.locked
    then deadlock s
    else and_then (body (record s { locked = true })) (λ t. done (record t { locked = false }))

-- An operation that changes the service with the mutex held.
unfoldable pub call : {K : Type 0} → (Service K → Service K) → Shared K → Ran K
call f = with_lock (λ s. done (record s { service = f s.service }))

module _ {K : Type 0} ⦃eq : Eq K⦄ where
  abbrev pub lookup : K → List (TaskJob K) → Option ℕ
  lookup k [] = none
  lookup k (t ∷ ts) = let rest = lookup k ts in if eq.beq k t.name then some t.job else rest

  abbrev pub delete : K → List (TaskJob K) → List (TaskJob K)
  delete k [] = []
  delete k (t ∷ ts) = let rest = delete k ts in if eq.beq k t.name then rest else t ∷ rest

  -- The entry of a name is deleted and its job is canceled, if there is one.
  abbrev pub drop_found : Service K → K → Option ℕ → Service K
  drop_found s k none = s
  drop_found s k (some j) = record { cache = delete k s.cache; canceled = j ∷ s.canceled }

  abbrev pub put : Service K → K → ℕ → Service K
  put s k job = record s { cache = record { name = k; job = job } ∷ delete k s.cache }

  -- `RemoveTask` with the mutex held.
  unfoldable pub remove_task : Service K → K → Service K
  remove_task s k = drop_found s k (lookup k s.cache)

  unfoldable pub check_task : Service K → K → Bool
  check_task s k = elim (lookup k s.cache) [ none ↦ false | some j ↦ true ]

  -- A name that is there is given to `RemoveTask`, which locks the mutex.
  abbrev pub remove_found : K → Shared K → Ran K
  remove_found k s = if check_task s.service k then call (λ t. remove_task t k) s else done s

  unfoldable pub add_task : Shared K → K → ℕ → Ran K
  add_task s k job =
      with_lock
        (λ t. and_then (remove_found k t) (λ u. done (record u { service = put u.service k job })))
        s

  -- `AddTaskWithInterval` with the mutex held.
  unfoldable pub add_task_with_interval : Service K → K → ℕ → Service K
  add_task_with_interval s k job = put (drop_found s k (lookup k s.cache)) k job

unfoldable pub remove_all : {K : Type 0} → Service K → Service K
remove_all s = record { cache = []; canceled = map (λ t. t.job) s.cache ++ s.canceled }

unfoldable pub get_task_num : {K : Type 0} → Service K → ℕ
get_task_num s = length s.cache
