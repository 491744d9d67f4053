-- ===== src/TimeTask/Samples.antt =====
-- The theorems about tools/task at a sample service.
use soelib.Common.{ℕ, [], ◌∷◌, some, true, false, if◌then◌else◌, nat_eq, ◌==◌, ◌≡◌, ◌↔◌, refl}
use soelib.TimeTask.Service.{
  Service, Shared, done, deadlock, call, remove_all, lookup, add_task, add_task_with_interval,
  check_task,
}
use soelib.TimeTask.Laws.{held, add_task_with_interval-lookup, add_task-deadlock_iff}

-- The names 1 and 2 have the jobs 10 and 20.
abbrev sample : Service ℕ
sample = record {
  cache = record { name = 1; job = 10 } ∷ record { name = 2; job = 20 } ∷ [];
  canceled = [];
}

abbrev shared : Shared ℕ
shared = record { service = sample; locked = false }

again_run :
    (add_task shared 2 30 ≡ deadlock (held shared))
    × (add_task shared 3 30
        ≡ done (record shared {
          service = record sample { cache = record { name = 3; job = 30 } ∷ sample.cache };
        }))
unfolding add_task call check_task
again_run = (refl, refl)

add_task_with_interval-lookup_example :
    (lookup 1 (add_task_with_interval sample 2 30).cache
      ≡ (if 1 == 2 then some 30 else lookup 1 sample.cache))
    × ((add_task_with_interval sample 2 30).canceled ≡ 20 ∷ [])
add_task_with_interval-lookup_example = add_task_with_interval-lookup sample 2 1 30

add_task-deadlock_iff_example :
    ((add_task shared 2 30 ≡ deadlock (held shared)) ↔ (check_task sample 2 ≡ true))
    × (call remove_all (held shared) ≡ deadlock (held shared))
    × (add_task (held shared) 3 30 ≡ deadlock (held shared))
add_task-deadlock_iff_example = add_task-deadlock_iff shared 2 30 remove_all 3 30 refl
