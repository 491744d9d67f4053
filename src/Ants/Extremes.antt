-- ===== src/Ants/Extremes.antt =====
-- The longest and the shortest duration that a pool of tools/ants/pool.go reports.
use mathlib.Core.List.{foldl}
use soelib.Common.{
  ℕ, ◌<◌, List, [], ◌∷◌, Option, none, some, ◌||◌, ◌==◌, ltb, if◌then◌else◌, All, min, max, ◌≡◌,
  refl, ap, ◌∙◌, arith,
}
use soelib.Ants.Types.{Pool}
use soelib.Ants.Pool.{
  Pending, plain, with_task_id, with_context, Outcome, finish, fail, record_time,
}
use soelib.Ants.History.{Ended, finish_all, time_of, collect, push, analyse-times}

abbrev new_max : ℕ → Option ℕ → ℕ
new_max m none = m
new_max m (some t) = max m t

-- 0 stands for no duration yet.
abbrev new_min : ℕ → Option ℕ → ℕ
new_min m none = m
new_min m (some t) = if m == 0 || ltb t m then t else m

finish-extremes :
    (p : Pool) (task : Pending) (o : Outcome)
    → ((finish p task o).0.max_task_execution_time
        ≡ new_max p.max_task_execution_time (time_of task o))
      × ((finish p task o).0.min_task_execution_time
          ≡ new_min p.min_task_execution_time (time_of task o))
unfolding finish record_time fail
finish-extremes p plain o = ground arith
finish-extremes p (with_task_id id on slow) o = ground (arith, analyse-times p id on slow o)
finish-extremes p with_context o = ground arith

-- The least of some durations, 0 if there are none.
abbrev pub least : List ℕ → ℕ
least [] = 0
least (t ∷ ts) = foldl min t ts

abbrev pub greatest : List ℕ → ℕ
greatest = foldl max 0

abbrev run_min : ℕ → List ℕ → ℕ
run_min m [] = m
run_min m (t ∷ ts) = run_min (new_min m (some t)) ts

max-push :
    (m : ℕ) (new : Option ℕ) (rest : List ℕ)
    → foldl max (new_max m new) rest ≡ foldl max m (push new rest)
max-push m none rest = refl
max-push m (some t) rest = refl

finish_all-max :
    (es : List Ended) (p : Pool)
    → (finish_all p es).max_task_execution_time
      ≡ foldl max p.max_task_execution_time (collect time_of es)
unfolding finish_all
finish_all-max [] p = refl
finish_all-max (e ∷ es) p =
    finish_all-max es (finish p e.task e.outcome).0
    ∙ ap (λ (m : ℕ). foldl max m (collect time_of es)) (finish-extremes p e.task e.outcome).0
    ∙ max-push p.max_task_execution_time (time_of e.task e.outcome) (collect time_of es)

min_push :
    (m : ℕ) (new : Option ℕ) (rest : List ℕ)
    → run_min (new_min m new) rest ≡ run_min m (push new rest)
min_push m none rest = refl
min_push m (some t) rest = refl

finish_all-min :
    (es : List Ended) (p : Pool)
    → (finish_all p es).min_task_execution_time
      ≡ run_min p.min_task_execution_time (collect time_of es)
unfolding finish_all
finish_all-min [] p = refl
finish_all-min (e ∷ es) p =
    finish_all-min es (finish p e.task e.outcome).0
    ∙ ap (λ (m : ℕ). run_min m (collect time_of es)) (finish-extremes p e.task e.outcome).1
    ∙ min_push p.min_task_execution_time (time_of e.task e.outcome) (collect time_of es)

new_min-eq-min : (m t : ℕ) → 0 < m → new_min m (some t) ≡ min m t
new_min-eq-min m t h = ground arith

run_min-foldl : (m : ℕ) (ts : List ℕ) → 0 < m → All (λ t. 0 < t) ts → run_min m ts ≡ foldl min m ts
run_min-foldl m [] pos h = refl
run_min-foldl m (t ∷ ts) pos h =
    ap (λ (n : ℕ). run_min n ts) (new_min-eq-min m t pos)
    ∙ run_min-foldl (min m t) ts (let q : 0 < t = h.0 in omega arith) h.1

run_min-least : (ts : List ℕ) → All (λ t. 0 < t) ts → run_min 0 ts ≡ least ts
run_min-least [] h = refl
run_min-least (t ∷ ts) h = run_min-foldl t ts h.0 h.1

-- After any tasks have ended in any order, a pool that had no durations reports the greatest
-- duration of all the untracked tasks, also of those that have left the window, and the least one
-- if none of them is 0.
pub finish_all-extremes :
    (p : Pool) (es : List Ended)
    → p.max_task_execution_time ≡ 0
    → p.min_task_execution_time ≡ 0
    → All (λ t. 0 < t) (collect time_of es)
    → ((finish_all p es).max_task_execution_time ≡ greatest (collect time_of es))
      × ((finish_all p es).min_task_execution_time ≡ least (collect time_of es))
finish_all-extremes p es no_max no_min pos = (
  finish_all-max es p ∙ ap (λ (m : ℕ). foldl max m (collect time_of es)) no_max,
  finish_all-min es p
      ∙ ap (λ (m : ℕ). run_min m (collect time_of es)) no_min
      ∙ run_min-least (collect time_of es) pos,
)
