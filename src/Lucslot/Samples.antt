-- ===== src/Lucslot/Samples.antt =====
-- Runs of the model of tools/lucslot, and the theorems about it at a sample wheel.
use soelib.Common.{ℕ, ◌+◌, List, [], ◌∷◌, map, Memᴰ, true, false, select, nat_eq, ◌≡◌, refl, arith}
use soelib.Lucslot.Wheel.{
  ArchetypeSlots, new_slots, run, tick, add_task, second, sweep, run_submitted,
}
use soelib.Lucslot.Agenda.{IsCalibrated, agenda}
use soelib.Lucslot.Seconds.{done_at, due_at, due_later, second-agenda}
use soelib.Lucslot.Adding.{placed_at}
use soelib.Lucslot.Events.{Event, passes, adds, IsReady, run_events, happens, add_task-on_time}

-- A wheel that was made 50 seconds before the hour and starts at its last second.
abbrev wheel : ArchetypeSlots ℕ
wheel = record {
  slots = λ i. [];
  cur_index = 0;
  glob_all_keys = [];
  check_time = 3600;
  now = 7199;
  submitted = [];
}

wheel-run : run (new_slots 7150) 7199 ≡ wheel
unfolding run new_slots
wheel-run = refl

wheel-IsCalibrated : IsCalibrated wheel
wheel-IsCalibrated = record { started = omega arith; aligned = refl }

wheel-IsReady : IsReady wheel
wheel-IsReady = record { calibrated = wheel-IsCalibrated; idle = refl }

-- A unique task for three seconds later, and another with its key for two seconds later.
abbrev plans : List (Event ℕ)
plans = adds 7202 5 1 true ∷ adds 7201 5 2 true ∷ adds 7201 5 3 false ∷ passes ∷ []

started_second : map (λ e. e.task.exec) (second (run_events wheel plans)).1 ≡ 3 ∷ []
unfolding run_events happens second add_task sweep run_submitted tick
started_second = refl

-- The wheel with one unique task.
abbrev busy : ArchetypeSlots ℕ
busy = placed_at wheel 7200 5 1 true

busy-IsCalibrated : IsCalibrated busy
busy-IsCalibrated = record { started = omega arith; aligned = refl }

second-agenda_example :
    (map (done_at (busy.now + 1)) (second busy).1
      ≡ select (due_at (busy.now + 1)) (agenda busy busy.cur_index))
    × (agenda (second busy).0 7 ≡ select (due_later (busy.now + 1)) (agenda busy 7))
    × IsCalibrated (second busy).0
    × ((second busy).0.submitted ≡ [])
second-agenda_example = second-agenda busy 7 busy-IsCalibrated refl (omega arith)

add_task-on_time_example :
    Memᴰ
      (record { key = 5; exec = 1; at = 7202 })
      (map
        (done_at 7202)
        (second
          (run_events wheel (adds 7202 5 1 true ∷ passes ∷ adds 7300 6 2 true ∷ passes ∷ []))).1)
add_task-on_time_example =
    add_task-on_time wheel 7202 5 1 true (passes ∷ adds 7300 6 2 true ∷ passes ∷ []) wheel-IsReady
      (omega arith) refl refl refl
