-- ===== src/Lucslot/Dropped.antt =====
-- A second of tools/lucslot whose closure the pool of goroutines does not accept (`SubmitTask` logs
-- the error and returns).
use soelib.Common.{ℕ, ◌+◌, ◌<◌, List, [], ◌∷◌, map, false, ◌==◌, ◌≡◌, refl, ap₂, arith}
use soelib.Lucslot.Wheel.{Entry, ArchetypeSlots, new_slots, run, tick}
use soelib.Lucslot.Agenda.{
  IsCalibrated, Plan, due, plan, agenda, cur_index-lt, due-tick_turned, due-tick_other,
}
use soelib.Lucslot.Events.{IsReady}

-- A plan for an hour later.
abbrev pub hour_later : {K : Type 0} → Plan K → Plan K
hour_later p = record p { at = p.at + 3600 }

delayed :
    {K : Type 0} (s : ArchetypeSlots K) (es : List (Entry K))
    → s.cur_index < 3600
    → map (plan (tick false s) s.cur_index) es ≡ map hour_later (map (plan s s.cur_index) es)
delayed s [] c = refl
delayed s (e ∷ es) c =
    let later : due (tick false s) s.cur_index e.task.turn_num
        ≡ due s s.cur_index e.task.turn_num + 3600 =
      omega (arith, due-tick_turned false s e.task.turn_num c) in
    ap₂ (λ (t : ℕ) (ps : List (Plan _)). record { key = e.key; exec = e.task.exec; at = t } ∷ ps)
      later (delayed s es c)

undelayed :
    {K : Type 0} (s : ArchetypeSlots K) (i : ℕ) (es : List (Entry K))
    → s.cur_index < 3600
    → i < 3600
    → (i == s.cur_index) ≡ false
    → map (plan (tick false s) i) es ≡ map (plan s i) es
undelayed s i [] c h other = refl
undelayed s i (e ∷ es) c h other =
    ap₂ (λ (t : ℕ) (ps : List (Plan _)). record { key = e.key; exec = e.task.exec; at = t } ∷ ps)
      (due-tick_other false s i e.task.turn_num c h other) (undelayed s i es c h other)

-- If the closure of a second is not accepted, every task of the slot of that second is late by an
-- hour, those that were due in it and the others; the tasks of the other slots are not late.
pub tick-agenda_refused :
    {K : Type 0} (s : ArchetypeSlots K) (i : ℕ)
    → IsCalibrated s
    → i < 3600
    → (i == s.cur_index) ≡ false
    → (agenda (tick false s) s.cur_index ≡ map hour_later (agenda s s.cur_index))
      × (agenda (tick false s) i ≡ agenda s i)
unfolding tick
tick-agenda_refused s i c h other =
    let small = cur_index-lt s c in
    (delayed s (s.slots s.cur_index) small, undelayed s i (s.slots i) small h other)

-- A new wheel that starts to run, in the second of its making or however much later, is ready.
pub run-IsReady :
    {K : Type 0} (created clock : ℕ)
    → created < clock + 1
    → IsReady (run (new_slots {K = K} created) clock)
unfolding run new_slots
run-IsReady created clock h = record {
  calibrated = record { started = omega (arith, h); aligned = refl };
  idle = refl;
}
