-- ===== src/Lucslot/Agenda.antt =====
-- When the tasks on the wheel are due: the abstract view of tools/lucslot, in which a task has its
-- time in place of a slot and a number of turns.
use soelib.Common.{
  ℕ, suc, ◌+◌, ◌-◌, ◌*◌, ◌/◌, ◌%◌, ◌≤◌, ◌<◌, List, map, Bool, false, ◌==◌, ◌≡◌, refl, arith,
}
use soelib.Lucslot.Wheel.{Entry, ArchetypeSlots, run, tick}

-- The current slot is that of the next second, counted from the start of an hour.
pub record IsCalibrated {K : Type 0} (s : ArchetypeSlots K) : Type 0 where
  pub started : s.check_time ≤ s.now + 1
  pub aligned : s.cur_index ≡ (s.now + 1 - s.check_time) % 3600

-- The second in which a task with `turns` turns in slot `i` is run.
abbrev pub due : {K : Type 0} → ArchetypeSlots K → ℕ → ℕ → ℕ
due s i turns = s.now + 1 + (i + 3600 - s.cur_index) % 3600 + 3600 * turns

pub record Plan (K : Type 0) : Type 0 where
  pub key : K
  pub exec : ℕ
  pub at : ℕ

abbrev pub plan : {K : Type 0} → ArchetypeSlots K → ℕ → Entry K → Plan K
plan s i e = record { key = e.key; exec = e.task.exec; at = due s i e.task.turn_num }

-- What slot `i` has planned.
abbrev pub agenda : {K : Type 0} → ArchetypeSlots K → ℕ → List (Plan K)
agenda s i = map (plan s i) (s.slots i)

pub cur_index-lt : {K : Type 0} (s : ArchetypeSlots K) → IsCalibrated s → s.cur_index < 3600
cur_index-lt s c = omega (arith, c.aligned)

pub run-IsCalibrated :
    {K : Type 0} (s : ArchetypeSlots K) (clock : ℕ)
    → s.check_time ≤ clock
    → IsCalibrated (run s clock)
unfolding run
run-IsCalibrated s clock h = record { started = omega arith; aligned = refl }

pub tick-IsCalibrated :
    {K : Type 0} (accepted : Bool) (s : ArchetypeSlots K)
    → IsCalibrated s
    → IsCalibrated (tick accepted s)
unfolding tick
tick-IsCalibrated accepted s c =
    let h = c.started in
    let a = c.aligned in record { started = ground (arith, h, a); aligned = ground (arith, h, a) }

-- A slot that is not the current one keeps its times.
pub due-tick_other :
    {K : Type 0} (accepted : Bool) (s : ArchetypeSlots K) (i turns : ℕ)
    → s.cur_index < 3600
    → i < 3600
    → (i == s.cur_index) ≡ false
    → due (tick accepted s) i turns ≡ due s i turns
unfolding tick
due-tick_other accepted s i turns c h ne = ground arith

-- In the current slot a turn less makes up for the hour until the slot is reached again.
pub due-tick_turned :
    {K : Type 0} (accepted : Bool) (s : ArchetypeSlots K) (turns : ℕ)
    → s.cur_index < 3600
    → due (tick accepted s) s.cur_index turns ≡ due s s.cur_index (suc turns)
unfolding tick
due-tick_turned accepted s turns c = ground arith

pub due-now :
    {K : Type 0} (s : ArchetypeSlots K) (turns : ℕ)
    → s.cur_index < 3600
    → due s s.cur_index turns ≡ s.now + 1 + 3600 * turns
due-now s turns c = omega arith

-- No other slot has a task that is due in the next second.
pub due-other :
    {K : Type 0} (s : ArchetypeSlots K) (i turns : ℕ)
    → s.cur_index < 3600
    → i < 3600
    → (i == s.cur_index) ≡ false
    → (due s i turns == s.now + 1) ≡ false
due-other s i turns c h ne = ground arith

-- The slot and the turns that `AddTask` computes for a time.
pub due-add :
    {K : Type 0} (s : ArchetypeSlots K) (t : ℕ)
    → IsCalibrated s
    → s.now < t
    → due s ((t - s.check_time) % 3600) ((t - s.now - 1) / 3600) ≡ t
due-add s t c h = let a = c.started in let b = c.aligned in omega (arith, a, b, h)
