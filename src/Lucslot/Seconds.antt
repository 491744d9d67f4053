-- ===== src/Lucslot/Seconds.antt =====
-- One second of the wheel of tools/lucslot against the times of its tasks.
use soelib.Common.{
  ℕ, suc, ◌+◌, ◌-◌, ◌<◌, List, [], ◌∷◌, map, Bool, true, false, not, ◌==◌, Eq, ==_iff, Bool-cases,
  select, inl, inr, ◌≡◌, refl, sym, ap, ap₂, ◌∙◌, arith,
}
use soelib.Lucslot.Wheel.{Entry, ArchetypeSlots, tick, set_slot, sweep, run_submitted, second}
use soelib.Lucslot.Agenda.{
  IsCalibrated, Plan, due, plan, agenda, cur_index-lt, tick-IsCalibrated, due-tick_other,
  due-tick_turned, due-now, due-other,
}

-- The tasks of a plan that are due at a time.
abbrev pub due_at : {K : Type 0} → ℕ → Plan K → Bool
due_at t p = p.at == t

abbrev pub due_later : {K : Type 0} → ℕ → Plan K → Bool
due_later t p = not (p.at == t)

-- The tasks that were started in a second, as plans for it.
abbrev pub done_at : {K : Type 0} → ℕ → Entry K → Plan K
done_at t e = record { key = e.key; exec = e.task.exec; at = t }

over-due :
    {K : Type 0} (s : ArchetypeSlots K) (turns : ℕ)
    → s.cur_index < 3600
    → (due s s.cur_index turns == s.now + 1) ≡ (turns == 0)
over-due s turns c = ground (arith, due-now s turns c)

turned-due :
    {K : Type 0} (s : ArchetypeSlots K) (turns : ℕ)
    → s.cur_index < 3600
    → (turns == 0) ≡ false
    → due (tick true s) s.cur_index (turns - 1) ≡ due s s.cur_index turns
turned-due s turns c more =
    let e : suc (turns - 1) ≡ turns = ground arith in
    due-tick_turned true s (turns - 1) c ∙ ap (due s s.cur_index) e

over-time :
    {K : Type 0} (s : ArchetypeSlots K) (turns : ℕ)
    → s.cur_index < 3600
    → (turns == 0) ≡ true
    → due s s.cur_index turns ≡ s.now + 1
over-time s turns c over = ground (arith, due-now s turns c)

module _ {K : Type 0} ⦃eq : Eq K⦄ where
  sweep-kept :
      (s : ArchetypeSlots K) (es : List (Entry K)) (keys : List K)
      → s.cur_index < 3600
      → map (plan (tick true s) s.cur_index) (sweep es keys).kept
        ≡ select (due_later (s.now + 1)) (map (plan s s.cur_index) es)
  unfolding sweep
  sweep-kept s [] keys c = refl
  sweep-kept s (e ∷ es) keys c =
      let turns = e.task.turn_num in
      elim (Bool-cases (turns == 0)) [
        | inl over ↦ rw (over-due s turns c, over) (sweep-kept s es _ c)
        | inr more ↦
            rw (over-due s turns c, more)
              (ap₂
                (λ (t : ℕ) (ps : List (Plan K)).
                  record { key = e.key; exec = e.task.exec; at = t } ∷ ps)
                (turned-due s turns c more) (sweep-kept s es _ c))
      ]

  sweep-started :
      (s : ArchetypeSlots K) (es : List (Entry K)) (keys : List K)
      → s.cur_index < 3600
      → map (done_at (s.now + 1)) (sweep es keys).started
        ≡ select (due_at (s.now + 1)) (map (plan s s.cur_index) es)
  unfolding sweep
  sweep-started s [] keys c = refl
  sweep-started s (e ∷ es) keys c =
      let turns = e.task.turn_num in
      elim (Bool-cases (turns == 0)) [
        | inl over ↦
            rw (over-due s turns c, over)
              (ap₂
                (λ (t : ℕ) (ps : List (Plan K)).
                  record { key = e.key; exec = e.task.exec; at = t } ∷ ps)
                (sym (over-time s turns c over)) (sweep-started s es _ c))
        | inr more ↦ rw (over-due s turns c, more) (sweep-started s es _ c)
      ]

  other-kept :
      (s : ArchetypeSlots K) (i : ℕ) (es : List (Entry K))
      → s.cur_index < 3600
      → i < 3600
      → (i == s.cur_index) ≡ false
      → map (plan (tick true s) i) es ≡ select (due_later (s.now + 1)) (map (plan s i) es)
  other-kept s i [] c h ne = refl
  other-kept s i (e ∷ es) c h ne = rw (due-other s i e.task.turn_num c h ne) (
      ap₂ (λ (t : ℕ) (ps : List (Plan K)). record { key = e.key; exec = e.task.exec; at = t } ∷ ps)
        (due-tick_other true s i e.task.turn_num c h ne) (other-kept s i es c h ne))

  -- The wheel after a second that nothing is waiting to run in.
  abbrev pub after : ArchetypeSlots K → ArchetypeSlots K
  after s =
      let swept = sweep (s.slots s.cur_index) s.glob_all_keys in
      record (tick true s) {
        slots = set_slot s.slots s.cur_index swept.kept;
        glob_all_keys = swept.keys;
        submitted = [];
      }

  pub second-after :
      (s : ArchetypeSlots K)
      → s.submitted ≡ []
      → second s ≡ (after s, (sweep (s.slots s.cur_index) s.glob_all_keys).started)
  unfolding second run_submitted tick
  second-after s none = rw none refl

  pub after-IsCalibrated : (s : ArchetypeSlots K) → IsCalibrated s → IsCalibrated (after s)
  after-IsCalibrated s c =
      let d = tick-IsCalibrated true s c in record { started = d.started; aligned = d.aligned }

  after-agenda_current :
      (s : ArchetypeSlots K)
      → s.cur_index < 3600
      → agenda (after s) s.cur_index ≡ select (due_later (s.now + 1)) (agenda s s.cur_index)
  after-agenda_current s small =
      rw ((==_iff s.cur_index s.cur_index).1 refl)
        (sweep-kept s (s.slots s.cur_index) s.glob_all_keys small)

  after-agenda :
      (s : ArchetypeSlots K) (i : ℕ)
      → IsCalibrated s
      → i < 3600
      → agenda (after s) i ≡ select (due_later (s.now + 1)) (agenda s i)
  after-agenda s i c h =
      let small = cur_index-lt s c in
      elim (Bool-cases (i == s.cur_index)) [
        | inl here ↦ rw ((==_iff i s.cur_index).0 here) (after-agenda_current s small)
        | inr there ↦ rw there (other-kept s i (s.slots i) small h there)
      ]

  -- A second of a calibrated wheel on which no closure waits starts exactly the tasks that are due
  -- in it, and in every slot leaves exactly the tasks that are due later, with their times; the
  -- wheel stays calibrated.
  pub second-agenda :
      (s : ArchetypeSlots K) (i : ℕ)
      → IsCalibrated s
      → s.submitted ≡ []
      → i < 3600
      → (map (done_at (s.now + 1)) (second s).1
          ≡ select (due_at (s.now + 1)) (agenda s s.cur_index))
        × (agenda (second s).0 i ≡ select (due_later (s.now + 1)) (agenda s i))
        × IsCalibrated (second s).0
        × ((second s).0.submitted ≡ [])
  second-agenda s i c none h =
      let small = cur_index-lt s c in
      rw (second-after s none) (
        sweep-started s (s.slots s.cur_index) s.glob_all_keys small,
        after-agenda s i c h,
        after-IsCalibrated s c,
        refl,
      )
