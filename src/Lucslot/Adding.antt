-- ===== src/Lucslot/Adding.antt =====
-- `AddTask` of tools/lucslot against the times of the tasks on the wheel.
use soelib.Common.{
  sym, ap, ◌∙◌, ℕ, ◌-◌, ◌/◌, ◌%◌, ◌≤◌, ◌<◌, ◌∷◌, Bool, true, false, ◌&&◌, if◌then◌else◌, leb, ◌==◌,
  Eq, ==_iff, Bool-cases, inl, inr, ◌≡◌, ◌↔◌, ◌⊎◌, refl, ap, ◌∙◌, arith,
}
use soelib.Lucslot.Wheel.{
  ArchetypeSlots, AddError, time_error, key_in_slot, not_unique, Added, added, refused, panicked,
  set_slot, has_key, load, with_task, add_task,
}
use soelib.Lucslot.Agenda.{Plan, IsCalibrated, agenda, due-add}

module _ {K : Type 0} ⦃eq : Eq K⦄ where
  -- The slot of a time.
  abbrev pub slot_of : ArchetypeSlots K → ℕ → ℕ
  slot_of s t = (t - s.check_time) % 3600

  -- What `AddTask` makes of a calibrated wheel, as its three errors in their order.
  abbrev pub expected : ArchetypeSlots K → ℕ → K → ℕ → Bool → Added K
  expected s t key exec unique =
      if leb t s.now
      then refused time_error
      else with_task s (slot_of s t) ((t - s.now - 1) / 3600) key exec unique

  add_task-expected :
      (s : ArchetypeSlots K) (t : ℕ) (key : K) (exec : ℕ) (unique : Bool)
      → IsCalibrated s
      → add_task s t key exec unique ≡ expected s t key exec unique
  unfolding add_task
  add_task-expected s t key exec unique c = elim (Bool-cases (leb t s.now)) [
    | inl early ↦ rw early refl
    | inr later ↦
        let h = c.started in
        let up : leb s.check_time t ≡ true = ground (arith, h, later) in rw (later, up) refl
  ]

  -- The wheel with a task put in a slot.
  abbrev pub placed : ArchetypeSlots K → ℕ → ℕ → K → ℕ → Bool → ArchetypeSlots K
  placed s ix turn_num key exec unique = record s {
    glob_all_keys = if unique then key ∷ s.glob_all_keys else s.glob_all_keys;
    slots = set_slot s.slots ix (
        record { key = key; task = record { turn_num = turn_num; unique = unique; exec = exec } }
        ∷ s.slots ix);
  }

  abbrev pub placed_at : ArchetypeSlots K → ℕ → K → ℕ → Bool → ArchetypeSlots K
  placed_at s t = placed s (slot_of s t) ((t - s.now - 1) / 3600)

  -- The refusals of a calibrated wheel, none of which is a panic: a time that is not in the future,
  -- a key that the slot of the time already has, and, for a unique task, a key that is in use.
  pub add_task-refused :
      (s : ArchetypeSlots K) (t : ℕ) (key : K) (exec : ℕ) (unique : Bool)
      → IsCalibrated s
      → let result = add_task s t key exec unique in
        let taken = has_key key (s.slots (slot_of s t)) in
        ((result ≡ refused time_error) ↔ (t ≤ s.now))
        × ((result ≡ refused key_in_slot) ↔ ((s.now < t) × (taken ≡ true)))
        × ((result ≡ refused not_unique)
            ↔ ((s.now < t) × (taken ≡ false) × ((unique && load key s.glob_all_keys) ≡ true)))
        × (¬ (result ≡ panicked))
  add_task-refused s t key exec unique c =
      rw (add_task-expected s t key exec unique c) (ground arith)

  -- The plans of the slot of a new task, and those of the other slots.
  pub add_task-agenda :
      (s : ArchetypeSlots K) (t : ℕ) (key : K) (exec : ℕ) (unique : Bool)
      → IsCalibrated s
      → s.now < t
      → has_key key (s.slots (slot_of s t)) ≡ false
      → (unique && load key s.glob_all_keys) ≡ false
      → let s' = placed_at s t key exec unique in
        (add_task s t key exec unique ≡ added s')
        × (agenda s' (slot_of s t)
            ≡ record { key = key; exec = exec; at = t } ∷ agenda s (slot_of s t))
        × ((i : ℕ) → (i == slot_of s t) ≡ false → agenda s' i ≡ agenda s i)
        × IsCalibrated s'
  add_task-agenda s t key exec unique c later fresh free =
      let not_early : leb t s.now ≡ false = ground arith in
      (
        add_task-expected s t key exec unique c ∙ rw (not_early, fresh, free) refl,
        rw ((==_iff (slot_of s t) (slot_of s t)).1 refl) (
            ap (λ (d : ℕ). record { key = key; exec = exec; at = d } ∷ agenda s (slot_of s t))
              (due-add s t c later)),
        λ i other. rw other refl,
        record { started = c.started; aligned = c.aligned },
      )

  pub add_task-cases :
      (s : ArchetypeSlots K) (t : ℕ) (key : K) (exec : ℕ) (unique : Bool)
      → IsCalibrated s
      → ((e : AddError) × (add_task s t key exec unique ≡ refused e))
        ⊎ ((s.now < t)
            × (has_key key (s.slots (slot_of s t)) ≡ false)
            × ((unique && load key s.glob_all_keys) ≡ false))
  add_task-cases s t key exec unique c =
      let eq = add_task-expected s t key exec unique c in
      elim (Bool-cases (leb t s.now)) [
        | inl early ↦ inl (time_error, eq ∙ rw early refl)
        | inr later ↦ elim (Bool-cases (has_key key (s.slots (slot_of s t)))) [
          | inl taken ↦ inl (key_in_slot, eq ∙ rw (later, taken) refl)
          | inr fresh ↦ elim (Bool-cases (unique && load key s.glob_all_keys)) [
            | inl used ↦ inl (not_unique, eq ∙ rw (later, fresh, used) refl)
            | inr free ↦ inr (ground arith, fresh, free)
          ]
        ]
      ]

  -- A task that a calibrated wheel takes is planned for exactly its time; the plans of the other
  -- tasks do not change, in any slot.
  pub add_task-plans :
      (s : ArchetypeSlots K) (t : ℕ) (key : K) (exec : ℕ) (unique : Bool) (i : ℕ)
      → IsCalibrated s
      → s.now < t
      → has_key key (s.slots (slot_of s t)) ≡ false
      → (unique && load key s.glob_all_keys) ≡ false
      → let s' = placed_at s t key exec unique in
        (add_task s t key exec unique ≡ added s')
        × (agenda s' i ≡ (
            if i == slot_of s t
            then record { key = key; exec = exec; at = t } ∷ agenda s i
            else agenda s i))
        × IsCalibrated s'
  add_task-plans s t key exec unique i c later fresh free =
      let (taken, here, there, cal) = add_task-agenda s t key exec unique c later fresh free in
      let p : Plan K = record { key = key; exec = exec; at = t } in
      let branch = λ (b : Bool). if b then p ∷ agenda s i else agenda s i in
      (
        taken,
        elim (Bool-cases (i == slot_of s t)) [
          | inl same ↦
              let e = (==_iff i (slot_of s t)).0 same in
              ap (agenda (placed_at s t key exec unique)) e
              ∙ here
              ∙ ap (λ (x : ℕ). p ∷ agenda s x) (sym e)
              ∙ ap branch (sym same)
          | inr other ↦ there i other ∙ ap branch (sym other)
        ],
        cal,
      )
