-- ===== src/Lucslot/Events.antt =====
-- Any sequence of seconds and calls of `AddTask` on the wheel of tools/lucslot.
use mathlib.Core.List.Memᴰ
use soelib.Common.{
  ℕ, suc, ◌+◌, ◌<◌, List, [], ◌∷◌, map, Memᴰ, Bool, false, ◌&&◌, ◌==◌, Eq, ==_iff, Bool-cases,
  Memᴰ-select, inl, inr, ◌≡◌, refl, sym, ap, ◌∙◌, arith,
}
use soelib.Lucslot.Wheel.{
  ArchetypeSlots, Added, added, refused, panicked, tick, has_key, load, add_task, second,
}
use soelib.Lucslot.Agenda.{IsCalibrated, Plan, plan, agenda, cur_index-lt, due-other}
use soelib.Lucslot.Seconds.{done_at, due_at, due_later, second-after, second-agenda}
use soelib.Lucslot.Adding.{slot_of, placed_at, add_task-cases, add_task-agenda}

pub data Event (K : Type 0) : Type 0 where
  passes : Event K
  adds : (t : ℕ) (key : K) (exec : ℕ) (unique : Bool) → Event K

abbrev pub seconds : {K : Type 0} → List (Event K) → ℕ
seconds [] = 0
seconds (passes ∷ es) = suc (seconds es)
seconds (adds _ _ _ _ ∷ es) = seconds es

-- A wheel on which no closure waits.
pub record IsReady {K : Type 0} (s : ArchetypeSlots K) : Type 0 where
  pub calibrated : IsCalibrated s
  pub idle : s.submitted ≡ []

pub record Planned {K : Type 0} (s : ArchetypeSlots K) (p : Plan K) : Type 0 where
  pub slot : ℕ
  pub in_range : slot < 3600
  pub listed : Memᴰ p (agenda s slot)

moved :
    {K : Type 0} {p : Plan K} (f : ℕ → List (Plan K)) {i j : ℕ}
    → i ≡ j
    → Memᴰ p (f i)
    → Memᴰ p (f j)
moved f e m = rw (sym e) m

module _ {K : Type 0} ⦃eq : Eq K⦄ where
  -- A refused call leaves the wheel as it is.
  abbrev pub wheel_of : ArchetypeSlots K → Added K → ArchetypeSlots K
  wheel_of s (added s') = s'
  wheel_of s (refused e) = s
  wheel_of s panicked = s

  unfoldable pub happens : ArchetypeSlots K → Event K → ArchetypeSlots K
  happens s passes = (second s).0
  happens s (adds t key exec unique) = wheel_of s (add_task s t key exec unique)

  unfoldable pub run_events : ArchetypeSlots K → List (Event K) → ArchetypeSlots K
  run_events s [] = s
  run_events s (e ∷ es) = run_events (happens s e) es

  -- The wheel is ready, and the plan is on it.
  pub record IsKept (s : ArchetypeSlots K) (p : Plan K) : Type 0 where
    pub ready : IsReady s
    pub planned : Planned s p

  second-now : (s : ArchetypeSlots K) → s.submitted ≡ [] → (second s).0.now ≡ s.now + 1
  unfolding tick
  second-now s idle = rw (second-after s idle) refl

  second-IsKept :
      (s : ArchetypeSlots K) (p : Plan K)
      → IsReady s
      → Planned s p
      → s.now + 1 < p.at
      → IsKept (second s).0 p
  second-IsKept s p r q later =
      let (started, kept, cal, idle) = second-agenda s q.slot r.calibrated r.idle q.in_range in
      record {
        ready = record { calibrated = cal; idle = idle };
        planned = record {
          slot = q.slot;
          in_range = q.in_range;
          listed =
              rw kept
                (Memᴰ-select (due_later (s.now + 1)) (agenda s q.slot) q.listed (ground arith));
        };
      }

  add_task-IsKept :
      (s : ArchetypeSlots K) (p : Plan K) (t : ℕ) (key : K) (exec : ℕ) (unique : Bool)
      → IsReady s
      → Planned s p
      → IsKept (wheel_of s (add_task s t key exec unique)) p
  add_task-IsKept s p t key exec unique r q =
      elim (add_task-cases s t key exec unique r.calibrated) [
        | inl kept ↦ rw kept.1 (record { ready = r; planned = q })
        | inr (later, fresh, free) ↦
            let (taken, here, there, cal) =
              add_task-agenda s t key exec unique r.calibrated later fresh free in
            rw taken (record {
              ready = record { calibrated = cal; idle = r.idle };
              planned = record {
                slot = q.slot;
                in_range = q.in_range;
                listed = elim (Bool-cases (q.slot == slot_of s t)) [
                  | inl same ↦
                      let to = (==_iff q.slot (slot_of s t)).0 same in
                      moved (agenda (placed_at s t key exec unique)) (sym to)
                        (rw here (Memᴰ.tail (moved (agenda s) to q.listed)))
                  | inr other ↦ rw (there q.slot other) q.listed
                ];
              };
            })
      ]

  add_task-now :
      (s : ArchetypeSlots K) (t : ℕ) (key : K) (exec : ℕ) (unique : Bool)
      → IsReady s
      → (wheel_of s (add_task s t key exec unique)).now ≡ s.now
  add_task-now s t key exec unique r = elim (add_task-cases s t key exec unique r.calibrated) [
    | inl kept ↦ rw kept.1 refl
    | inr (later, fresh, free) ↦
        rw ((add_task-agenda s t key exec unique r.calibrated later fresh free).0) refl
  ]

  -- A plan for later stays on the wheel, whatever happens before its time.
  pub run_events-IsKept :
      (es : List (Event K)) (s : ArchetypeSlots K) (p : Plan K)
      → IsReady s
      → Planned s p
      → s.now + seconds es < p.at
      → IsKept (run_events s es) p × ((run_events s es).now ≡ s.now + seconds es)
  unfolding run_events happens
  run_events-IsKept [] s p r q later = (record { ready = r; planned = q }, omega arith)
  run_events-IsKept (passes ∷ es) s p r q later =
      let step = second-IsKept s p r q (omega arith) in
      let now = second-now s r.idle in
      let (k, n) =
        run_events-IsKept es (second s).0 p step.ready step.planned (omega (arith, now)) in
      (record { ready = k.ready; planned = k.planned }, omega (arith, n, now))
  run_events-IsKept (adds t key exec unique ∷ es) s p r q later =
      let step = add_task-IsKept s p t key exec unique r q in
      let now = add_task-now s t key exec unique r in
      let (k, n) =
        run_events-IsKept es (wheel_of s (add_task s t key exec unique)) p step.ready step.planned
          (omega (arith, now)) in
      (record { ready = k.ready; planned = k.planned }, omega (arith, n, now))

  elsewhere :
      (s : ArchetypeSlots K) (p : Plan K) (i : ℕ)
      → s.cur_index < 3600
      → i < 3600
      → (i == s.cur_index) ≡ false
      → Memᴰ p (agenda s i)
      → (p.at == s.now + 1) ≡ false
  elsewhere s p i small h ne m =
      let (e, within, same) = Memᴰ.of_map (plan s i) (s.slots i) m in
      ap (λ (x : Plan K). x.at == s.now + 1) (sym same) ∙ due-other s i e.task.turn_num small h ne

  at_cur :
      (s : ArchetypeSlots K) (p : Plan K)
      → s.cur_index < 3600
      → Planned s p
      → p.at ≡ s.now + 1
      → Memᴰ p (agenda s s.cur_index)
  at_cur s p small q now = elim (Bool-cases (q.slot == s.cur_index)) [
    | inl same ↦ moved (agenda s) ((==_iff q.slot s.cur_index).0 same) q.listed
    | inr other ↦ absurd (ground (arith, now, elsewhere s p q.slot small q.in_range other q.listed))
  ]

  -- The second of a plan starts its task.
  pub second-starts :
      (s : ArchetypeSlots K) (p : Plan K)
      → IsReady s
      → Planned s p
      → p.at ≡ s.now + 1
      → Memᴰ p (map (done_at p.at) (second s).1)
  second-starts s p r q now =
      let small = cur_index-lt s r.calibrated in
      let started = (second-agenda s 0 r.calibrated r.idle (omega arith)).0 in
      moved (λ (u : ℕ). map (done_at u) (second s).1) (sym now)
        (rw started (
          Memᴰ-select (due_at (s.now + 1)) (agenda s s.cur_index) (at_cur s p small q now)
            (ground (arith, now))))

  -- A task that a ready wheel takes for a time is started in the second of that time, whatever
  -- seconds and calls of `AddTask` there are in between.
  pub add_task-on_time :
      (s : ArchetypeSlots K) (t : ℕ) (key : K) (exec : ℕ) (unique : Bool) (es : List (Event K))
      → IsReady s
      → s.now < t
      → has_key key (s.slots (slot_of s t)) ≡ false
      → (unique && load key s.glob_all_keys) ≡ false
      → s.now + seconds es + 1 ≡ t
      → Memᴰ
          (record { key = key; exec = exec; at = t })
          (map (done_at t) (second (run_events s (adds t key exec unique ∷ es))).1)
  unfolding run_events happens
  add_task-on_time s t key exec unique es r later fresh free time =
      let p : Plan K = record { key = key; exec = exec; at = t } in
      let (taken, here, there, cal) =
        add_task-agenda s t key exec unique r.calibrated later fresh free in
      let start = placed_at s t key exec unique in
      let (k, n) =
        run_events-IsKept es start p (record { calibrated = cal; idle = r.idle })
          (record { slot = slot_of s t; in_range = omega arith; listed = rw here (Memᴰ.head refl) })
          (omega (arith, time)) in
      let goal_time : t ≡ (run_events start es).now + 1 = omega (arith, n, time) in
      rw taken (second-starts (run_events start es) p k.ready k.planned goal_time)
