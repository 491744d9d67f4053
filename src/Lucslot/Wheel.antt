-- ===== src/Lucslot/Wheel.antt =====
-- The wheel of tools/lucslot (task.go and slot.go). A time is its number of seconds, in the zone
-- that the code puts all its times in. A task's function with its parameters is a number. A map is
-- an association list, in the order in which the loop over it goes, which Go leaves open.
use soelib.Common.{
  ℕ, ◌+◌, ◌-◌, ◌/◌, ◌%◌, List, [], ◌∷◌, ◌++◌, Bool, true, false, ◌&&◌, ◌||◌, if◌then◌else◌, leb,
  ◌==◌, Eq,
}

pub record Task : Type 0 where
  pub turn_num : ℕ
  pub unique : Bool
  pub exec : ℕ

pub record Entry (K : Type 0) : Type 0 where
  pub key : K
  pub task : Task

-- `submitted` has the slots of the closures that the pool of goroutines has accepted and not run.
pub record ArchetypeSlots (K : Type 0) : Type 0 where
  pub slots : ℕ → List (Entry K)
  pub cur_index : ℕ
  pub glob_all_keys : List K
  pub check_time : ℕ
  pub now : ℕ
  pub submitted : List ℕ

pub data AddError : Type 0 where
  time_error key_in_slot not_unique : AddError

-- What `AddTask` does: it returns nil or an error, or an index out of range panics.
pub data Added (K : Type 0) : Type 0 where
  added : ArchetypeSlots K → Added K
  refused : AddError → Added K
  panicked : Added K

-- What the loop over the tasks of a slot leaves.
pub record Swept (K : Type 0) : Type 0 where
  pub kept : List (Entry K)
  pub started : List (Entry K)
  pub keys : List K

-- `newSlots` at a time.
unfoldable pub new_slots : {K : Type 0} → ℕ → ArchetypeSlots K
new_slots clock = record {
  slots = λ i. [];
  cur_index = 0;
  glob_all_keys = [];
  check_time = clock - clock % 3600;
  now = clock;
  submitted = [];
}

-- The part of `Run` before its loop.
unfoldable pub run : {K : Type 0} → ArchetypeSlots K → ℕ → ArchetypeSlots K
run s clock = record s { cur_index = (clock + 1 - s.check_time) % 3600; now = clock }

-- The body of the loop in `Run`, but for the closure, which is only submitted; `accepted` is the
-- pool's answer.
unfoldable pub tick : {K : Type 0} → Bool → ArchetypeSlots K → ArchetypeSlots K
tick accepted s = record s {
  now = s.now + 1;
  submitted = if accepted then s.submitted ++ s.cur_index ∷ [] else s.submitted;
  cur_index = if s.cur_index == 3599 then 0 else s.cur_index + 1;
  check_time = if s.cur_index == 3599 then s.check_time + 3600 else s.check_time;
}

abbrev pub set_slot : {K : Type 0} → (ℕ → List (Entry K)) → ℕ → List (Entry K) → ℕ → List (Entry K)
set_slot m i tasks j = if j == i then tasks else m j

-- One turn less for a task.
abbrev pub turned : {K : Type 0} → Entry K → Entry K
turned e = record e { task = record e.task { turn_num = e.task.turn_num - 1 } }

module _ {K : Type 0} ⦃eq : Eq K⦄ where
  abbrev pub has_key : K → List (Entry K) → Bool
  has_key k [] = false
  has_key k (e ∷ es) = eq.beq k e.key || has_key k es

  abbrev pub load : K → List K → Bool
  load k [] = false
  load k (j ∷ js) = eq.beq k j || load k js

  -- `sync.Map.Delete`.
  abbrev pub delete : K → List K → List K
  delete k [] = []
  delete k (j ∷ js) = let rest = delete k js in if eq.beq k j then rest else j ∷ rest

  -- The loop of the closure.
  unfoldable pub sweep : List (Entry K) → List K → Swept K
  sweep [] keys = record { kept = []; started = []; keys = keys }
  sweep (e ∷ es) keys =
      let over = e.task.turn_num == 0 in
      let rest = sweep es (if over && e.task.unique then delete e.key keys else keys) in
      if over
      then record rest { started = e ∷ rest.started }
      else record rest { kept = turned e ∷ rest.kept }

  -- The oldest closure runs; the second part has the tasks that it starts.
  abbrev pub sweep_slot : ArchetypeSlots K → List ℕ → ArchetypeSlots K × List (Entry K)
  sweep_slot s [] = (s, [])
  sweep_slot s (i ∷ waiting) =
      let swept = sweep (s.slots i) s.glob_all_keys in
      (
        record s {
          slots = set_slot s.slots i swept.kept;
          glob_all_keys = swept.keys;
          submitted = waiting;
        },
        swept.started,
      )

  unfoldable pub run_submitted : ArchetypeSlots K → ArchetypeSlots K × List (Entry K)
  run_submitted s = sweep_slot s s.submitted

  -- A second of the wheel whose closure is accepted and runs at once.
  unfoldable pub second : ArchetypeSlots K → ArchetypeSlots K × List (Entry K)
  second s = run_submitted (tick true s)

  -- The index of a slot; a negative one is out of range, as Go's `%` keeps the sign.
  abbrev pub with_task : ArchetypeSlots K → ℕ → ℕ → K → ℕ → Bool → Added K
  with_task s ix turn_num key exec unique =
      if has_key key (s.slots ix)
      then refused key_in_slot
      else (if unique && load key s.glob_all_keys
          then refused not_unique
          else added (record s {
            glob_all_keys = if unique then key ∷ s.glob_all_keys else s.glob_all_keys;
            slots = set_slot s.slots ix (
                record {
                  key = key;
                  task = record { turn_num = turn_num; unique = unique; exec = exec };
                }
                ∷ s.slots ix);
          }))

  unfoldable pub add_task : ArchetypeSlots K → ℕ → K → ℕ → Bool → Added K
  add_task s t key exec unique =
      if leb t s.now
      then refused time_error
      else (let turn_num = (t - s.now - 1) / 3600 in
          if leb s.check_time t
          then with_task s ((t - s.check_time) % 3600) turn_num key exec unique
          else (if (s.check_time - t) % 3600 == 0
              then with_task s 0 turn_num key exec unique
              else panicked))
