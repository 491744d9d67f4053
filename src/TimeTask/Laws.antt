-- ===== src/TimeTask/Laws.antt =====
-- What the operations of tools/task do to the jobs of all names.
use soelib.Common.{
  ℕ, ◌∷◌, List, [], Option, none, some, true, false, if◌then◌else◌, Eq, Bool-cases, Option-cases,
  inl, inr, ◌≡◌, ◌↔◌, refl, sym, ap, ◌∙◌,
}
use soelib.TimeTask.Service.{
  TaskJob, Service, Shared, done, deadlock, call, remove_found, lookup, delete, drop_found, put,
  remove_task, add_task, add_task_with_interval, check_task,
}

module _ {K : Type 0} ⦃eq : Eq K⦄ where
  transports : (k j m : K) → eq.beq k j ≡ true → eq.beq m j ≡ eq.beq m k
  transports k j m h = ap (eq.beq m) (sym ((eq.beq_iff k j).0 h))

  lookup-delete :
      (k m : K) (ts : List (TaskJob K))
      → lookup m (delete k ts) ≡ (if eq.beq m k then none else lookup m ts)
  lookup-delete k m [] = elim (Bool-cases (eq.beq m k)) [ inl e ↦ rw e refl | inr e ↦ rw e refl ]
  lookup-delete k m (t ∷ ts) =
      let rest = lookup-delete k m ts in
      elim (Bool-cases (eq.beq k t.name)) [
        | inl gone ↦ elim (Bool-cases (eq.beq m k)) [
          | inl e ↦ rw (gone, e) (rw e at rest)
          | inr e ↦ rw (gone, e, transports k t.name m gone ∙ e) (rw e at rest)
        ]
        | inr kept ↦ elim (Bool-cases (eq.beq m k)) [
          | inl e ↦
              rw (kept, e, ap (λ (x : K). eq.beq x t.name) ((eq.beq_iff m k).0 e) ∙ kept)
                (rw e at rest)
          | inr e ↦
              rw (kept, e)
                (ap (λ (r : Option ℕ). if eq.beq m t.name then some t.job else r) (rw e at rest))
        ]
      ]

  lookup-put :
      (s : Service K) (k m : K) (job : ℕ)
      → lookup m (put s k job).cache ≡ (if eq.beq m k then some job else lookup m s.cache)
  lookup-put s k m job = elim (Bool-cases (eq.beq m k)) [
    | inl e ↦ rw e refl
    | inr e ↦ rw e (let r = lookup-delete k m s.cache in rw e at r)
  ]

  -- Removing a name leaves the other names with their jobs, and that name with none.
  pub lookup-remove_task :
      (s : Service K) (k m : K)
      → lookup m (remove_task s k).cache ≡ (if eq.beq m k then none else lookup m s.cache)
  unfolding remove_task
  lookup-remove_task s k m = elim (Option-cases (lookup k s.cache)) [
    | inl missing ↦ rw missing (elim (Bool-cases (eq.beq m k)) [
      | inl e ↦ rw e (ap (λ (x : K). lookup x s.cache) ((eq.beq_iff m k).0 e) ∙ missing)
      | inr e ↦ rw e refl
    ])
    | inr found ↦ rw found.1 (lookup-delete k m s.cache)
  ]

  -- `AddTaskWithInterval` gives its name the new job, leaves the other names with theirs, and
  -- cancels the job that the name had, if it had one, and no other.
  pub add_task_with_interval-lookup :
      (s : Service K) (k m : K) (job : ℕ)
      → (lookup m (add_task_with_interval s k job).cache
          ≡ (if eq.beq m k then some job else lookup m s.cache))
        × ((add_task_with_interval s k job).canceled
            ≡ elim (lookup k s.cache) [ none ↦ s.canceled | some j ↦ j ∷ s.canceled ])
  unfolding add_task_with_interval
  add_task_with_interval-lookup s k m job = elim (Option-cases (lookup k s.cache)) [
    | inl missing ↦ rw missing (lookup-put s k m job, refl)
    | inr found ↦
        rw found.1 (lookup-put (drop_found s k (some found.0)) k m job ∙ elsewhere s k m job, refl)
  ]
    where
      elsewhere :
          (s : Service K) (k m : K) (job : ℕ)
          → (if eq.beq m k then some job else lookup m (delete k s.cache))
            ≡ (if eq.beq m k then some job else lookup m s.cache)
      elsewhere s k m job = elim (Bool-cases (eq.beq m k)) [
        | inl e ↦ rw e refl
        | inr e ↦ rw e (let r = lookup-delete k m s.cache in rw e at r)
      ]

  abbrev pub held : Shared K → Shared K
  held s = record s { locked = true }

  remove_found-waits :
      (k : K) (s : Shared K)
      → check_task s.service k ≡ true
      → s.locked ≡ true
      → remove_found k s ≡ deadlock s
  unfolding call
  remove_found-waits k s there locked = rw (there, locked) refl

  remove_found-passes :
      (k : K) (s : Shared K) → check_task s.service k ≡ false → remove_found k s ≡ done s
  remove_found-passes k s missing = rw missing refl

  -- `AddTask` with the mutex free never returns exactly if its name has a job already. It then holds the
  -- mutex for good, so that no operation returns after it.
  pub add_task-deadlock_iff :
      (s : Shared K) (k : K) (job : ℕ) (f : Service K → Service K) (m : K) (other : ℕ)
      → s.locked ≡ false
      → ((add_task s k job ≡ deadlock (held s)) ↔ (check_task s.service k ≡ true))
        × (call f (held s) ≡ deadlock (held s))
        × (add_task (held s) m other ≡ deadlock (held s))
  unfolding add_task call
  add_task-deadlock_iff s k job f m other free = (
    (
      λ e. elim (Bool-cases (check_task s.service k)) [
        | inl there ↦ there
        | inr missing ↦ absurd (cc (rw (free, remove_found-passes k (held s) missing) at e))
      ],
      λ there. rw free (rw (remove_found-waits k (held s) there refl) refl),
    ),
    refl,
    refl,
  )
