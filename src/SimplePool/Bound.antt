-- ===== src/SimplePool/Bound.antt =====
-- How many tasks of tools/pool run at once, when `Wait` returns, and when counting down panics.
use soelib.Common.{
  ℕ, suc, ◌+◌, ◌≤◌, ◌<◌, true, none, some, ltb, ltb→lt, ◌==◌, ==_iff, Bool-cases, ◌≡◌, ◌↔◌, refl,
  inl, inr, arith,
}
use mathlib.Core.Path.{subst}
use mathlib.Core.Option.{none-ne-some, some-ne-none, some-injective}
use soelib.Common.Int.{ℤ, pos, negsuc}
use soelib.SimplePool.Tasks.{
  SimplePool, new_simple_pool, submit, task_done, take_token, wait_returns, Reached, made_new,
  submitted, done, released,
}

abbrev pub natural : ℤ → ℕ
natural (pos n) = n
natural (negsuc n) = 0

-- Each task that runs or leaves holds a token, and the counter is what is left to wait for.
abbrev pub Counts : ℤ → ℤ → ℕ → SimplePool → Type 0
Counts pool_size wg_size n p =
    (p.tokens ≡ p.running + p.leaving)
    × (p.tokens ≤ p.pool_size)
    × (p.pool_size ≡ natural pool_size)
    × (n + p.counter ≡ natural wg_size)

new-Counts :
    (pool_size wg_size : ℤ) (p : SimplePool)
    → new_simple_pool pool_size wg_size ≡ some p
    → Counts pool_size wg_size 0 p
unfolding new_simple_pool
new-Counts (negsuc n) wg_size p h = absurd (none-ne-some p h)
new-Counts (pos n) (pos m) p h =
    subst (Counts (pos n) (pos m) 0) (some-injective _ _ h)
      (omega arith, omega arith, refl, omega arith)
new-Counts (pos n) (negsuc m) p h =
    subst (Counts (pos n) (negsuc m) 0) (some-injective _ _ h)
      (omega arith, omega arith, refl, omega arith)

module _ (pool_size wg_size : ℤ) where
  submit-Counts :
      (n : ℕ) (p q : SimplePool)
      → Counts pool_size wg_size n p
      → submit p ≡ some q
      → Counts pool_size wg_size n q
  unfolding submit
  submit-Counts n p q c h = elim (Bool-cases (ltb p.tokens p.pool_size)) [
    | inr e ↦ absurd (none-ne-some q (rw (e, submit) at h))
    | inl e ↦
        let free = ltb→lt p.tokens p.pool_size e in
        subst (Counts pool_size wg_size n) (some-injective _ _ (rw (e, submit) at h))
          (omega (arith, c.0), omega (arith, free), c.2, c.3)
  ]

  task_done-Counts :
      (n : ℕ) (p q : SimplePool)
      → Counts pool_size wg_size n p
      → 0 < p.running
      → task_done p ≡ some q
      → Counts pool_size wg_size (suc n) q
  unfolding task_done
  task_done-Counts n p q c runs h = elim (Bool-cases (p.counter == 0)) [
    | inl e ↦ absurd (none-ne-some q (rw (e, task_done) at h))
    | inr e ↦
        let left : 0 < p.counter = ground (arith, e) in
        subst (Counts pool_size wg_size (suc n)) (some-injective _ _ (rw (e, task_done) at h))
          (omega (arith, c.0, runs), c.1, c.2, omega (arith, c.3, left))
  ]

  Reached-Counts :
      {n : ℕ} {p : SimplePool} → Reached pool_size wg_size n p → Counts pool_size wg_size n p
  unfolding take_token
  Reached-Counts (made_new {p} h) = new-Counts pool_size wg_size p h
  Reached-Counts (submitted {n} {p} {q} r h) = submit-Counts n p q (Reached-Counts r) h
  Reached-Counts (done {n} {p} {q} r runs h) = task_done-Counts n p q (Reached-Counts r) runs h
  Reached-Counts (released {n} {p} r leaves) =
      let c = Reached-Counts r in (omega (arith, c.0, leaves), omega (arith, c.1), c.2, c.3)

  -- At most as many tasks run at once as the pool is large, and `Wait` returns exactly if as many
  -- tasks have ended as the wait group was made for.
  pub running-le :
      {n : ℕ} {p : SimplePool}
      → Reached pool_size wg_size n p
      → (p.running ≤ natural pool_size) × ((wait_returns p ≡ true) ↔ (n ≡ natural wg_size))
  unfolding wait_returns
  running-le {n} {p} r =
      let c = Reached-Counts r in
      (
        omega (arith, c.0, c.1, c.2),
        (
          λ e. omega (arith, c.3, (==_iff p.counter 0).0 e),
          λ e. (==_iff p.counter 0).1 (omega (arith, c.3, e)),
        ),
      )

  -- The end of a task is a panic exactly if as many tasks have ended before it as the wait group was
  -- made for: for a pool that is made with a size of zero, so as not to wait, it is the first one.
  pub task_done-panics_iff :
      {n : ℕ} {p : SimplePool}
      → Reached pool_size wg_size n p
      → (task_done p ≡ none) ↔ (n ≡ natural wg_size)
  unfolding task_done
  task_done-panics_iff {n} {p} r =
      let c = Reached-Counts r in
      elim (Bool-cases (p.counter == 0)) [
        | inl e ↦ rw (e, task_done) (λ _. omega (arith, c.3, (==_iff p.counter 0).0 e), λ _. refl)
        | inr e ↦
            let left : 0 < p.counter = ground (arith, e) in
            rw (e, task_done)
              (λ h. absurd (some-ne-none _ h), λ h. absurd (omega (arith, c.3, h, left)))
      ]
