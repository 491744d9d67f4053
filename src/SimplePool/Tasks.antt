-- ===== src/SimplePool/Tasks.antt =====
-- `SimplePool` of tools/pool/simple_pool.go: the tokens in its channel, its wait group, and the
-- goroutines of its tasks. A goroutine runs its task, then counts down the wait group, then takes a
-- token out of the channel.
use soelib.Common.{◌≡◌, ◌<◌, ℕ, suc, ◌-◌, Bool, Option, none, some, ltb, if◌then◌else◌, ◌==◌}
use soelib.Common.Int.{ℤ, pos, negsuc}

pub record SimplePool : Type 0 where
  pub pool_size : ℕ
  pub tokens : ℕ
  pub counter : ℕ
  pub running : ℕ
  pub leaving : ℕ

-- `wg.Add` only if the size is positive; a negative size of the channel is a panic of `make`.
unfoldable pub new_simple_pool : ℤ → ℤ → Option SimplePool
new_simple_pool (negsuc n) wg_size = none
new_simple_pool (pos n) wg_size = some (record {
  pool_size = n;
  tokens = 0;
  counter = elim wg_size [ pos m ↦ m | negsuc m ↦ 0 ];
  running = 0;
  leaving = 0;
})

-- `Submit`: none while it is blocked, since the channel is full (always, if it has no buffer).
unfoldable pub submit : SimplePool → Option SimplePool
submit p =
    if ltb p.tokens p.pool_size
    then some (record p { tokens = suc p.tokens; running = suc p.running })
    else none

-- `wg.Done()` of a task that has ended: none is the panic of a negative counter, which ends the
-- program.
unfoldable pub task_done : SimplePool → Option SimplePool
task_done p =
    if p.counter == 0
    then none
    else some
        (record p { counter = p.counter - 1; running = p.running - 1; leaving = suc p.leaving })

-- `<-p.ch`
unfoldable pub take_token : SimplePool → SimplePool
take_token p = record p { tokens = p.tokens - 1; leaving = p.leaving - 1 }

-- `Wait` returns.
unfoldable pub wait_returns : SimplePool → Bool
wait_returns p = p.counter == 0

-- The pools that a new one comes to, by the number of tasks that have ended.
pub data Reached (pool_size wg_size : ℤ) : ℕ → SimplePool → Type 0 where
  made_new :
      {p : SimplePool} → new_simple_pool pool_size wg_size ≡ some p → Reached pool_size wg_size 0 p
  submitted :
      {n : ℕ} {p q : SimplePool}
      → Reached pool_size wg_size n p
      → submit p ≡ some q
      → Reached pool_size wg_size n q
  done :
      {n : ℕ} {p q : SimplePool}
      → Reached pool_size wg_size n p
      → 0 < p.running
      → task_done p ≡ some q
      → Reached pool_size wg_size (suc n) q
  released :
      {n : ℕ} {p : SimplePool}
      → Reached pool_size wg_size n p
      → 0 < p.leaving
      → Reached pool_size wg_size n (take_token p)
