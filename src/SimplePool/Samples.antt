-- ===== src/SimplePool/Samples.antt =====
-- A pool of tools/pool for two tasks at once that is made with a wait group of one, and one made not
-- to wait.
use soelib.Common.{ℕ, ◌≤◌, true, ◌≡◌, ◌↔◌, refl}
use soelib.Common.Int.{pos}
use soelib.SimplePool.Tasks.{
  SimplePool, new_simple_pool, submit, wait_returns, Reached, made_new, submitted,
}
use soelib.SimplePool.Bound.{running-le}

abbrev busy_pool : ℕ → SimplePool
busy_pool counter = record {
  pool_size = 2;
  tokens = 1;
  counter = counter;
  running = 1;
  leaving = 0;
}

waited : Reached (pos 2) (pos 1) 0 (busy_pool 1)
unfolding new_simple_pool submit
waited = submitted (made_new refl) refl

unwaited : Reached (pos 2) (pos 0) 0 (busy_pool 0)
unfolding new_simple_pool submit
unwaited = submitted (made_new refl) refl

running-le_example : (1 ≤ 2) × ((wait_returns (busy_pool 1) ≡ true) ↔ (◌≡◌ {A = ℕ} 0 1))
running-le_example = running-le (pos 2) (pos 1) waited
