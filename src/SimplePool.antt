-- ===== src/SimplePool.antt =====
-- tools/pool: a pool of goroutines with a bound on those that run and a counter to wait for.
mod Tasks
mod Bound
mod Samples
