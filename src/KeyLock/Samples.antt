-- ===== src/KeyLock/Samples.antt =====
-- Two goroutines with the locks of common/keylock.
use soelib.Common.{ℕ, [], ◌∷◌, nat_eq, ◌≡◌, ◌≢◌, refl, arith}
use soelib.KeyLock.Locks.{waiting, holding, lock_first, lock_second, acquire}
use soelib.KeyLock.Threads.{System, At, move, locks, looks_again, acquires, Reach, here, next}
use soelib.KeyLock.Exclusion.{start, holding-excludes}

-- Goroutine 0 makes the lock of key 5 and takes it; goroutine 1 waits for it.
abbrev t1 : System ℕ
t1 = move (start 2) 0 (lock_first (start {K = ℕ} 2).store 5)

abbrev t2 : System ℕ
t2 = move t1 0 (lock_second t1.store 5)

abbrev t3 : System ℕ
t3 = move t2 0 (acquire t2.store 0, holding 5 0)

abbrev t4 : System ℕ
t4 = move t3 1 (lock_first t3.store 5)

t4-Reach : Reach (start 2) t4
unfolding lock_first lock_second
t4-Reach =
    next
      (next (next (next here (locks 0 5 refl)) (looks_again 0 5 refl)) (acquires 0 5 0 refl refl))
      (locks 1 5 refl)

t4-threads : t4.threads ≡ holding 5 0 ∷ waiting 5 0 ∷ []
unfolding lock_first lock_second
t4-threads = refl

t4-holding : At t4 0 (holding 5 0)
unfolding lock_first lock_second
t4-holding = refl

zero-one : ◌≢◌ {A = ℕ} 0 1
zero-one e = omega (arith, e)

holding-excludes_example : ¬ (At t4 1 (holding 5 0))
holding-excludes_example = holding-excludes 2 0 1 5 0 0 t4-Reach zero-one t4-holding
