-- ===== src/KeyLock/Threads.antt =====
-- Goroutines that use the locks of common/keylock, in any interleaving of their critical sections.
-- A goroutine calls `Unlock` only for a key that it has locked.
use soelib.Common.{ℕ, List, some, false, Eq, get_elem?, set, ◌≡◌}
use soelib.KeyLock.Locks.{
  KeyLock, Local, idle, missed, waiting, holding, leaving, lock_first, lock_second, unlock_first,
  acquire, release, clean,
}

pub record System (K : Type 0) : Type 0 where
  pub store : KeyLock K
  pub threads : List (Local K)

-- Goroutine `i` is at `l`.
abbrev pub At : {K : Type 0} → System K → ℕ → Local K → Type 0
At s i l = get_elem? s.threads i ≡ some l

-- Goroutine `i` moves.
abbrev pub move : {K : Type 0} → System K → ℕ → KeyLock K × Local K → System K
move s i r = record { store = r.0; threads = set s.threads i r.1 }

module _ {K : Type 0} ⦃eq : Eq K⦄ where
  pub data Step (s : System K) : System K → Type 0 where
    locks : (i : ℕ) (k : K) → At s i idle → Step s (move s i (lock_first s.store k))
    looks_again : (i : ℕ) (k : K) → At s i (missed k) → Step s (move s i (lock_second s.store k))
    acquires :
        (i : ℕ) (k : K) (l : ℕ)
        → At s i (waiting k l)
        → s.store.held l ≡ false
        → Step s (move s i (acquire s.store l, holding k l))
    unlocks :
        (i : ℕ) (k : K) (l : ℕ) → At s i (holding k l) → Step s (move s i (unlock_first s.store k))
    releases : (i l : ℕ) → At s i (leaving l) → Step s (move s i (release s.store l, idle))
    cleans : Step s (record s { store = clean s.store })

  pub data Reach (s : System K) : System K → Type 0 where
    here : Reach s s
    next : {t u : System K} → Reach s t → Step t u → Reach s u
