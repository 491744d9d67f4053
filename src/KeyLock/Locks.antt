-- ===== src/KeyLock/Locks.antt =====
-- The critical sections of common/keylock/keylock.go, each one step. An inner lock is its address;
-- `counts` and `held` are the counter and the mutex at an address, and `next` is the first address
-- that is not in use.
use soelib.Common.{
  ℕ, ◌+◌, ◌-◌, List, [], ◌∷◌, Option, none, some, Bool, true, false, if◌then◌else◌, ◌==◌, Eq,
}

pub record Mapping (K : Type 0) : Type 0 where
  pub key : K
  pub lock : ℕ

pub record KeyLock (K : Type 0) : Type 0 where
  pub locks : List (Mapping K)
  pub counts : ℕ → ℕ
  pub held : ℕ → Bool
  pub next : ℕ

abbrev pub update {ℓ} : {A : Type ℓ} → (ℕ → A) → ℕ → A → ℕ → A
update f i v j = if j == i then v else f j

-- Where a goroutine is: outside, after the first look in vain, before the mutex, between `Lock` and
-- `Unlock`, and before it releases the mutex.
pub data Local (K : Type 0) : Type 0 where
  idle : Local K
  missed : K → Local K
  waiting holding : K → ℕ → Local K
  leaving : ℕ → Local K

abbrev pub no_locks : {K : Type 0} → KeyLock K
no_locks = record { locks = []; counts = λ i. 0; held = λ i. false; next = 0 }

abbrev pub add : {K : Type 0} → KeyLock K → ℕ → KeyLock K
add s i = record s { counts = update s.counts i (s.counts i + 1) }

-- A goroutine that calls it has added to the counter before, so that this does not stop at 0.
abbrev pub done : {K : Type 0} → KeyLock K → ℕ → KeyLock K
done s i = record s { counts = update s.counts i (s.counts i - 1) }

-- `newInnerLock`.
abbrev pub create : {K : Type 0} → KeyLock K → K → KeyLock K
create s k = record s {
  locks = record { key = k; lock = s.next } ∷ s.locks;
  counts = update s.counts s.next 0;
  held = update s.held s.next false;
  next = s.next + 1;
}

abbrev pub keep_used : {K : Type 0} → (ℕ → ℕ) → List (Mapping K) → List (Mapping K)
keep_used counts [] = []
keep_used counts (m ∷ ms) =
    let rest = keep_used counts ms in if counts m.lock == 0 then rest else m ∷ rest

unfoldable pub clean : {K : Type 0} → KeyLock K → KeyLock K
clean s = record s { locks = keep_used s.counts s.locks }

-- The mutex of an inner lock.
abbrev pub acquire : {K : Type 0} → KeyLock K → ℕ → KeyLock K
acquire s i = record s { held = update s.held i true }

abbrev pub release : {K : Type 0} → KeyLock K → ℕ → KeyLock K
release s i = record s { held = update s.held i false }

module _ {K : Type 0} ⦃eq : Eq K⦄ where
  abbrev pub find : K → List (Mapping K) → Option ℕ
  find k [] = none
  find k (m ∷ ms) = let rest = find k ms in if eq.beq k m.key then some m.lock else rest

  abbrev pub first_look : KeyLock K → K → Option ℕ → KeyLock K × Local K
  first_look s k (some i) = (add s i, waiting k i)
  first_look s k none = (s, missed k)

  -- `Lock` under the read lock.
  unfoldable pub lock_first : KeyLock K → K → KeyLock K × Local K
  lock_first s k = first_look s k (find k s.locks)

  abbrev pub second_look : KeyLock K → K → Option ℕ → KeyLock K × Local K
  second_look s k (some i) = (add s i, waiting k i)
  second_look s k none = (add (create s k) s.next, waiting k s.next)

  -- `Lock` under the write lock, if the first look was in vain.
  unfoldable pub lock_second : KeyLock K → K → KeyLock K × Local K
  lock_second s k = second_look s k (find k s.locks)

  abbrev pub unlock_look : KeyLock K → Option ℕ → KeyLock K × Local K
  unlock_look s (some i) = (done s i, leaving i)
  unlock_look s none = (s, idle)

  -- `Unlock` under the read lock.
  unfoldable pub unlock_first : KeyLock K → K → KeyLock K × Local K
  unlock_first s k = unlock_look s (find k s.locks)
