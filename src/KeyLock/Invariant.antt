-- ===== src/KeyLock/Invariant.antt =====
-- What holds of common/keylock in every state that its goroutines can reach.
use soelib.Common.{
  ℕ, ◌+◌, ◌<◌, List, [], ◌∷◌, none, some, true, false, All, All-set, Eq, Bool-cases, Option-cases,
  inl, inr, ◌≡◌, refl, sym, ap, ◌∙◌, arith,
}
use soelib.KeyLock.Locks.{
  Mapping, KeyLock, Local, idle, missed, waiting, holding, leaving, find, lock_first, add, create,
  acquire, release,
}
use soelib.KeyLock.Threads.{System, At, move}
use soelib.KeyLock.Counting.{
  some-value, total, total-set, total-get, All-get, All-map, digit, user, owner,
}

-- A lock that is in use is below the first free address.
abbrev pub Below : {K : Type 0} → ℕ → Local K → Type 0
Below n (waiting k l) = l < n
Below n (holding k l) = l < n
Below n (leaving l) = l < n
Below n _ = Unit

Below-suc : {K : Type 0} (n : ℕ) (b : Local K) → Below n b → Below (n + 1) b
Below-suc n idle h = tt
Below-suc n (missed k) h = tt
Below-suc n (waiting k l) h = omega arith
Below-suc n (holding k l) h = omega arith
Below-suc n (leaving l) h = omega arith

module _ {K : Type 0} ⦃eq : Eq K⦄ where
  -- A goroutine between its additions to the counter has the lock that its key has in the map.
  abbrev pub Mapped : KeyLock K → Local K → Type 0
  Mapped s (waiting k l) = find k s.locks ≡ some l
  Mapped s (holding k l) = find k s.locks ≡ some l
  Mapped s _ = Unit

  pub record IsSound (s : System K) : Type 0 where
    pub mapped : All (Mapped s.store) s.threads
    pub below : All (Below s.store.next) s.threads
    pub listed : All (λ m. m.lock < s.store.next) s.store.locks
    pub counted : (l : ℕ) → s.store.counts l ≡ total (user l) s.threads
    pub owned : (l : ℕ) → digit (s.store.held l) ≡ total (owner l) s.threads

  -- A move of a goroutine from `a` to `v` is sound if it is balanced.
  pub move-IsSound :
      (s : System K) (i : ℕ) (a v : Local K) (t : KeyLock K)
      → IsSound s
      → At s i a
      → ((b : Local K) → Mapped s.store b → Mapped t b)
      → Mapped t v
      → ((b : Local K) → Below s.store.next b → Below t.next b)
      → Below t.next v
      → All (λ m. m.lock < t.next) t.locks
      → ((l : ℕ) → t.counts l + user l a ≡ s.store.counts l + user l v)
      → ((l : ℕ) → digit (t.held l) + owner l a ≡ digit (s.store.held l) + owner l v)
      → IsSound (move s i (t, v))
  move-IsSound s i a v t h at maps map_v belows below_v list count own = record {
    mapped = All-set (Mapped t) s.threads i v map_v (All-map maps s.threads h.mapped);
    below = All-set (Below t.next) s.threads i v below_v (All-map belows s.threads h.below);
    listed = list;
    counted = λ l. omega (arith, count l, h.counted l, total-set (user l) s.threads i a v at);
    owned = λ l. omega (arith, own l, h.owned l, total-set (owner l) s.threads i a v at);
  }

  find-below :
      (k : K) (l n : ℕ) (ms : List (Mapping K))
      → All (λ m. m.lock < n) ms
      → find k ms ≡ some l
      → l < n
  find-below k l n [] h e = absurd (ground arith)
  find-below k l n (m ∷ ms) h e = elim (Bool-cases (eq.beq k m.key)) [
    | inl same ↦ let e' : some m.lock ≡ some l = rw same at e in omega (arith, h.0, some-value e')
    | inr other ↦ find-below k l n ms h.1 (rw other at e)
  ]

  -- A goroutine that is outside adds to the counter of the lock of its key.
  pub joins-IsSound :
      (s : System K) (i : ℕ) (k : K) (l : ℕ) (a : Local K)
      → IsSound s
      → At s i a
      → ((j : ℕ) → user j a ≡ 0)
      → ((j : ℕ) → owner j a ≡ 0)
      → find k s.store.locks ≡ some l
      → IsSound (move s i (add s.store l, waiting k l))
  joins-IsSound s i k l a h at out free e =
      move-IsSound s i a (waiting k l) (add s.store l) h at (λ b m. m) e (λ b m. m)
        (find-below k l s.store.next s.store.locks h.listed e) h.listed (λ j. ground (arith, out j))
        (λ j. omega (arith, free j))

  misses-IsSound :
      (s : System K) (i : ℕ) (k : K)
      → IsSound s
      → At s i idle
      → IsSound (move s i (s.store, missed k))
  misses-IsSound s i k h at =
      move-IsSound s i idle (missed k) s.store h at (λ b m. m) tt (λ b m. m) tt h.listed (λ j. refl)
        (λ j. refl)

  pub lock_first-IsSound :
      (s : System K) (i : ℕ) (k : K)
      → IsSound s
      → At s i idle
      → IsSound (move s i (lock_first s.store k))
  unfolding lock_first
  lock_first-IsSound s i k h at = elim (Option-cases (find k s.store.locks)) [
    | inl missing ↦ rw missing (misses-IsSound s i k h at)
    | inr found ↦ rw found.1 (joins-IsSound s i k found.0 idle h at (λ j. refl) (λ j. refl) found.1)
  ]

  none-above :
      (f : Local K → ℕ) (n : ℕ) (ls : List (Local K))
      → ((b : Local K) → Below n b → f b ≡ 0)
      → All (Below n) ls
      → total f ls ≡ 0
  none-above f n [] zeros h = refl
  none-above f n (b ∷ ls) zeros h = omega (arith, zeros b h.0, none-above f n ls zeros h.1)

  user-Below : (n : ℕ) (b : Local K) → Below n b → user n b ≡ 0
  user-Below n idle h = refl
  user-Below n (missed k) h = refl
  user-Below n (waiting k l) h = ground arith
  user-Below n (holding k l) h = ground arith
  user-Below n (leaving l) h = refl

  owner-Below : (n : ℕ) (b : Local K) → Below n b → owner n b ≡ 0
  owner-Below n idle h = refl
  owner-Below n (missed k) h = refl
  owner-Below n (waiting k l) h = refl
  owner-Below n (holding k l) h = ground arith
  owner-Below n (leaving l) h = ground arith

  beq_refl : (k : K) → eq.beq k k ≡ true
  beq_refl k = (eq.beq_iff k k).1 refl

  find-create_key :
      (s : KeyLock K) (k j : K) (l : ℕ)
      → find k s.locks ≡ none
      → find j s.locks ≡ some l
      → find j (create s k).locks ≡ some l
  find-create_key s k j l gone m = elim (Bool-cases (eq.beq j k)) [
    | inl same ↦
        let e = (eq.beq_iff j k).0 same in
        let both : none ≡ some l = sym gone ∙ ap (λ (x : K). find x s.locks) (sym e) ∙ m in
        absurd (ground arith)
    | inr other ↦ rw other m
  ]

  -- A new lock does not change what the other keys have.
  find-create :
      (s : KeyLock K) (k : K) (b : Local K)
      → find k s.locks ≡ none
      → Mapped s b
      → Mapped (add (create s k) s.next) b
  find-create s k idle gone m = tt
  find-create s k (missed j) gone m = tt
  find-create s k (waiting j l) gone m = find-create_key s k j l gone m
  find-create s k (holding j l) gone m = find-create_key s k j l gone m
  find-create s k (leaving l) gone m = tt

  pub creates-IsSound :
      (s : System K) (i : ℕ) (k : K)
      → IsSound s
      → At s i (missed k)
      → find k s.store.locks ≡ none
      → IsSound (move s i (add (create s.store k) s.store.next, waiting k s.store.next))
  creates-IsSound s i k h at gone =
      let n = s.store.next in
      let unused : s.store.counts n ≡ 0 =
        h.counted n ∙ none-above (user n) n s.threads (user-Below n) h.below in
      let unheld : digit (s.store.held n) ≡ 0 =
        h.owned n ∙ none-above (owner n) n s.threads (owner-Below n) h.below in
      move-IsSound s i (missed k) (waiting k n) (add (create s.store k) n) h at
        (λ b. find-create s.store k b gone) (rw (beq_refl k) refl) (λ b. Below-suc n b)
        (omega arith) (omega arith, All-map (λ m lt. omega arith) s.store.locks h.listed)
        (λ j. grind (arith, unused)) (λ j. grind (arith, unheld))

  pub acquires-IsSound :
      (s : System K) (i : ℕ) (k : K) (l : ℕ)
      → IsSound s
      → At s i (waiting k l)
      → s.store.held l ≡ false
      → IsSound (move s i (acquire s.store l, holding k l))
  acquires-IsSound s i k l h at free =
      move-IsSound s i (waiting k l) (holding k l) (acquire s.store l) h at (λ b m. m)
        (All-get (Mapped s.store) s.threads i _ h.mapped at) (λ b m. m)
        (All-get (Below s.store.next) s.threads i _ h.below at) h.listed (λ j. refl)
        (λ j. ground (arith, free))

  pub releases-IsSound :
      (s : System K) (i l : ℕ)
      → IsSound s
      → At s i (leaving l)
      → IsSound (move s i (release s.store l, idle))
  releases-IsSound s i l h at =
      move-IsSound s i (leaving l) idle (release s.store l) h at (λ b m. m) tt (λ b m. m) tt
        h.listed (λ j. refl) (λ j. ground (arith, h.owned l, total-get (owner l) s.threads i _ at))
