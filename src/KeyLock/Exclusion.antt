-- ===== src/KeyLock/Exclusion.antt =====
-- Mutual exclusion by the locks of common/keylock, while unused locks are cleaned up.
use soelib.Common.{
  ℕ, zero, suc, ◌≤◌, ◌<◌, List, [], ◌∷◌, some, true, false, ◌==◌, All, All-replicate, replicate, Eq,
  Bool-cases, Option-cases, inl, inr, ◌≡◌, ◌≢◌, refl, sym, ap, ◌∙◌, arith,
}
use soelib.KeyLock.Locks.{
  Mapping, Local, idle, missed, waiting, holding, leaving, no_locks, find, lock_second, done,
  keep_used, unlock_first, clean,
}
use soelib.KeyLock.Threads.{
  System, At, move, Step, locks, looks_again, acquires, unlocks, releases, cleans, Reach, here,
  next,
}
use soelib.KeyLock.Counting.{some-value, total, total-get, total-two, All-get, All-at, user, owner}
use soelib.KeyLock.Invariant.{
  Below, Mapped, IsSound, move-IsSound, joins-IsSound, creates-IsSound, lock_first-IsSound,
  acquires-IsSound, releases-IsSound,
}

module _ {K : Type 0} ⦃eq : Eq K⦄ where
  lock_second-IsSound :
      (s : System K) (i : ℕ) (k : K)
      → IsSound s
      → At s i (missed k)
      → IsSound (move s i (lock_second s.store k))
  unfolding lock_second
  lock_second-IsSound s i k h at = elim (Option-cases (find k s.store.locks)) [
    | inl missing ↦ rw missing (creates-IsSound s i k h at missing)
    | inr found ↦
        rw found.1 (joins-IsSound s i k found.0 (missed k) h at (λ j. refl) (λ j. refl) found.1)
  ]

  unlock_first-IsSound :
      (s : System K) (i : ℕ) (k : K) (l : ℕ)
      → IsSound s
      → At s i (holding k l)
      → IsSound (move s i (unlock_first s.store k))
  unfolding unlock_first
  unlock_first-IsSound s i k l h at =
      let m = All-get (Mapped s.store) s.threads i _ h.mapped at in
      rw m (
        move-IsSound s i (holding k l) (leaving l) (done s.store l) h at (λ b m. m) tt (λ b m. m)
          (All-get (Below s.store.next) s.threads i _ h.below at) h.listed
          (λ j. grind (arith, h.counted l, total-get (user l) s.threads i _ at)) (λ j. refl))

  -- A lock that is counted stays in the map.
  find-keep_used :
      (counts : ℕ → ℕ) (k : K) (l : ℕ) (ms : List (Mapping K))
      → (counts l == 0) ≡ false
      → find k ms ≡ some l
      → find k (keep_used counts ms) ≡ some l
  find-keep_used counts k l [] used e = e
  find-keep_used counts k l (m ∷ ms) used e = elim (Bool-cases (eq.beq k m.key)) [
    | inl same ↦
        let e' : some m.lock ≡ some l = rw same at e in
        let used' : (counts m.lock == 0) ≡ false = ap (λ x. counts x == 0) (some-value e') ∙ used in
        rw used' (rw same e')
    | inr other ↦
        let rest = find-keep_used counts k l ms used (rw other at e) in
        elim (Bool-cases (counts m.lock == 0)) [
          | inl free ↦ rw free rest
          | inr busy ↦ rw busy (rw other rest)
        ]
  ]

  keep_used-listed :
      (counts : ℕ → ℕ) (n : ℕ) (ms : List (Mapping K))
      → All (λ m. m.lock < n) ms
      → All (λ m. m.lock < n) (keep_used counts ms)
  keep_used-listed counts n [] h = tt
  keep_used-listed counts n (m ∷ ms) h =
      let rest = keep_used-listed counts n ms h.1 in
      elim (Bool-cases (counts m.lock == 0)) [
        | inl free ↦ rw free rest
        | inr busy ↦ rw busy (h.0, rest)
      ]

  clean-Mapped :
      (s : System K) (h : IsSound s) (i : ℕ) (b : Local K) → At s i b → Mapped (clean s.store) b
  unfolding clean
  clean-Mapped s h i idle at = tt
  clean-Mapped s h i (missed k) at = tt
  clean-Mapped s h i (waiting k l) at =
      find-keep_used s.store.counts k l s.store.locks
        (ground (arith, h.counted l, total-get (user l) s.threads i _ at))
        (All-get (Mapped s.store) s.threads i _ h.mapped at)
  clean-Mapped s h i (holding k l) at =
      find-keep_used s.store.counts k l s.store.locks
        (ground (arith, h.counted l, total-get (user l) s.threads i _ at))
        (All-get (Mapped s.store) s.threads i _ h.mapped at)
  clean-Mapped s h i (leaving l) at = tt

  clean-IsSound : (s : System K) → IsSound s → IsSound (record s { store = clean s.store })
  unfolding clean
  clean-IsSound s h = record {
    mapped = All-at (Mapped (clean s.store)) s.threads (clean-Mapped s h);
    below = h.below;
    listed = keep_used-listed s.store.counts s.store.next s.store.locks h.listed;
    counted = h.counted;
    owned = h.owned;
  }

  Step-IsSound : {s t : System K} → Step s t → IsSound s → IsSound t
  Step-IsSound {s} (locks i k at) h = lock_first-IsSound s i k h at
  Step-IsSound {s} (looks_again i k at) h = lock_second-IsSound s i k h at
  Step-IsSound {s} (acquires i k l at free) h = acquires-IsSound s i k l h at free
  Step-IsSound {s} (unlocks i k l at) h = unlock_first-IsSound s i k l h at
  Step-IsSound {s} (releases i l at) h = releases-IsSound s i l h at
  Step-IsSound {s} cleans h = clean-IsSound s h

  -- `n` goroutines outside, and no lock.
  abbrev pub start : ℕ → System K
  start n = record { store = no_locks; threads = replicate n idle }

  start-total : (f : Local K → ℕ) (n : ℕ) → f idle ≡ 0 → total f (replicate n idle) ≡ 0
  start-total f zero e = refl
  start-total f (suc n) e = omega (arith, e, start-total f n e)

  start-IsSound : (n : ℕ) → IsSound (start n)
  start-IsSound n = record {
    mapped = All-replicate (Mapped no_locks) n idle tt;
    below = All-replicate (Below 0) n idle tt;
    listed = tt;
    counted = λ l. sym (start-total (user l) n refl);
    owned = λ l. sym (start-total (owner l) n refl);
  }

  pub Reach-IsSound : (n : ℕ) {s : System K} → Reach (start n) s → IsSound s
  Reach-IsSound n here = start-IsSound n
  Reach-IsSound n (next r st) = Step-IsSound st (Reach-IsSound n r)

  -- However many goroutines lock, unlock and clean up in whatever interleaving, no two of them are
  -- between `Lock` and `Unlock` for the same key.
  pub holding-excludes :
      (n : ℕ) {s : System K} (i j : ℕ) (k : K) (l m : ℕ)
      → Reach (start n) s
      → i ≢ j
      → At s i (holding k l)
      → ¬ (At s j (holding k m))
  holding-excludes n {s} i j k l m r ne a b =
      let h = Reach-IsSound n r in
      let same : l ≡ m = some-value (
        sym (All-get (Mapped s.store) s.threads i _ h.mapped a)
        ∙ All-get (Mapped s.store) s.threads j _ h.mapped b) in
      let two = total-two (owner l) s.threads i j _ _ a b ne in ground (arith, two, h.owned l, same)

  -- While a goroutine is between `Lock` and `Unlock`, a cleaning keeps the lock of its key in the
  -- map, with its counter above 0 and its mutex taken.
  pub clean-keeps :
      (n : ℕ) {s : System K} (i : ℕ) (k : K) (l : ℕ)
      → Reach (start n) s
      → At s i (holding k l)
      → (find k (clean s.store).locks ≡ some l)
        × (1 ≤ (clean s.store).counts l)
        × ((clean s.store).held l ≡ true)
  unfolding clean
  clean-keeps n {s} i k l r at =
      let h = Reach-IsSound n r in
      (
        clean-Mapped s h i (holding k l) at,
        ground (arith, h.counted l, total-get (user l) s.threads i _ at),
        ground (arith, h.owned l, total-get (owner l) s.threads i _ at),
      )
