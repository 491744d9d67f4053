-- ===== src/TenantDb/Creating.antt =====
-- Who makes a connection of common/db/tenantdb, and what the cache has meanwhile.
use mathlib.Core.Option.{some-ne-none}
use soelib.Common.{
  ℕ, zero, suc, List, [], ◌∷◌, false, Option, none, some, get_elem?, set, ◌≡◌, ◌≢◌, ◌⊎◌, Bool-cases,
  inl, inr, refl, sym, ap, ◌∙◌, arith,
}
use soelib.Common.Text.{String, text_eq}
use soelib.KeyLock.Locks.{KeyLock, Local, idle, holding, update}
use soelib.KeyLock.Locks as Locks
use soelib.KeyLock.Threads as Threads
use soelib.KeyLock.Threads.{System, At, move}
use soelib.KeyLock.Exclusion.{start, holding-excludes}
use soelib.KeyLock.Counting.{some-value}
use soelib.TenantDb.Cache
use soelib.TenantDb.Cache.{
  Phase, outside, creating, leaving, ended, finished, Store, StoreStep, Service, lock_key, put,
  store_new, go_on, Step, Reach, here, next,
}
use soelib.TenantDb.Removing.{update-cases, put-cases, IsLive, store_new-IsLive, StoreStep-IsLive}

-- `n` goroutines that ask for connections, and an empty cache.
abbrev pub start_store : Store
start_store = record {
  cache = λ t. none;
  tenant_of = λ d. none;
  next = 0;
  closed = λ d. false;
  removals = λ i. finished;
}

abbrev pub start_service : ℕ → Service
start_service n = record { locks = start n; phases = λ i. outside; store = start_store }

get_elem?-set_ne :
    {A : Type 0} (xs : List A) (i j : ℕ) (v : A) → j ≢ i → get_elem? (set xs i v) j ≡ get_elem? xs j
get_elem?-set_ne [] i j v ne = refl
get_elem?-set_ne (x ∷ xs) zero zero v ne = absurd (ne refl)
get_elem?-set_ne (x ∷ xs) zero (suc j) v ne = refl
get_elem?-set_ne (x ∷ xs) (suc i) zero v ne = refl
get_elem?-set_ne (x ∷ xs) (suc i) (suc j) v ne = get_elem?-set_ne xs i j v (λ e. ne (ap suc e))

-- A goroutine in `_getDB` has the lock of its tenant, of which the cache has no connection.
record IsGuarded (n : ℕ) (s : Service) : Type 0 where
  reached : Threads.Reach (start n) s.locks
  guarded :
      (i : ℕ) (t : String)
      → s.phases i ≡ creating t
      → (l : ℕ) × At s.locks i (holding (lock_key t) l)
  empty : (i : ℕ) (t : String) → s.phases i ≡ creating t → s.store.cache t ≡ none
  live : IsLive s.store

go_on-IsGuarded :
    {n : ℕ} (s : Service) (i : ℕ) (p : Phase)
    → IsGuarded n s
    → ((t : String)
        → p ≡ creating t
        → ((l : ℕ) × At s.locks i (holding (lock_key t) l)) × (s.store.cache t ≡ none))
    → IsGuarded n (go_on s i p)
go_on-IsGuarded s i p h at = record {
  reached = h.reached;
  guarded = λ j t e. elim (update-cases s.phases i p j _ e) [
    | inl x ↦ rw x.0 (at t x.1).0
    | inr x ↦ h.guarded j t x.1
  ];
  empty = λ j t e. elim (update-cases s.phases i p j _ e) [
    | inl x ↦ (at t x.1).1
    | inr x ↦ h.empty j t x.1
  ];
  live = h.live;
}

-- A goroutine that is not in `_getDB` moves in `Lock` or `Unlock`.
move-IsGuarded :
    {n : ℕ} (s : Service) (i : ℕ) (r : KeyLock String × Local String)
    → IsGuarded n s
    → Threads.Step s.locks (move s.locks i r)
    → ((t : String) → s.phases i ≢ creating t)
    → IsGuarded n (record s { locks = move s.locks i r })
move-IsGuarded s i r h st no_creator = record {
  reached = Threads.Reach.next h.reached st;
  guarded = λ j t e.
      let g = h.guarded j t e in
      (
        g.0,
        get_elem?-set_ne s.locks.threads i j r.1 (λ q. no_creator t (sym (ap s.phases q) ∙ e))
            ∙ g.1,
      );
  empty = h.empty;
  live = h.live;
}

alone :
    {n : ℕ} (s : Service) (i j : ℕ) (t : String)
    → IsGuarded n s
    → s.phases i ≡ creating t
    → j ≢ i
    → s.phases j ≢ creating t
alone {n} s i j t h e ne f =
    let g = h.guarded i t e in
    let k = h.guarded j t f in holding-excludes n j i (lock_key t) k.0 g.0 h.reached ne k.1 g.1

no_other :
    {n : ℕ} (s : Service) (i j : ℕ) (t u : String)
    → IsGuarded n s
    → s.phases i ≡ creating t
    → (go_on s i (leaving t)).phases j ≡ creating u
    → u ≢ t
no_other s i j t u h e f same = elim (update-cases s.phases i (leaving t) j _ f) [
  | inl x ↦ absurd (cc (x.1))
  | inr x ↦ alone s i j t h e x.0 (x.1 ∙ ap creating same)
]

stores-IsGuarded :
    {n : ℕ} (s : Service) (i : ℕ) (t : String)
    → IsGuarded n s
    → s.phases i ≡ creating t
    → IsGuarded n (record (go_on s i (leaving t)) { store = store_new s.store t })
unfolding store_new
stores-IsGuarded {n} s i t h e =
    let g = go_on-IsGuarded s i (leaving t) h (λ u q. cc) in
    record {
      reached = g.reached;
      guarded = g.guarded;
      empty = λ j u q. elim (put-cases s.store.cache t (some s.store.next) u _ refl) [
        | inl x ↦ absurd (no_other s i j t u h e q x.0)
        | inr x ↦ sym x.1 ∙ g.empty j u q
      ];
      live = store_new-IsLive s.store t h.live;
    }

removed-none : (c : String → Option ℕ) (t k : String) → c t ≡ none → put c k none t ≡ none
removed-none c t k e = elim (put-cases c k none t _ refl) [ inl x ↦ sym x.1 | inr x ↦ sym x.1 ∙ e ]

StoreStep-none : {s u : Store} (t : String) → StoreStep s u → s.cache t ≡ none → u.cache t ≡ none
StoreStep-none t (Cache.ranges i k d r c) e = e
StoreStep-none t (Cache.passes i k d r) e = e
StoreStep-none {s} t (Cache.drops i k d r) e = removed-none s.cache t k e
StoreStep-none t (Cache.closes i k d r) e = e
StoreStep-none t (Cache.spares i k d r) e = e
StoreStep-none t (Cache.loads i k d r c) e = e
StoreStep-none t (Cache.ends i k d r) e = e
StoreStep-none {s} t (Cache.deletes i k d r) e = removed-none s.cache t k e

not_at :
    {n : ℕ} (s : Service) (i : ℕ) (a : Local String)
    → IsGuarded n s
    → At s.locks i a
    → ((k : String) (l : ℕ) → a ≢ holding k l)
    → (t : String) → s.phases i ≢ creating t
not_at s i a h at n t e = let g = h.guarded i t e in n (lock_key t) g.0 (some-value (sym at ∙ g.1))

started :
    (s : Service) (i : ℕ) (t : String) (l : ℕ) (u : String)
    → creating t ≡ creating u
    → At s.locks i (holding (lock_key t) l)
    → s.store.cache t ≡ none
    → ((m : ℕ) × At s.locks i (holding (lock_key u) m)) × (s.store.cache u ≡ none)
started s i t l u q at c =
    let same : t ≡ u = ground (arith, q) in ((l, rw same at at), ap s.store.cache (sym same) ∙ c)

outside-ne : (s : Service) (i : ℕ) (t : String) → (go_on s i outside).phases i ≢ creating t
outside-ne s i t e = elim (update-cases s.phases i outside i _ e) [
  | inl x ↦ absurd (cc (x.1))
  | inr x ↦ x.0 refl
]

Step-IsGuarded : {n : ℕ} {s t : Service} → Step s t → IsGuarded n s → IsGuarded n t
Step-IsGuarded {n} {s} (Cache.misses i t p at c) h = go_on-IsGuarded s i _ h (λ u q. cc)
Step-IsGuarded {n} {s} (Cache.locks_first i t p at) h =
    move-IsGuarded s i _ h (Threads.locks i (lock_key t) at) (not_at s i idle h at (λ k l q. cc))
Step-IsGuarded {n} {s} (Cache.locks_second i t p at) h =
    move-IsGuarded s i _ h (Threads.looks_again i (lock_key t) at)
      (not_at s i (Locks.missed (lock_key t)) h at (λ k l q. cc))
Step-IsGuarded {n} {s} (Cache.acquires i t l p at free) h =
    move-IsGuarded s i _ h (Threads.acquires i (lock_key t) l at free)
      (not_at s i (Locks.waiting (lock_key t) l) h at (λ k m q. cc))
Step-IsGuarded {n} {s} (Cache.finds i t l d p at c) h = go_on-IsGuarded s i _ h (λ u q. cc)
Step-IsGuarded {n} {s} (Cache.starts i t l p at c) h =
    go_on-IsGuarded s i (creating t) h (λ u q. started s i t l u q at c)
Step-IsGuarded {n} {s} (Cache.stores i t p) h = stores-IsGuarded s i t h p
Step-IsGuarded {n} {s} (Cache.fails i t p) h = go_on-IsGuarded s i _ h (λ u q. cc)
Step-IsGuarded {n} {s} (Cache.unlocks i t l p at) h =
    move-IsGuarded (go_on s i outside) i _ (go_on-IsGuarded s i outside h (λ u q. cc))
      (Threads.unlocks i (lock_key t) l at) (outside-ne s i)
Step-IsGuarded {n} {s} (Cache.releases i l at) h =
    move-IsGuarded s i _ h (Threads.releases i l at)
      (not_at s i (Locks.leaving l) h at (λ k m q. cc))
Step-IsGuarded {n} {s} Cache.cleans h = record {
  reached = Threads.Reach.next h.reached Threads.cleans;
  guarded = h.guarded;
  empty = h.empty;
  live = h.live;
}
Step-IsGuarded {n} {s} (Cache.removes st) h = record {
  reached = h.reached;
  guarded = h.guarded;
  empty = λ i t e. StoreStep-none t st (h.empty i t e);
  live = StoreStep-IsLive st h.live;
}

start-IsGuarded : (n : ℕ) → IsGuarded n (start_service n)
start-IsGuarded n = record {
  reached = Threads.Reach.here;
  guarded = λ i t e. absurd (cc e);
  empty = λ i t e. refl;
  live = record {
    new_owner = λ d n. refl;
    new_closed = λ d n. refl;
    owned = λ t d e. absurd (some-ne-none d (sym e));
    targets = λ i t d e. absurd (some-ne-none (t, d) (sym e));
    dropped = λ i t d e. absurd (cc e);
    waits = λ t d e c. absurd (some-ne-none d (sym e));
  };
}

Reach-IsGuarded : (n : ℕ) {s : Service} → Reach (start_service n) s → IsGuarded n s
Reach-IsGuarded n here = start-IsGuarded n
Reach-IsGuarded n (next r st) = Step-IsGuarded st (Reach-IsGuarded n r)

-- While a goroutine makes a connection for a tenant, the cache has none for it, so that the one that
-- is stored replaces no other, and no other goroutine makes one for the tenant.
pub creating-excludes :
    (n : ℕ) {s : Service} (i j : ℕ) (t : String)
    → Reach (start_service n) s
    → s.phases i ≡ creating t
    → j ≢ i
    → (s.store.cache t ≡ none) × (s.phases j ≢ creating t)
creating-excludes n {s} i j t r e ne =
    let h = Reach-IsGuarded n r in (h.empty i t e, alone s i j t h e ne)

-- A connection that the cache has for a tenant is one that was made for this tenant, and it is
-- closed only while a call of `UpdateMapV2` is between its `Close` and its `Delete`.
pub cached-open :
    (n : ℕ) {s : Service} (t : String) (d : ℕ)
    → Reach (start_service n) s
    → s.store.cache t ≡ some d
    → (s.store.tenant_of d ≡ some t)
      × ((s.store.closed d ≡ false) ⊎ ((i : ℕ) × (s.store.removals i ≡ ended t d)))
cached-open n {s} t d r c =
    let h = (Reach-IsGuarded n r).live in
    (
      h.owned t d c,
      elim (Bool-cases (s.store.closed d)) [ inl e ↦ inr (h.waits t d c e) | inr e ↦ inl e ],
    )
