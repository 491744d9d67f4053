-- ===== src/TenantDb/Cache.antt =====
-- The cache `dbMap` of common/db/tenantdb/tenant_db.go as the goroutines share it that ask for
-- connections, that check them (`checkAllConnections`) and that take them out (`UpdateMapV2`): any
-- interleaving of what they do to the map, to the locks of common/keylock and to the connections.
-- A connection is its number; `next` is the first that is not in use.
use soelib.Common.{ℕ, suc, Bool, true, false, Option, none, some, if◌then◌else◌, ◌≡◌}
use soelib.Common.Text.{String, ◌<>◌, text_eq}
use soelib.KeyLock.Locks.{
  KeyLock, idle, missed, waiting, holding, lock_first, lock_second, unlock_first, acquire, release,
  clean, update,
}
use soelib.KeyLock.Locks as Locks
use soelib.KeyLock.Threads.{System, At, move}

-- Where a goroutine is that asks for a connection: outside (the fast path, which takes what the map
-- has, changes nothing), after the first look in vain, in `_getDB`, and before the deferred `Unlock`.
pub data Phase : Type 0 where
  outside : Phase
  locking creating leaving : String → Phase

-- Where a goroutine is that takes the connection of a tenant out. `checkAllConnections` has ranged
-- over it, and deletes it (`dropping`) before it closes it; `UpdateMapV2` has loaded it, and closes it
-- (`ended`) before it deletes it.
pub data Removal : Type 0 where
  finished : Removal
  ranged dropping loaded ended : String → ℕ → Removal

pub record Store : Type 0 where
  pub cache : String → Option ℕ
  pub tenant_of : ℕ → Option String
  pub next : ℕ
  pub closed : ℕ → Bool
  pub removals : ℕ → Removal

pub record Service : Type 0 where
  pub locks : System String
  pub phases : ℕ → Phase
  pub store : Store

abbrev pub lock_key : String → String
lock_key tenant = "SQLDB_" <> tenant

-- `dbMap.Store` and `dbMap.Delete`.
abbrev pub put {ℓ} : {A : Type ℓ} → (String → Option A) → String → Option A → String → Option A
put cache tenant v k = if text_eq.beq k tenant then v else cache k

-- A new connection, stored.
unfoldable pub store_new : Store → String → Store
store_new s tenant = record s {
  cache = put s.cache tenant (some s.next);
  tenant_of = update s.tenant_of s.next (some tenant);
  next = suc s.next;
}

abbrev pub remove : Store → String → Store
remove s tenant = record s { cache = put s.cache tenant none }

abbrev pub close : Store → ℕ → Store
close s db = record s { closed = update s.closed db true }

abbrev pub at_removal : Store → ℕ → Removal → Store
at_removal s i r = record s { removals = update s.removals i r }

-- What the goroutines that take connections out do. A checker that finds the connection healthy, or
-- that cannot reach what it has to close, goes on.
pub data StoreStep (s : Store) : Store → Type 0 where
  ranges :
      (i : ℕ) (t : String) (d : ℕ)
      → s.removals i ≡ finished
      → s.cache t ≡ some d
      → StoreStep s (at_removal s i (ranged t d))
  passes :
      (i : ℕ) (t : String) (d : ℕ)
      → s.removals i ≡ ranged t d
      → StoreStep s (at_removal s i finished)
  drops :
      (i : ℕ) (t : String) (d : ℕ)
      → s.removals i ≡ ranged t d
      → StoreStep s (at_removal (remove s t) i (dropping t d))
  closes :
      (i : ℕ) (t : String) (d : ℕ)
      → s.removals i ≡ dropping t d
      → StoreStep s (at_removal (close s d) i finished)
  spares :
      (i : ℕ) (t : String) (d : ℕ)
      → s.removals i ≡ dropping t d
      → StoreStep s (at_removal s i finished)
  loads :
      (i : ℕ) (t : String) (d : ℕ)
      → s.removals i ≡ finished
      → s.cache t ≡ some d
      → StoreStep s (at_removal s i (loaded t d))
  ends :
      (i : ℕ) (t : String) (d : ℕ)
      → s.removals i ≡ loaded t d
      → StoreStep s (at_removal (close s d) i (ended t d))
  deletes :
      (i : ℕ) (t : String) (d : ℕ)
      → s.removals i ≡ ended t d
      → StoreStep s (at_removal (remove s t) i finished)

abbrev pub go_on : Service → ℕ → Phase → Service
go_on s i p = record s { phases = update s.phases i p }

-- `GetDbFromMap`, `GetDbFromMapWithOpt` and `GetDbFromMapV2`, whose bodies are the same here: a first
-- look, `Lock`, a second look, `_getDB`, `Store`, and `Unlock`.
pub data Step (s : Service) : Service → Type 0 where
  misses :
      (i : ℕ) (t : String)
      → s.phases i ≡ outside
      → At s.locks i idle
      → s.store.cache t ≡ none
      → Step s (go_on s i (locking t))
  locks_first :
      (i : ℕ) (t : String)
      → s.phases i ≡ locking t
      → At s.locks i idle
      → Step s (record s { locks = move s.locks i (lock_first s.locks.store (lock_key t)) })
  locks_second :
      (i : ℕ) (t : String)
      → s.phases i ≡ locking t
      → At s.locks i (missed (lock_key t))
      → Step s (record s { locks = move s.locks i (lock_second s.locks.store (lock_key t)) })
  acquires :
      (i : ℕ) (t : String) (l : ℕ)
      → s.phases i ≡ locking t
      → At s.locks i (waiting (lock_key t) l)
      → s.locks.store.held l ≡ false
      → Step s
          (record s { locks = move s.locks i (acquire s.locks.store l, holding (lock_key t) l) })
  finds :
      (i : ℕ) (t : String) (l d : ℕ)
      → s.phases i ≡ locking t
      → At s.locks i (holding (lock_key t) l)
      → s.store.cache t ≡ some d
      → Step s (go_on s i (leaving t))
  starts :
      (i : ℕ) (t : String) (l : ℕ)
      → s.phases i ≡ locking t
      → At s.locks i (holding (lock_key t) l)
      → s.store.cache t ≡ none
      → Step s (go_on s i (creating t))
  stores :
      (i : ℕ) (t : String)
      → s.phases i ≡ creating t
      → Step s (record (go_on s i (leaving t)) { store = store_new s.store t })
  fails : (i : ℕ) (t : String) → s.phases i ≡ creating t → Step s (go_on s i (leaving t))
  unlocks :
      (i : ℕ) (t : String) (l : ℕ)
      → s.phases i ≡ leaving t
      → At s.locks i (holding (lock_key t) l)
      → Step s (record (go_on s i outside) {
        locks = move s.locks i (unlock_first s.locks.store (lock_key t));
      })
  releases :
      (i l : ℕ)
      → At s.locks i (Locks.leaving l)
      → Step s (record s { locks = move s.locks i (release s.locks.store l, idle) })
  cleans : Step s (record s { locks = record s.locks { store = clean s.locks.store } })
  removes : {t : Store} → StoreStep s.store t → Step s (record s { store = t })

pub data Reach (s : Service) : Service → Type 0 where
  here : Reach s s
  next : {t u : Service} → Reach s t → Step t u → Reach s u
