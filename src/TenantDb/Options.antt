-- ===== src/TenantDb/Options.antt =====
-- Which options a connection of common/db/tenantdb has, and what a check of the cache leaves.
use soelib.Common.{
  List, [], ◌∷◌, Option, none, some, Bool, true, false, ◌&&◌, ◌||◌, if◌then◌else◌, Bool-cases, ◌≡◌,
  inl, inr, refl, ◌∙◌, arith,
}
use soelib.Common.Text.{String, text_eq}
use soelib.TenantDb.Cache.{put}
use soelib.TenantDb.Sources.{Result, ok, error, panicked}
use soelib.TenantDb.Opening.{OptSql, Database, Driver}
use soelib.TenantDb.Calls.{
  Argument, DbMap, from_cache, get_db_from_map, get_db_from_map_with_opt, get_db_from_map_v2,
  Health, is_removed, Checked, check_all, check_one,
}

from_cache-hit :
    (c : DbMap) (tenant : String) (db : Database) (opened : Result Database)
    → c tenant ≡ some db
    → from_cache c tenant (c tenant) opened ≡ (c, ok db)
from_cache-hit c tenant db opened e = rw e refl

put_self : (c : DbMap) (tenant : String) (db : Database) → put c tenant (some db) tenant ≡ some db
put_self c tenant db = rw ((text_eq.beq_iff tenant tenant).1 refl) refl

-- The cache after a call that returns a connection has it.
from_cache-stored :
    (c : DbMap) (tenant : String) (o : Option Database) (opened : Result Database) (db : Database)
    → c tenant ≡ o
    → (from_cache c tenant o opened).1 ≡ ok db
    → (from_cache c tenant o opened).0 tenant ≡ some db
from_cache-stored c tenant (some x) opened db e h = e ∙ ground (arith, h)
from_cache-stored c tenant none (ok x) db e h = put_self c tenant x ∙ ground (arith, h)
from_cache-stored c tenant none (error f) db e h = absurd (cc h)
from_cache-stored c tenant none panicked db e h = absurd (cc h)

-- All three calls return a connection and leave the cache as it is.
abbrev pub Returned : Driver → DbMap → String → Database → Bool → List Argument → OptSql → Type 0
Returned e c tenant db enable args opt =
    (get_db_from_map e c tenant args ≡ (c, ok db))
    × (get_db_from_map_with_opt e c tenant opt ≡ (c, ok db))
    × (get_db_from_map_v2 e c tenant enable args ≡ (c, ok db))

-- Once a call has returned a connection for a tenant, all three calls return this one for it and leave
-- the cache as it is, whatever their arguments, options and data sources are, and also if one wants
-- the standby source and the other the main one.
pub get_db_from_map_v2-first :
    (d e : Driver) (c : DbMap) (tenant : String) (enable enable' : Bool)
    (args args' : List Argument) (opt : OptSql) (db : Database)
    → (get_db_from_map_v2 d c tenant enable args).1 ≡ ok db
    → Returned e (get_db_from_map_v2 d c tenant enable args).0 tenant db enable' args' opt
unfolding get_db_from_map_v2 get_db_from_map get_db_from_map_with_opt
get_db_from_map_v2-first d e c tenant enable enable' args args' opt db h =
    let has = from_cache-stored c tenant (c tenant) _ db refl h in
    (
      from_cache-hit _ tenant db _ has,
      from_cache-hit _ tenant db _ has,
      from_cache-hit _ tenant db _ has,
    )

-- The tenants that a check comes to.
abbrev pub comes_to : List String → String → Bool
comes_to [] t = false
comes_to (k ∷ ks) t = text_eq.beq t k || comes_to ks t

check_one-map :
    (s : Checked) (k : String) (h : Health) (t : String)
    → (check_one s k h).map_left t
      ≡ (if text_eq.beq t k && is_removed h then none else s.map_left t)
check_one-map s k h t = elim (Bool-cases (is_removed h)) [
  | inl e ↦ rw e (ground arith)
  | inr e ↦ rw e (ground arith)
]

either :
    (later now removed : Bool) (x : Option Database)
    → (if later && removed then none else if now && removed then none else x)
      ≡ (if (now || later) && removed then none else x)
either true true true x = refl
either true true false x = refl
either true false true x = refl
either true false false x = refl
either false true true x = refl
either false true false x = refl
either false false removed x = refl

-- A check takes out of the cache exactly the connections that it comes to and does not find healthy.
pub check_all-map :
    (health : String → Health) (ks : List String) (s : Checked) (t : String)
    → (check_all health ks s).map_left t
      ≡ (if comes_to ks t && is_removed (health t) then none else s.map_left t)
unfolding check_all
check_all-map health [] s t = refl
check_all-map health (k ∷ ks) s t =
    check_all-map health ks (check_one s k (health k)) t
    ∙ (rw (check_one-map s k (health k) t) (elim (Bool-cases (text_eq.beq t k)) [
      | inl same ↦
          rw ((text_eq.beq_iff t k).0 same)
            (either (comes_to ks k) (text_eq.beq k k) (is_removed (health k)) (s.map_left k))
      | inr other ↦ rw other refl
    ]))
