-- ===== src/TenantDb/Samples.antt =====
-- Tenants of common/db/tenantdb: a goroutine that makes a connection, a call that takes it out, and a
-- data source with a cipher that leaves its blocks as they are.
use soelib.Common.{ℕ, List, [], ◌∷◌, none, some, true, false, ◌≡◌, ◌≢◌, ◌⊎◌, refl, arith}
use soelib.Common.Int.{pos}
use soelib.Common.Pieces.{Without}
use soelib.Common.Bytes.{codes, parse_int, decimal, trim_space}
use soelib.Common.Text.{text_eq}
use soelib.Des.Ecb.{
  des_key, Cipher, returned, entrypt_des_ecb, decrypt_desecb, ecb_blocks, pkcs5_padding,
  pkcs5_un_padding,
}
use soelib.Des.EcbLaws.{IsCipher}
use soelib.KeyLock.Locks.{lock_first, lock_second, acquire}
use soelib.KeyLock.Locks as Locks
use soelib.KeyLock.Threads.{move}
use soelib.TenantDb.Cache
use soelib.TenantDb.Cache.{
  creating, leaving, ended, Store, Service, lock_key, store_new, go_on, Reach, here, next,
}
use soelib.TenantDb.Creating.{start_service, creating-excludes, cached-open}
use soelib.TenantDb.Urls.{postgres, sqlserver, separator, get_db_info}
use soelib.TenantDb.Sources.{TenantDataSource, get_by_tenant_id, ok}
use soelib.TenantDb.Opening.{OptSql, Database, Driver, get_db, choose_source}
use soelib.TenantDb.Opened.{database_of, get_db-opens}
use soelib.TenantDb.Calls.{get_db_from_map_v2, parse_arguments, Checked}
use soelib.TenantDb.Addresses.{server_port}

-- Goroutine 0 makes a connection for tenant "a".
abbrev s1 : Service
s1 = go_on (start_service 2) 0 (Cache.locking "a")

abbrev s2 : Service
s2 = record s1 { locks = move s1.locks 0 (lock_first s1.locks.store (lock_key "a")) }

abbrev s3 : Service
s3 = record s2 { locks = move s2.locks 0 (lock_second s2.locks.store (lock_key "a")) }

abbrev s4 : Service
s4 = record s3 {
  locks = move s3.locks 0 (acquire s3.locks.store 0, Locks.holding (lock_key "a") 0);
}

abbrev s5 : Service
s5 = go_on s4 0 (creating "a")

s5-Reach : Reach (start_service 2) s5
unfolding lock_first lock_second
s5-Reach =
    next
      (next
        (next
          (next (next here (Cache.misses 0 "a" refl refl refl)) (Cache.locks_first 0 "a" refl refl))
          (Cache.locks_second 0 "a" refl refl))
        (Cache.acquires 0 "a" 0 refl refl refl))
      (Cache.starts 0 "a" 0 refl refl refl)

zero-ne-one : ◌≢◌ {A = ℕ} 1 0
zero-ne-one e = omega (arith, e)

creating-excludes_example : (s5.store.cache "a" ≡ none) × (s5.phases 1 ≢ creating "a")
creating-excludes_example = creating-excludes 2 0 1 "a" s5-Reach refl zero-ne-one

-- The connection is stored, and a call takes it out and has closed it.
abbrev s6 : Service
s6 = record (go_on s5 0 (leaving "a")) { store = store_new s5.store "a" }

abbrev s7 : Service
s7 = record s6 { store = Cache.at_removal s6.store 0 (Cache.loaded "a" 0) }

abbrev s8 : Service
s8 = record s7 { store = Cache.at_removal (Cache.close s7.store 0) 0 (ended "a" 0) }

s8-Reach : Reach (start_service 2) s8
unfolding store_new
s8-Reach =
    next
      (next (next s5-Reach (Cache.stores 0 "a" refl))
        (Cache.removes (Cache.loads 0 "a" 0 refl refl)))
      (Cache.removes (Cache.ends 0 "a" 0 refl))

s8-cache : s8.store.cache "a" ≡ some 0
unfolding store_new
s8-cache = refl

cached-open_example :
    (s8.store.tenant_of 0 ≡ some "a")
    × ((s8.store.closed 0 ≡ false) ⊎ ((i : ℕ) × (s8.store.removals i ≡ ended "a" 0)))
cached-open_example = cached-open 2 "a" 0 s8-Reach s8-cache

db_port_plain : Without (separator postgres) (server_port (codes "db") (codes "5432"))
db_port_plain = (refl, (refl, (refl, (refl, (refl, (refl, (refl, tt)))))))

db_plain : Without b':' (codes "db")
db_plain = (refl, (refl, tt))

port_plain : Without b':' (codes "5432")
port_plain = (refl, (refl, (refl, (refl, tt))))

db_no_name : Without (separator sqlserver) (codes "db")
db_no_name = (refl, (refl, tt))

parsed_port : parse_int (codes "5432") ≡ (pos 5432, true)
unfolding parse_int
parsed_port = refl

printed_port : decimal (pos 5432) ≡ codes "5432"
unfolding decimal
printed_port = refl

abbrev same_cipher : Cipher
same_cipher = record { encrypt = λ xs. xs; decrypt = λ xs. xs }

same_cipher-IsCipher : IsCipher same_cipher
same_cipher-IsCipher = record { size = λ xs e. e; back = λ xs e b. refl }

-- The password "pw", in a block that is filled up with sixes.
abbrev crm_source : TenantDataSource
crm_source = record {
  url = codes "jdbc:postgresql://db:5432/crm";
  user_name = codes "soe";
  password = b'p' ∷ b'w' ∷ 6 ∷ 6 ∷ 6 ∷ 6 ∷ 6 ∷ 6 ∷ [];
  driver_classname = "org.postgresql.ds.PGSimpleDataSource";
  pool_size = pos 0;
  max_pool_size = pos 0;
  exp_minute = 0;
}

abbrev sample_driver : Driver
sample_driver = record {
  find_source = λ q. crm_source ∷ [];
  find_back = λ t. [];
  copy_struct = λ b. b.source;
  new_cipher = λ k. some same_cipher;
  base64_encode = λ t. t;
  base64_decode = some;
  gorm_open = λ kind dsn level. none;
  use_tracing = none;
  sql_db = none;
}

abbrev plain_opt : OptSql
plain_opt = record { log_level = 2; enable_trace = false; application_name = codes "go-service" }

sample_chosen : choose_source sample_driver (codes "a") false ≡ ok crm_source
unfolding choose_source get_by_tenant_id trim_space parse_int
sample_chosen = refl

sample_encrypted :
    entrypt_des_ecb sample_driver.new_cipher sample_driver.base64_encode sample_driver.base64_decode
      (codes "pw")
      des_key
    ≡ returned crm_source.password
unfolding entrypt_des_ecb pkcs5_padding ecb_blocks
sample_encrypted = refl

decodes : (t : List ℕ) → some t ≡ some t
decodes t = refl

opens_always : (dsn : List ℕ) → sample_driver.gorm_open postgres dsn 2 ≡ none
opens_always dsn = refl

get_db-opens_example :
    get_db sample_driver (codes "a") plain_opt false
    ≡ ok (
        database_of crm_source plain_opt
          (record {
            db_name = codes "crm";
            server = codes "db";
            port = (parse_int (codes "5432")).0;
          })
          (codes "pw"))
get_db-opens_example =
    get_db-opens sample_driver (codes "a") plain_opt false crm_source (codes "db") (codes "5432")
      (codes "crm") (codes "pw") same_cipher sample_chosen refl db_port_plain db_plain port_plain
      (λ e. cc e) (λ e. cc e) (λ e. cc e) refl same_cipher-IsCipher decodes (omega arith)
      sample_encrypted opens_always refl refl

abbrev crm_database : Database
crm_database =
    database_of crm_source plain_opt
      (record { db_name = codes "crm"; server = codes "db"; port = pos 5432 }) (codes "pw")

sample_call : (get_db_from_map_v2 sample_driver (λ t. none) "a" false []).1 ≡ ok crm_database
unfolding get_db_from_map_v2 parse_arguments get_db choose_source get_by_tenant_id trim_space
    parse_int get_db_info decrypt_desecb pkcs5_un_padding ecb_blocks
sample_call = refl

abbrev full_map : Checked
full_map = record { map_left = λ t. some crm_database; reports = [] }
