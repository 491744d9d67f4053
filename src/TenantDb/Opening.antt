-- ===== src/TenantDb/Opening.antt =====
-- `_getDB` and the ways to it of common/db/tenantdb/tenant_db.go, for one caller. The database, GORM,
-- crypto/des, encoding/base64 and the copy of the fields (deepcopier) are parameters.
use soelib.Common.{
  ℕ, ◌*◌, ◌%◌, ◌^◌, zero, suc, ◌==◌, List, [], ◌∷◌, ◌++◌, Option, none, some, Bool, false,
  if◌then◌else◌,
}
use soelib.Common.Int.{ℤ, pos, negsuc}
use soelib.Common.Bytes.{codes, decimal}
use soelib.Common.Text.{String}
use soelib.Des.Ecb.{Cipher, des_key, decrypt_desecb}
use soelib.Des.Ecb as Ecb
use soelib.TenantDb.Urls.{Dialect, postgres, sqlserver, dialect, DbInfo, get_db_info}
use soelib.TenantDb.Sources.{
  TenantDataSource, TenantDataSourceBack, Query, Failure, no_db_name, no_server, no_password,
  open_failed, trace_failed, pool_failed, Result, ok, error, panicked, ◌>>=◌, get_by_tenant_id,
  get_back_by_tenant_id,
}

-- `log_level` stands for the whole configuration of GORM.
pub record OptSql : Type 0 where
  pub log_level : ℕ
  pub enable_trace : Bool
  pub application_name : List ℕ

-- What a connection was opened with, and the settings of its pool.
pub record Database : Type 0 where
  pub kind : Dialect
  pub dsn : List ℕ
  pub traced : Bool
  pub max_idle_conns : ℤ
  pub max_open_conns : ℤ
  pub conn_max_lifetime : ℕ

-- What the code calls; a text is an error.
pub record Driver : Type 0 where
  pub find_source : Query → List TenantDataSource
  pub find_back : List ℕ → List TenantDataSourceBack
  pub copy_struct : TenantDataSourceBack → TenantDataSource
  pub new_cipher : List ℕ → Option Cipher
  pub base64_encode : List ℕ → List ℕ
  pub base64_decode : List ℕ → Option (List ℕ)
  pub gorm_open : Dialect → List ℕ → ℕ → Option String
  pub use_tracing : Option String
  pub sql_db : Option String

abbrev pub is_enabled : ℤ → Bool
is_enabled (pos n) = n == 1
is_enabled (negsuc n) = false

abbrev pub with_url : List ℕ → TenantDataSource → Result TenantDataSource → Result TenantDataSource
with_url [] s main = main
with_url (c ∷ cs) s main = ok s

abbrev pub back_or :
    Driver → Result TenantDataSource → Option TenantDataSourceBack → Result TenantDataSource
back_or d main none = main
back_or d main (some b) =
    let s = d.copy_struct b in if is_enabled b.enable then with_url s.url s main else main

-- The standby source first, if it is wanted, there, enabled and has an address.
unfoldable pub choose_source : Driver → List ℕ → Bool → Result TenantDataSource
choose_source d tenant enable =
    let main = get_by_tenant_id d.find_source tenant in
    if enable then get_back_by_tenant_id d.find_back tenant >>= back_or d main else main

abbrev pub not_empty : Failure → List ℕ → Result (List ℕ)
not_empty e [] = error e
not_empty e (c ∷ cs) = ok (c ∷ cs)

-- The text "" of a failed decryption is the error of an empty password.
abbrev pub password_of : Ecb.Result → Result (List ℕ)
password_of (Ecb.returned p) = not_empty no_password p
password_of Ecb.failed = error no_password
password_of Ecb.panicked = panicked

abbrev pub info_of : Option DbInfo → Result DbInfo
info_of none = panicked
info_of (some i) = ok i

-- `dbInfo` of both drivers.
abbrev pub dsn_of : Dialect → DbInfo → List ℕ → List ℕ → List ℕ → List ℕ
dsn_of postgres i user password app =
    codes "host="
    ++ i.server
    ++ (codes " user="
        ++ (user
            ++ (codes " port="
                ++ (decimal i.port
                    ++ (codes " dbname="
                        ++ (i.db_name
                            ++ (codes " sslmode=disable password="
                                ++ (password ++ (codes " application_name=" ++ app)))))))))
dsn_of sqlserver i user password app =
    codes "server="
    ++ i.server
    ++ (codes ";user id="
        ++ (user
            ++ (codes ";password="
                ++ (password
                    ++ (codes ";database="
                        ++ (i.db_name
                            ++ (codes ";port="
                                ++ (decimal i.port
                                    ++ (codes ";encrypt=disable; application_name=" ++ app)))))))))

abbrev pub or_default : ℤ → ℤ → ℤ
or_default (pos zero) d = d
or_default x d = x

abbrev pub minutes_or_default : ℕ → ℕ
minutes_or_default zero = 5
minutes_or_default (suc n) = suc n

-- An error of a call.
abbrev pub checked : Option String → (String → Failure) → Result (Unit {0})
checked none f = ok tt
checked (some e) f = error (f e)

-- Where tracing is set up or the pool is reached with an error, what was opened stays open.
abbrev pub set_up : Driver → TenantDataSource → OptSql → Dialect → List ℕ → Result Database
set_up d s opt kind dsn =
    checked (if opt.enable_trace then d.use_tracing else none) trace_failed >>= λ _.
    checked d.sql_db pool_failed >>= λ _. ok (record {
      kind = kind;
      dsn = dsn;
      traced = opt.enable_trace;
      max_idle_conns = or_default s.pool_size (pos 2);
      max_open_conns = or_default s.max_pool_size (pos 10);
      conn_max_lifetime = minutes_or_default s.exp_minute * 60000000000 % 2 ^ 64;
    })

-- The data source's address, then the names in it, the password, and the connection.
abbrev pub open_source : Driver → OptSql → TenantDataSource → Result Database
open_source d opt s =
    let kind = dialect s.driver_classname in
    info_of (get_db_info s.url kind) >>= λ i. not_empty no_db_name i.db_name >>= λ _.
    not_empty no_server i.server >>= λ _.
    password_of (decrypt_desecb d.new_cipher d.base64_encode d.base64_decode s.password des_key)
    >>= λ password.
        let dsn = dsn_of kind i s.user_name password opt.application_name in
        checked (d.gorm_open kind dsn opt.log_level) open_failed >>= λ _. set_up d s opt kind dsn

unfoldable pub get_db : Driver → List ℕ → OptSql → Bool → Result Database
get_db d tenant opt enable = choose_source d tenant enable >>= open_source d opt
