-- ===== src/TenantDb/Opened.antt =====
-- What a connection of common/db/tenantdb is opened with: the parts of its data source's address and
-- the password that common/des has encrypted.
use soelib.Common.{
  ℕ, List, [], ◌∷◌, ◌++◌, Option, none, some, All, Bool, true, false, if◌then◌else◌, ◌*◌, ◌%◌, ◌^◌,
  ◌≡◌, ◌≢◌, refl, sym, ap, ◌∙◌,
}
use soelib.Common.Int.{pos}
use soelib.Common.Pieces.{Without}
use soelib.Common.Bytes.{codes, decimal, parse_int}
use soelib.Common.Text.{String}
use soelib.Des.Copying.{IsByte}
use soelib.Des.Ecb.{des_key, Cipher, cut_key, returned, entrypt_des_ecb, decrypt_desecb}
use soelib.Des.Ecb as Ecb
use soelib.Des.EcbLaws.{IsCipher, decrypt_desecb-entrypt_des_ecb}
use soelib.TenantDb.Urls.{
  scheme, separator, name_prefix, Dialect, postgres, sqlserver, dialect, DbInfo, get_db_info,
}
use soelib.TenantDb.Addresses.{server_port, get_db_info-address}
use soelib.TenantDb.Sources.{TenantDataSource, Failure, ok}
use soelib.TenantDb.Opening.{
  OptSql, Database, Driver, choose_source, not_empty, dsn_of, or_default, minutes_or_default,
  open_source, get_db,
}

not_empty-ok : (e : Failure) (s : List ℕ) → s ≢ [] → not_empty e s ≡ ok s
not_empty-ok e [] h = absurd (h refl)
not_empty-ok e (c ∷ cs) h = refl

returned_inj : {s t : List ℕ} → returned s ≡ returned t → s ≡ t
returned_inj {s} e = ap (λ r. elim r [ Ecb.returned t ↦ t | _ ↦ s ]) e

decrypted :
    (d : Driver) (out plain : List ℕ) (c : Cipher)
    → d.new_cipher (cut_key des_key) ≡ some c
    → IsCipher c
    → ((t : List ℕ) → d.base64_decode (d.base64_encode t) ≡ some t)
    → All IsByte plain
    → entrypt_des_ecb d.new_cipher d.base64_encode d.base64_decode plain des_key ≡ returned out
    → decrypt_desecb d.new_cipher d.base64_encode d.base64_decode out des_key ≡ returned plain
decrypted d out plain c found h back bytes e =
    let r =
      decrypt_desecb-entrypt_des_ecb d.new_cipher d.base64_encode d.base64_decode plain des_key c
        found h back bytes in
    rw (returned_inj (sym r.1 ∙ e)) at r.2

abbrev pub source_kind : TenantDataSource → Dialect
source_kind s = dialect s.driver_classname

-- The settings that a connection is opened with, as names and values: for each part of the address, the
-- user, the password, and the application.
abbrev pub settings : Dialect → DbInfo → List ℕ → List ℕ → List ℕ → List (List ℕ × List ℕ)
settings postgres i user plain app =
    (codes "host", i.server)
    ∷ (codes "user", user)
    ∷ (codes "port", decimal i.port)
    ∷ (codes "dbname", i.db_name)
    ∷ (codes "sslmode", codes "disable")
    ∷ (codes "password", plain)
    ∷ (codes "application_name", app)
    ∷ []
settings sqlserver i user plain app =
    (codes "server", i.server)
    ∷ (codes "user id", user)
    ∷ (codes "password", plain)
    ∷ (codes "database", i.db_name)
    ∷ (codes "port", decimal i.port)
    ∷ (codes "encrypt", codes "disable")
    ∷ (codes " application_name", app)
    ∷ []

-- Settings as `name=value`, with a byte between them.
abbrev pub written : ℕ → List (List ℕ × List ℕ) → List ℕ
written between [] = []
written between ((name, value) ∷ []) = name ++ b'=' ∷ value
written between ((name, value) ∷ x ∷ xs) =
    name ++ b'=' ∷ (value ++ between ∷ written between (x ∷ xs))

abbrev pub between_settings : Dialect → ℕ
between_settings postgres = b' '
between_settings sqlserver = b';'

dsn_of-settings :
    (kind : Dialect) (i : DbInfo) (user plain app : List ℕ)
    → dsn_of kind i user plain app
      ≡ written (between_settings kind) (settings kind i user plain app)
dsn_of-settings postgres i user plain app = refl
dsn_of-settings sqlserver i user plain app = refl

-- The connection of a data source: the password is decrypted.
abbrev pub database_of : TenantDataSource → OptSql → DbInfo → List ℕ → Database
database_of s opt i plain =
    let kind = dialect s.driver_classname in
    record {
      kind = kind;
      dsn =
          written (between_settings kind) (settings kind i s.user_name plain opt.application_name);
      traced = opt.enable_trace;
      max_idle_conns = or_default s.pool_size (pos 2);
      max_open_conns = or_default s.max_pool_size (pos 10);
      conn_max_lifetime = minutes_or_default s.exp_minute * 60000000000 % 2 ^ 64;
    }

abbrev no_text : Option String
no_text = none

no_error : (b : Bool) → (if b then none else none) ≡ no_text
no_error true = refl
no_error false = refl

opens :
    (d : Driver) (opt : OptSql) (s : TenantDataSource) (i : DbInfo) (plain : List ℕ)
    → get_db_info s.url (dialect s.driver_classname) ≡ some i
    → i.db_name ≢ []
    → i.server ≢ []
    → decrypt_desecb d.new_cipher d.base64_encode d.base64_decode s.password des_key
      ≡ returned plain
    → plain ≢ []
    → ((dsn : List ℕ) → d.gorm_open (dialect s.driver_classname) dsn opt.log_level ≡ none)
    → d.use_tracing ≡ none
    → d.sql_db ≡ none
    → open_source d opt s ≡ ok (database_of s opt i plain)
opens d opt s i plain url name server password some_password connects traces pool =
    rw
      (
        url,
        not_empty-ok _ i.db_name name,
        not_empty-ok _ i.server server,
        password,
        not_empty-ok _ plain some_password,
        connects _,
        traces,
        no_error opt.enable_trace,
        pool,
        dsn_of-settings (dialect s.driver_classname) i s.user_name plain opt.application_name,
      )
      refl

-- A data source whose address has a scheme, a server, a port and a name, and whose password is one
-- that is not empty and that `EntryptDesECB` has encrypted, is opened with these: the text that GORM
-- is given has the server, the port, the name, the data source's user and the password before
-- encryption, each as the setting of that meaning. The cipher and
-- base64 undo what they do, and GORM opens without an error.
pub get_db-opens :
    (d : Driver) (tenant : List ℕ) (opt : OptSql) (enable : Bool) (s : TenantDataSource)
    (server port name plain : List ℕ) (c : Cipher)
    → choose_source d tenant enable ≡ ok s
    → s.url
      ≡ scheme (source_kind s) ++ (server_port server port ++ (name_prefix (source_kind s) ++ name))
    → Without (separator (source_kind s)) (server_port server port)
    → Without b':' server
    → Without b':' port
    → name ≢ []
    → server ≢ []
    → plain ≢ []
    → d.new_cipher (cut_key des_key) ≡ some c
    → IsCipher c
    → ((t : List ℕ) → d.base64_decode (d.base64_encode t) ≡ some t)
    → All IsByte plain
    → entrypt_des_ecb d.new_cipher d.base64_encode d.base64_decode plain des_key
      ≡ returned s.password
    → ((dsn : List ℕ) → d.gorm_open (source_kind s) dsn opt.log_level ≡ none)
    → d.use_tracing ≡ none
    → d.sql_db ≡ none
    → get_db d tenant opt enable
      ≡ ok (
          database_of s opt
            (record { db_name = name; server = server; port = (parse_int port).0 })
            plain)
unfolding get_db
get_db-opens d tenant opt enable s server port name plain c chosen url w x y n v p found h back
      bytes e connects traces pool =
    let kind = source_kind s in
    rw chosen (
      opens d opt s _ plain
        (ap (λ u. get_db_info u kind) url ∙ get_db_info-address kind server port name w x y) n v
        (decrypted d s.password plain c found h back bytes e) p connects traces pool)
