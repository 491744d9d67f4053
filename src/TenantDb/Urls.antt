-- ===== src/TenantDb/Urls.antt =====
-- `GetDBInfo` of common/utils/util.go, and the addresses that it reads.
use soelib.Common.{ℕ, List, Option, none, some, if◌then◌else◌}
use soelib.Common.Int.{ℤ}
use soelib.Common.Bytes.{codes, without_first, cut_at, first_piece, second_piece, parse_int}
use soelib.Common.Text.{String, text_eq}

pub data Dialect : Type 0 where
  postgres sqlserver : Dialect

-- The test of the driver's class name.
abbrev pub dialect : String → Dialect
dialect driver =
    if text_eq.beq driver "org.postgresql.ds.PGSimpleDataSource" then postgres else sqlserver

abbrev pub scheme : Dialect → List ℕ
scheme postgres = codes "jdbc:postgresql://"
scheme sqlserver = codes "jdbc:sqlserver://"

-- The byte that ends the server and its port, and what stands before the name of the database.
abbrev pub separator : Dialect → ℕ
separator postgres = b'/'
separator sqlserver = b';'

abbrev pub name_prefix : Dialect → List ℕ
name_prefix postgres = codes "/"
name_prefix sqlserver = codes ";databaseName="

pub record DbInfo : Type 0 where
  pub db_name : List ℕ
  pub server : List ℕ
  pub port : ℤ

abbrev pub split_server : Dialect → Option (List ℕ × List ℕ) → Option DbInfo
split_server d none = none
split_server d (some (server_port, rest)) = elim (second_piece b':' server_port) [
  | none ↦ none
  | some port_str ↦ some (record {
    db_name = without_first (name_prefix d) rest;
    server = first_piece b':' server_port;
    port = (parse_int port_str).0;
  })
]

-- None is the panic of a slice or an index out of range.
unfoldable pub get_db_info : List ℕ → Dialect → Option DbInfo
get_db_info jdbc_url d = split_server d (cut_at (separator d) (without_first (scheme d) jdbc_url))
