-- ===== src/TenantDb/Addresses.antt =====
-- The addresses that `GetDBInfo` of common/utils/util.go reads, and those that end in a panic.
use soelib.Common.{ℕ, List, ◌∷◌, ◌++◌, none, some, ◌≡◌, refl}
use soelib.Common.Pieces.{
  Without, cut_at-append, cut_at-none, first_piece-append, second_piece-append, second_piece-none,
}
use soelib.Common.Bytes.{cut_at, parse_int}
use soelib.TenantDb.Urls.{
  Dialect, postgres, sqlserver, scheme, separator, name_prefix, split_server, get_db_info,
}

-- What is left of an address after its scheme.
read_rest :
    (d : Dialect) (body : List ℕ)
    → get_db_info (scheme d ++ body) d ≡ split_server d (cut_at (separator d) body)
unfolding get_db_info
read_rest postgres body = refl
read_rest sqlserver body = refl

abbrev pub server_port : List ℕ → List ℕ → List ℕ
server_port server port = server ++ b':' ∷ port

split_server-found :
    (d : Dialect) (server port name : List ℕ)
    → Without b':' server
    → Without b':' port
    → split_server d (some (server_port server port, name_prefix d ++ name))
      ≡ some (record { db_name = name; server = server; port = (parse_int port).0 })
split_server-found postgres server port name h k =
    rw
      (
        second_piece-append b':' server port h k,
        split_server,
        first_piece-append b':' server port h,
      )
      refl
split_server-found sqlserver server port name h k =
    rw
      (
        second_piece-append b':' server port h k,
        split_server,
        first_piece-append b':' server port h,
      )
      refl

cut_name :
    (d : Dialect) (s name : List ℕ)
    → Without (separator d) s
    → cut_at (separator d) (s ++ (name_prefix d ++ name)) ≡ some (s, name_prefix d ++ name)
cut_name postgres s name h = cut_at-append (separator postgres) s name h
cut_name sqlserver s name h = cut_at-append (separator sqlserver) s _ h

pub get_db_info-address :
    (d : Dialect) (server port name : List ℕ)
    → Without (separator d) (server_port server port)
    → Without b':' server
    → Without b':' port
    → get_db_info (scheme d ++ (server_port server port ++ (name_prefix d ++ name))) d
      ≡ some (record { db_name = name; server = server; port = (parse_int port).0 })
get_db_info-address d server port name h k l =
    rw (read_rest d _, cut_name d (server_port server port) name h)
      (split_server-found d server port name k l)

-- An address is a panic if it has no separator, or no colon before the first one.
pub get_db_info-panics :
    (d : Dialect) (server rest : List ℕ)
    → Without (separator d) server
    → Without b':' server
    → (get_db_info (scheme d ++ server) d ≡ none)
      × (get_db_info (scheme d ++ (server ++ separator d ∷ rest)) d ≡ none)
get_db_info-panics d server rest h k = (
  rw (read_rest d _, cut_at-none (separator d) server h) refl,
  rw
      (
        read_rest d _,
        cut_at-append (separator d) server rest h,
        second_piece-none b':' server k,
        split_server,
      )
      refl,
)
