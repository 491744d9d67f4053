-- ===== src/Ini/Settings.antt =====
-- `LoadSystemIni` of common/ini/system_ini.go. What the file has for a key of a section, "" if it has
-- none, is a parameter, and so are the GBK encoder and decoder of common/des. Texts are bytes.
use soelib.Common.{Bool, true, false, ℕ, List, [], ◌∷◌, Option, none, some, drop}
use soelib.Common.Int.{ℤ, pos}
use soelib.Common.Bytes.{codes, cut_at, first_piece, second_piece, parse_int}
use soelib.Common.Text.{String}
use soelib.Des.Power.{power_decry_str, power_des_key}

pub record Settings : Type 0 where
  pub tcp_host : List ℕ
  pub tcp_port : List ℕ
  pub mqtt_port : List ℕ
  pub ws_addr : List ℕ
  pub wss_addr : List ℕ
  pub db_name : List ℕ
  pub server : List ℕ
  pub port : ℤ
  pub user : List ℕ
  pub password : List ℕ

abbrev pub if_empty : List ℕ → List ℕ → List ℕ
if_empty [] d = d
if_empty (c ∷ cs) d = c ∷ cs

pub record DbFile : Type 0 where
  pub file_name : List ℕ
  pub file_server : List ℕ
  pub file_port : ℤ

-- The server and its port, which is 1433 without a comma.
abbrev pub split_port : List ℕ → Option (List ℕ × List ℕ) → List ℕ → DbFile
split_port whole none name = record { file_name = name; file_server = whole; file_port = pos 1433 }
split_port whole (some (server, rest)) name = record {
  file_name = name;
  file_server = server;
  file_port = (parse_int (drop 1 rest)).0;
}

abbrev pub with_name : List ℕ → Option (List ℕ) → Option DbFile
with_name whole none = none
with_name whole (some name) = some (split_port whole (cut_at b',' whole) name)

-- None is the panic of an index out of range.
unfoldable pub parse_db_file : List ℕ → Option DbFile
parse_db_file file_value = with_name (first_piece b':' file_value) (second_piece b':' file_value)

abbrev pub File : Type 0
File = String → String → List ℕ

-- What comes before the database.
abbrev pub with_ports : File → Settings → Settings
with_ports file s = record s {
  tcp_host = if_empty (file "TCP" "Host") (codes "127.0.0.1");
  tcp_port = if_empty (file "TCP" "Port") (codes "5201");
  mqtt_port = if_empty (file "MQTT" "ServerPort") (codes "2883");
  ws_addr = if_empty (file "MQTT" "WsAddr") (codes "18080");
  wss_addr = if_empty (file "MQTT" "WssAddr") (codes "18081");
}

-- A text that cannot be decrypted stays as it is.
abbrev pub or_same : Option (List ℕ) → List ℕ → List ℕ
or_same none t = t
or_same (some plain) t = plain

module _ (gbk_encode gbk_decode : List ℕ → List ℕ) where
  abbrev pub decrypted : List ℕ → List ℕ
  decrypted t = or_same (power_decry_str gbk_encode gbk_decode t power_des_key) t

  abbrev pub with_user : List ℕ → Settings → Settings
  with_user [] s = record s { user = codes "sa" }
  with_user (c ∷ cs) s = record s { user = decrypted (c ∷ cs) }

  -- Without a password it is the user that is set.
  abbrev pub with_password : List ℕ → Settings → Settings
  with_password [] s = record s { user = codes "soesoft"; password = [] }
  with_password (c ∷ cs) s = record s { password = decrypted (c ∷ cs) }

  abbrev pub with_database : File → DbFile → Settings → Settings
  with_database file d s = with_password (file "DataBase" "Password") (
      with_user (file "DataBase" "UserName")
        (record s { db_name = d.file_name; server = d.file_server; port = d.file_port }))

  -- What is left, and whether it is after the panic of a text with no colon.
  abbrev pub loaded : File → Settings → Option DbFile → Settings × Bool
  loaded file s none = (with_ports file s, true)
  loaded file s (some d) = (with_database file d (with_ports file s), false)

  -- None is a file that cannot be loaded.
  unfoldable pub load_system_ini : Option File → Settings → Settings × Bool
  load_system_ini none s = (s, false)
  load_system_ini (some file) s = loaded file s (parse_db_file (file "DataBase" "File"))
