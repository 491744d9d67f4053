-- ===== src/Ini/Samples.antt =====
-- A system.ini whose user and password are encrypted with the key of common/des, and one without a
-- password.
use soelib.Common.{List, ℕ, [], some, false, ◌≡◌, refl, if◌then◌else◌, ◌&&◌, arith}
use soelib.Common.Int.{pos}
use soelib.Common.Bytes.{codes, parse_int}
use soelib.Common.Text.{text_eq}
use soelib.Des.Block.{
  make_key, des_data, copy_bits, init_permutation, converse_permutation, des_round, des_rounds,
  exchange, key_order, encry, xor_bytes,
}
use soelib.Des.Hex.{hex_encode, hex_digit, to_upper}
use soelib.Des.Power.{
  power_encry_str, encry_str, crypt_blocks, pad_zeros, key_bytes, grow_key, power_des_key,
}
use soelib.Ini.Settings.{Settings, File, parse_db_file, load_system_ini, with_ports}
use soelib.Ini.Loading.{IsKept, load_system_ini-database}

abbrev ascii : List ℕ → List ℕ
ascii text = text

abbrev crm_file : File
crm_file section key =
    if text_eq.beq section "DataBase" && text_eq.beq key "File"
    then codes "db,1500:crm"
    else if text_eq.beq section "DataBase" && text_eq.beq key "UserName"
    then codes "B947CC01D22654C0"
    else if text_eq.beq section "DataBase" && text_eq.beq key "Password"
    then codes "2D215CB038248DA0"
    else []

abbrev no_settings : Settings
no_settings = record {
  tcp_host = [];
  tcp_port = [];
  mqtt_port = [];
  ws_addr = [];
  wss_addr = [];
  db_name = [];
  server = [];
  port = pos 0;
  user = [];
  password = [];
}

encrypted_user :
    power_encry_str ascii ascii (codes "sa") power_des_key ≡ some (codes "B947CC01D22654C0")
unfolding power_encry_str encry_str crypt_blocks pad_zeros key_bytes grow_key hex_encode hex_digit
    to_upper des_data make_key copy_bits init_permutation converse_permutation des_round des_rounds
    exchange key_order encry xor_bytes
encrypted_user = refl

encrypted_password :
    power_encry_str ascii ascii (codes "pw") power_des_key ≡ some (codes "2D215CB038248DA0")
unfolding power_encry_str encry_str crypt_blocks pad_zeros key_bytes grow_key hex_encode hex_digit
    to_upper des_data make_key copy_bits init_permutation converse_permutation des_round des_rounds
    exchange key_order encry xor_bytes
encrypted_password = refl

user-IsKept : IsKept ascii ascii (codes "sa")
user-IsKept = record { clean = refl; bytes = omega arith; solid = refl; back = refl }

password-IsKept : IsKept ascii ascii (codes "pw")
password-IsKept = record { clean = refl; bytes = omega arith; solid = refl; back = refl }

load_system_ini-database_example : load_system_ini ascii ascii (some crm_file) no_settings ≡ (
  record (with_ports crm_file no_settings) {
    db_name = codes "crm";
    server = codes "db";
    port = (parse_int (codes "1500")).0;
    user = codes "sa";
    password = codes "pw";
  },
  false,
)
load_system_ini-database_example =
    load_system_ini-database ascii ascii crm_file no_settings (codes "db") (codes "1500")
      (codes "crm") (codes "sa") (codes "pw") refl (refl, (refl, tt))
      (refl, (refl, (refl, (refl, (refl, (refl, (refl, tt))))))) (refl, (refl, (refl, tt)))
      user-IsKept password-IsKept encrypted_user encrypted_password (λ e. cc e) (λ e. cc e)

abbrev open_file : File
open_file section key =
    if text_eq.beq key "File"
    then codes "db:crm"
    else if text_eq.beq key "UserName"
    then codes "admin"
    else []

default_port :
    parse_db_file (open_file "DataBase" "File")
    ≡ some (record { file_name = codes "crm"; file_server = codes "db"; file_port = pos 1433 })
unfolding parse_db_file
default_port = refl
