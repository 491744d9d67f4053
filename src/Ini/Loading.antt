-- ===== src/Ini/Loading.antt =====
-- What `LoadSystemIni` of common/ini makes of the database's keys.
use soelib.Common.{ℕ, List, [], ◌∷◌, ◌++◌, some, All, false, ◌≡◌, ◌≢◌, refl, sym, ap, ◌∙◌}
use soelib.KeyLock.Counting.{some-value}
use soelib.Common.Bytes.{codes, parse_int}
use soelib.Common.Pieces.{Without, cut_at-append, first_piece-append, second_piece-append}
use soelib.Des.Copying.{IsByte}
use soelib.Des.Power.{ends_in_zero, power_encry_str, power_des_key}
use soelib.Des.RoundTrip.{power_decry_str-power_encry_str}
use soelib.Ini.Settings.{
  Settings, DbFile, parse_db_file, with_name, File, decrypted, with_user, with_password,
  load_system_ini, with_ports,
}

parse_db_file-text :
    (server port name : List ℕ)
    → Without b',' server
    → Without b':' (server ++ b',' ∷ port)
    → Without b':' name
    → parse_db_file ((server ++ b',' ∷ port) ++ b':' ∷ name)
      ≡ some (record { file_name = name; file_server = server; file_port = (parse_int port).0 })
unfolding parse_db_file
parse_db_file-text server port name h k l =
    rw
      (
        second_piece-append b':' (server ++ b',' ∷ port) name k l,
        first_piece-append b':' (server ++ b',' ∷ port) name k,
        with_name,
        cut_at-append b',' server port h,
      )
      refl

-- A text that comes back after its encryption: it does not end in a zero byte, and its GBK form is made
-- of bytes, does not end in one either and decodes to it.
pub record IsKept (gbk_encode gbk_decode : List ℕ → List ℕ) (text : List ℕ) : Type 0 where
  pub clean : ends_in_zero text ≡ false
  pub bytes : All IsByte (gbk_encode text)
  pub solid : ends_in_zero (gbk_encode text) ≡ false
  pub back : gbk_decode (gbk_encode text) ≡ text

module _ (gbk_encode gbk_decode : List ℕ → List ℕ) where
  decrypted_lem :
      (text out : List ℕ)
      → IsKept gbk_encode gbk_decode text
      → power_encry_str gbk_encode gbk_decode text power_des_key ≡ some out
      → decrypted gbk_encode gbk_decode out ≡ text
  decrypted_lem text out h e =
      let r =
        power_decry_str-power_encry_str gbk_encode gbk_decode power_des_key text h.clean h.bytes
          h.solid h.back in
      rw (sym (some-value (sym r.1 ∙ e)), r.2) refl

  with_user-ne :
      (t : List ℕ) (s : Settings)
      → t ≢ []
      → with_user gbk_encode gbk_decode t s ≡ record s { user = decrypted gbk_encode gbk_decode t }
  with_user-ne [] s h = absurd (h refl)
  with_user-ne (c ∷ cs) s h = refl

  with_password-ne :
      (t : List ℕ) (s : Settings)
      → t ≢ []
      → with_password gbk_encode gbk_decode t s
        ≡ record s { password = decrypted gbk_encode gbk_decode t }
  with_password-ne [] s h = absurd (h refl)
  with_password-ne (c ∷ cs) s h = refl

  -- A file with `server,port:name` for the database, and with a user and a password that common/des
  -- has encrypted, gives these five.
  pub load_system_ini-database :
      (file : File) (s : Settings) (server port name user password : List ℕ)
      → file "DataBase" "File" ≡ (server ++ b',' ∷ port) ++ b':' ∷ name
      → Without b',' server
      → Without b':' (server ++ b',' ∷ port)
      → Without b':' name
      → IsKept gbk_encode gbk_decode user
      → IsKept gbk_encode gbk_decode password
      → power_encry_str gbk_encode gbk_decode user power_des_key ≡ some (file "DataBase" "UserName")
      → power_encry_str gbk_encode gbk_decode password power_des_key
        ≡ some (file "DataBase" "Password")
      → file "DataBase" "UserName" ≢ []
      → file "DataBase" "Password" ≢ []
      → load_system_ini gbk_encode gbk_decode (some file) s ≡ (
        record (with_ports file s) {
          db_name = name;
          server = server;
          port = (parse_int port).0;
          user = user;
          password = password;
        },
        false,
      )
  unfolding load_system_ini
  load_system_ini-database file s server port name user password text h k l u p eu ep nu np =
      let d : DbFile = record {
        file_name = name;
        file_server = server;
        file_port = (parse_int port).0;
      } in
      rw (text, parse_db_file-text server port name h k l)
        (ap (λ (t : Settings). (t, false))
          (with_password-ne _ _ np
            ∙ ap
                (λ (t : Settings). record t {
                  password = decrypted gbk_encode gbk_decode (file "DataBase" "Password");
                })
                (with_user-ne _ _ nu)
            ∙ rw (decrypted_lem user _ u eu, decrypted_lem password _ p ep) refl))

  -- Without a password the user is "soesoft", whatever the file has for it, and the password is empty.
  pub load_system_ini-no_password :
      (file : File) (s : Settings) (d : DbFile)
      → parse_db_file (file "DataBase" "File") ≡ some d
      → file "DataBase" "Password" ≡ []
      → ((load_system_ini gbk_encode gbk_decode (some file) s).0.user ≡ codes "soesoft")
        × ((load_system_ini gbk_encode gbk_decode (some file) s).0.password ≡ [])
  unfolding load_system_ini
  load_system_ini-no_password file s d parsed empty = rw (parsed, empty) (refl, refl)
