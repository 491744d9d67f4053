-- ===== src/Des/Power.antt =====
-- `PowerDes` of common/des/soedes.go on whole texts. A text is its list of bytes. The GBK encoder
-- and decoder of the mahonia package are parameters. `none` is a returned error (with the text "").
use soelib.Common.{
  ℕ, zero, suc, ◌-◌, ◌/◌, ◌%◌, List, [], ◌∷◌, ◌++◌, map, Option, none, some, Bool, ◌&&◌,
  if◌then◌else◌, ltb, ◌==◌, length, get_or, take, drop,
}
use mathlib.Core.Option
use soelib.Des.Block.{DesMode, dm_encry, dm_decry, make_key, des_data}
use soelib.Des.Hex.{hex_encode, hex_decode, to_upper}

-- `(len(a) > 0) && a[len(a)-1] == 0`
abbrev pub ends_in_zero : List ℕ → Bool
ends_in_zero a = ltb 0 (length a) && get_or a (length a - 1) 0 == 0

-- `for { if Len() > 8 { break }; WriteByte(0) }`: nine rounds are enough from any length.
unfoldable pub grow_key : ℕ → List ℕ → List ℕ
grow_key zero key = key
grow_key (suc rounds) key =
    let rest = grow_key rounds (key ++ 0 ∷ []) in if ltb 8 (length key) then key else rest

-- The eight bytes of `keyByte`.
unfoldable pub key_bytes : List ℕ → List ℕ
key_bytes akey = take 8 (if ltb (length akey) 8 then grow_key 9 akey else akey)

-- `for { if len%8 == 0 { break }; append 0 }`: seven rounds are enough.
unfoldable pub pad_zeros : ℕ → List ℕ → List ℕ
pad_zeros zero buff = buff
pad_zeros (suc rounds) buff =
    let rest = pad_zeros rounds (buff ++ 0 ∷ []) in if length buff % 8 == 0 then buff else rest

-- The loop over the blocks of eight bytes, `count` of them.
unfoldable pub crypt_blocks : DesMode → List (List ℕ) → ℕ → List ℕ → List ℕ
crypt_blocks mode sub_key zero buff = []
crypt_blocks mode sub_key (suc count) buff =
    des_data mode (take 8 buff) sub_key ++ crypt_blocks mode sub_key count (drop 8 buff)

-- The loop that drops zero bytes from the end; as many rounds as there are bytes are enough.
unfoldable pub trim_zeros : ℕ → List ℕ → List ℕ
trim_zeros zero buf = buf
trim_zeros (suc rounds) buf =
    let rest = trim_zeros rounds (take (length buf - 1) buf) in
    if ends_in_zero buf then rest else buf

-- The key of the package's own `EncryStr` and `DecryStr`: "power".
abbrev pub power_des_key : List ℕ
power_des_key = b'p' ∷ b'o' ∷ b'w' ∷ b'e' ∷ b'r' ∷ []

module _ (gbk_encode gbk_decode : List ℕ → List ℕ) where
  unfoldable pub encry_str : List ℕ → List ℕ → Option (List ℕ)
  encry_str a_str akey =
      if ends_in_zero a_str
      then none
      else (let buff = pad_zeros 7 (gbk_encode a_str) in
          some (crypt_blocks dm_encry (make_key (key_bytes akey)) (length buff / 8) buff))

  unfoldable pub decry_str : List ℕ → List ℕ → Option (List ℕ)
  decry_str a_str akey =
      let buf = crypt_blocks dm_decry (make_key (key_bytes akey)) (length a_str / 8) a_str in
      some (gbk_decode (trim_zeros (length buf) buf))

  unfoldable pub power_encry_str : List ℕ → List ℕ → Option (List ℕ)
  power_encry_str a_str akey =
      Option.map (λ out. map to_upper (hex_encode out)) (encry_str a_str akey)

  unfoldable pub power_decry_str : List ℕ → List ℕ → Option (List ℕ)
  power_decry_str a_str akey = Option.bind (hex_decode a_str) (λ buf. decry_str buf akey)

  unfoldable pub encry_default : List ℕ → Option (List ℕ)
  encry_default a_str = power_encry_str a_str power_des_key

  unfoldable pub decry_default : List ℕ → Option (List ℕ)
  decry_default a_str = power_decry_str a_str power_des_key
