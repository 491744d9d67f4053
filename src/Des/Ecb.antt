-- ===== src/Des/Ecb.antt =====
-- common/des/des.go: DES in ECB mode with PKCS#5 padding. The cipher (crypto/des) and the base64
-- encoding are parameters. The text "" that is returned after an error is `failed`, and an index or
-- a slice out of range is `panicked`.
use soelib.Common.{
  ℕ, zero, suc, ◌-◌, ◌/◌, ◌%◌, List, [], ◌++◌, Option, none, some, if◌then◌else◌, ltb, ◌==◌, length,
  get_or, take, drop, replicate,
}
use soelib.Common.Bytes.{codes}

-- `DesKey`.
abbrev pub des_key : List ℕ
des_key = codes "www.soe.xin"

pub data Result : Type 0 where
  returned : List ℕ → Result
  failed panicked : Result

-- What `des.NewCipher` returns.
pub record Cipher : Type 0 where
  pub encrypt : List ℕ → List ℕ
  pub decrypt : List ℕ → List ℕ

-- `byte(padding)` wraps around.
unfoldable pub pkcs5_padding : List ℕ → ℕ → List ℕ
pkcs5_padding ciphertext block_size =
    let padding = block_size - length ciphertext % block_size in
    ciphertext ++ replicate padding (padding % 256)

unfoldable pub pkcs5_un_padding : List ℕ → Result
pkcs5_un_padding orig_data =
    let n = length orig_data in
    let unpadding = get_or orig_data (n - 1) 0 in
    if n == 0
    then panicked
    else (if ltb n unpadding then panicked else returned (take (n - unpadding) orig_data))

-- The loop over the blocks of eight bytes, `count` of them.
unfoldable pub ecb_blocks : (List ℕ → List ℕ) → ℕ → List ℕ → List ℕ
ecb_blocks crypt zero text = []
ecb_blocks crypt (suc count) text = crypt (take 8 text) ++ ecb_blocks crypt count (drop 8 text)

-- The first eight bytes of a longer key.
abbrev pub cut_key : List ℕ → List ℕ
cut_key key = if ltb 8 (length key) then take 8 key else key

module _ (new_cipher : List ℕ → Option Cipher) (base64_encode : List ℕ → List ℕ)
    (base64_decode : List ℕ → Option (List ℕ)) where
  abbrev pub encrypt_with : List ℕ → Option Cipher → Result
  encrypt_with text none = failed
  encrypt_with text (some c) =
      let padded = pkcs5_padding text 8 in
      if length padded % 8 == 0
      then returned (base64_encode (ecb_blocks c.encrypt (length padded / 8) padded))
      else failed

  unfoldable pub entrypt_des_ecb : List ℕ → List ℕ → Result
  entrypt_des_ecb text key = encrypt_with text (new_cipher (cut_key key))

  abbrev pub decrypt_with : List ℕ → Option Cipher → Result
  decrypt_with text none = failed
  decrypt_with text (some c) =
      if length text % 8 == 0
      then pkcs5_un_padding (ecb_blocks c.decrypt (length text / 8) text)
      else failed

  abbrev pub decrypt_decoded : List ℕ → Option (List ℕ) → Result
  decrypt_decoded key none = failed
  decrypt_decoded key (some text) = decrypt_with text (new_cipher (cut_key key))

  unfoldable pub decrypt_desecb : List ℕ → List ℕ → Result
  decrypt_desecb d key = decrypt_decoded key (base64_decode d)
