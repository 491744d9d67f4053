-- ===== src/Des/RoundTrip.antt =====
-- Decryption of a text undoes its encryption (`PowerEncryStr` and `PowerDecryStr` of
-- common/des/soedes.go).
use mathlib.Core.Option
use soelib.Common.{
  ℕ, ◌+◌, ◌*◌, ◌/◌, ◌%◌, ◌≤◌, ◌<◌, List, map, Option, none, some, true, false, length, All,
  length-map, ◌≡◌, ap, ◌∙◌, arith,
}
use soelib.Des.Block.{dm_encry, dm_decry, make_key}
use soelib.Des.Copying.{IsByte}
use soelib.Des.Hex.{hex_encode, to_upper, hex_decode-hex_encode, length-hex_encode}
use soelib.Des.Loops.{
  zeros_after, missing, length-zeros_after, zeros_after-IsByte, pad_zeros-eq,
  trim_zeros-zeros_after, length-crypt_blocks, crypt_blocks-IsByte, crypt_blocks_decry-encry,
}
use soelib.Des.Power.{
  ends_in_zero, key_bytes, crypt_blocks, trim_zeros, encry_str, decry_str, power_encry_str,
  power_decry_str,
}

module _ (gbk_encode gbk_decode : List ℕ → List ℕ) (akey : List ℕ) where
  -- What the encryption returns: the blocks of the padded text.
  pub cipher : List ℕ → List ℕ
  cipher bytes =
      let padded = zeros_after bytes (missing (length bytes)) in
      crypt_blocks dm_encry (make_key (key_bytes akey)) (length padded / 8) padded

  length-padded :
      (bytes : List ℕ)
      → length (zeros_after bytes (missing (length bytes))) ≡ length bytes + missing (length bytes)
  length-padded bytes = length-zeros_after bytes (missing (length bytes))

  pub length-cipher :
      (bytes : List ℕ) → length (cipher bytes) ≡ length bytes + missing (length bytes)
  unfolding cipher
  length-cipher bytes = omega (
    arith,
    length-crypt_blocks dm_encry (make_key (key_bytes akey)) _
        (zeros_after bytes (missing (length bytes))),
    length-padded bytes,
  )

  pub encry_str-cipher :
      (text : List ℕ)
      → ends_in_zero text ≡ false
      → encry_str gbk_encode gbk_decode text akey ≡ some (cipher (gbk_encode text))
  unfolding encry_str cipher
  encry_str-cipher text clean = rw (clean, pad_zeros-eq 7 (gbk_encode text) (omega arith))

  pub decry_str-cipher :
      (bytes : List ℕ)
      → All IsByte bytes
      → ends_in_zero bytes ≡ false
      → decry_str gbk_encode gbk_decode (cipher bytes) akey ≡ some (gbk_decode bytes)
  unfolding decry_str cipher
  decry_str-cipher bytes small clean =
      ap (λ (n : ℕ). finish (crypt_blocks dm_decry keys n (cipher bytes))) same_count
      ∙ ap finish (
          crypt_blocks_decry-encry keys (length padded / 8) padded whole
            (zeros_after-IsByte bytes (missing (length bytes)) small))
      ∙ ap (λ (t : List ℕ). some (gbk_decode t))
          (trim_zeros-zeros_after (missing (length bytes)) (length padded) bytes clean enough)
    where
      keys : List (List ℕ)
      keys = make_key (key_bytes akey)

      padded : List ℕ
      padded = zeros_after bytes (missing (length bytes))

      finish : List ℕ → Option (List ℕ)
      finish buf = some (gbk_decode (trim_zeros (length buf) buf))

      whole : length padded ≡ 8 * (length padded / 8)
      whole = omega (arith, length-padded bytes)

      same_count : length (cipher bytes) / 8 ≡ length padded / 8
      same_count = omega (arith, length-crypt_blocks dm_encry keys (length padded / 8) padded)

      enough : missing (length bytes) ≤ length padded
      enough = omega (arith, length-padded bytes)

  cipher-IsByte : (bytes : List ℕ) → All IsByte (cipher bytes)
  unfolding cipher
  cipher-IsByte bytes = crypt_blocks-IsByte dm_encry (make_key (key_bytes akey)) _ _

  -- A text that passes the check on its last byte is encrypted, and decrypting the result gives the
  -- text back, if its GBK form is made of bytes, does not end in a zero byte and decodes to the text.
  pub power_decry_str-power_encry_str :
      (text : List ℕ)
      → ends_in_zero text ≡ false
      → All IsByte (gbk_encode text)
      → ends_in_zero (gbk_encode text) ≡ false
      → gbk_decode (gbk_encode text) ≡ text
      → (out : List ℕ) × (power_encry_str gbk_encode gbk_decode text akey ≡ some out)
        × (power_decry_str gbk_encode gbk_decode out akey ≡ some text)
  unfolding power_encry_str power_decry_str Option.bind
  power_decry_str-power_encry_str text clean small solid back =
      let bytes = gbk_encode text in
      (
        map to_upper (hex_encode (cipher bytes)),
        rw (encry_str-cipher text clean),
        rw (hex_decode-hex_encode (cipher bytes) (cipher-IsByte bytes))
            (decry_str-cipher bytes small solid ∙ ap some back),
      )

  -- A text that ends in a zero byte is refused.
  pub power_encry_str-none :
      (text : List ℕ)
      → ends_in_zero text ≡ true
      → power_encry_str gbk_encode gbk_decode text akey ≡ none
  unfolding power_encry_str encry_str
  power_encry_str-none text e = rw e

  length-hex_cipher :
      (bytes : List ℕ)
      → length (map to_upper (hex_encode (cipher bytes)))
        ≡ 2 * (length bytes + missing (length bytes))
  length-hex_cipher bytes =
      length-map to_upper (hex_encode (cipher bytes))
      ∙ length-hex_encode (cipher bytes)
      ∙ ap (λ (n : ℕ). 2 * n) (length-cipher bytes)

  -- A text that passes the check on its last byte is encrypted to a text of two digits for each
  -- byte of the GBK form, filled up to a multiple of eight bytes.
  pub length-power_encry_str :
      (text : List ℕ)
      → ends_in_zero text ≡ false
      → (out : List ℕ) × (power_encry_str gbk_encode gbk_decode text akey ≡ some out)
        × (length out % 16 ≡ 0)
        × (2 * length (gbk_encode text) ≤ length out)
        × (length out < 2 * length (gbk_encode text) + 16)
  unfolding power_encry_str
  length-power_encry_str text clean =
      let bytes = gbk_encode text in
      let h = length-hex_cipher bytes in
      (
        map to_upper (hex_encode (cipher bytes)),
        rw (encry_str-cipher text clean),
        omega (arith, h),
        omega (arith, h),
        omega (arith, h),
      )
