-- ===== src/Des/Samples.antt =====
-- Runs of common/des at sample inputs.
use soelib.Common.{ℕ, List, [], ◌∷◌, map, some, ◌≡◌, refl, arith}
use soelib.Des.Block.{
  make_key, des_data, dm_encry, dm_decry, copy_bits, init_permutation, converse_permutation,
  des_round, des_rounds, exchange, key_order, encry, xor_bytes,
}
use soelib.Des.Inverse.{IsBlock}
use soelib.Des.Feistel.{des_data-IsBlock, des_data_decry-encry}
use soelib.Des.Hex.{hex_encode, hex_decode, to_upper, hex_decode-hex_encode}
use soelib.Des.Power.{power_encry_str, power_decry_str}
use soelib.Des.RoundTrip.{power_decry_str-power_encry_str}
use soelib.Des.Ecb.{returned, Cipher, entrypt_des_ecb, decrypt_desecb}
use soelib.Des.EcbLaws.{IsCipher, decrypt_desecb-entrypt_des_ecb}

abbrev sample_key : List ℕ
sample_key = 0x13 ∷ 0x34 ∷ 0x57 ∷ 0x79 ∷ 0x9b ∷ 0xbc ∷ 0xdf ∷ 0xf1 ∷ []

abbrev sample_block : List ℕ
sample_block = 0x01 ∷ 0x23 ∷ 0x45 ∷ 0x67 ∷ 0x89 ∷ 0xab ∷ 0xcd ∷ 0xef ∷ []

-- A published vector of DES.
des_data_vector :
    des_data dm_encry sample_block (make_key sample_key)
    ≡ 0x85 ∷ 0xe8 ∷ 0x13 ∷ 0x54 ∷ 0x0f ∷ 0x0a ∷ 0xb4 ∷ 0x05 ∷ []
unfolding des_data make_key copy_bits init_permutation converse_permutation des_round des_rounds
    exchange key_order encry xor_bytes
des_data_vector = refl

sample_block-IsBlock : IsBlock sample_block
sample_block-IsBlock = record { size = refl; bytes = omega arith }

des_data_decry-encry_example :
    des_data dm_decry (des_data dm_encry sample_block (make_key sample_key)) (make_key sample_key)
    ≡ sample_block
des_data_decry-encry_example =
    des_data_decry-encry sample_block (make_key sample_key) sample_block-IsBlock

hex_decode-hex_encode_example :
    hex_decode (map to_upper (hex_encode sample_block)) ≡ some sample_block
hex_decode-hex_encode_example = hex_decode-hex_encode sample_block (omega arith)

abbrev sample_text : List ℕ
sample_text = b'H' ∷ b'i' ∷ []

abbrev ascii : List ℕ → List ℕ
ascii text = text

power_decry_str-power_encry_str_example :
    (out : List ℕ) × (power_encry_str ascii ascii sample_text sample_key ≡ some out)
    × (power_decry_str ascii ascii out sample_key ≡ some sample_text)
power_decry_str-power_encry_str_example =
    power_decry_str-power_encry_str ascii ascii sample_key sample_text refl (omega arith) refl refl

-- The block cipher of soedes.go as the cipher, with one key.
abbrev sample_cipher : Cipher
sample_cipher = record {
  encrypt = λ xs. des_data dm_encry xs (make_key sample_key);
  decrypt = λ xs. des_data dm_decry xs (make_key sample_key);
}

sample_cipher-IsCipher : IsCipher sample_cipher
sample_cipher-IsCipher = record {
  size = λ xs e. (des_data-IsBlock dm_encry xs (make_key sample_key)).size;
  back = λ xs e b. des_data_decry-encry xs (make_key sample_key) (record { size = e; bytes = b });
}

plain : (t : List ℕ) → some t ≡ some t
plain t = refl

decrypt_desecb-entrypt_des_ecb_example :
    (out : List ℕ) × (entrypt_des_ecb (λ k. some sample_cipher) ascii some sample_text sample_key
      ≡ returned out)
    × (decrypt_desecb (λ k. some sample_cipher) ascii some out sample_key ≡ returned sample_text)
decrypt_desecb-entrypt_des_ecb_example =
    decrypt_desecb-entrypt_des_ecb (λ k. some sample_cipher) ascii some sample_text sample_key
      sample_cipher refl sample_cipher-IsCipher plain (omega arith)
