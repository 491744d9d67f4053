-- ===== src/Des/EcbLaws.antt =====
-- Padding and encryption of common/des/des.go undone.
use native.Mathlib.Nat.{mod-lt}
use soelib.Common.{
  ℕ, zero, suc, ◌+◌, ◌-◌, ◌*◌, ◌/◌, ◌%◌, ◌≤◌, ◌<◌, List, [], ◌∷◌, ◌++◌, Option, some, false, true,
  ltb, ◌==◌, length, get_or, take, drop, replicate, length-append, length-replicate, length-take,
  length-drop, take-append_eq, drop-append_eq, take-append-drop, All, All-take, All-drop,
  All-append, All-replicate, ◌≡◌, refl, ap, ap₂, ◌∙◌, arith,
}
use soelib.Des.Copying.{IsByte}
use soelib.Des.Ecb.{
  returned, Cipher, pkcs5_padding, pkcs5_un_padding, ecb_blocks, cut_key, entrypt_des_ecb,
  decrypt_desecb,
}

get_or-replicate : (n i v : ℕ) → i < n → get_or (replicate n v) i 0 ≡ v
get_or-replicate zero i v h = absurd (omega arith)
get_or-replicate (suc n) zero v h = refl
get_or-replicate (suc n) (suc i) v h = get_or-replicate n i v (omega arith)

get_or-append_right : (xs ys : List ℕ) (i : ℕ) → get_or (xs ++ ys) (length xs + i) 0 ≡ get_or ys i 0
get_or-append_right [] ys i = ap (λ (j : ℕ). get_or ys j 0) (omega arith)
get_or-append_right (x ∷ xs) ys i =
    ap (λ (j : ℕ). get_or (x ∷ xs ++ ys) j 0)
      (let e : length (x ∷ xs) + i ≡ suc (length xs + i) = omega arith in e)
    ∙ get_or-append_right xs ys i

padded-IsByte : (xs : List ℕ) → All IsByte xs → All IsByte (pkcs5_padding xs 8)
unfolding pkcs5_padding
padded-IsByte xs h =
    let p = 8 - length xs % 8 in
    All-append IsByte xs (replicate p (p % 256)) h (All-replicate IsByte p (p % 256) (omega arith))

length-pkcs5_padding :
    (xs : List ℕ) (b : ℕ) → length (pkcs5_padding xs b) ≡ length xs + (b - length xs % b)
unfolding pkcs5_padding
length-pkcs5_padding xs b =
    let p = b - length xs % b in
    omega (arith, length-append xs (replicate p (p % 256)), length-replicate p (p % 256))

un_padding-append :
    (xs : List ℕ) (p : ℕ)
    → 1 ≤ p
    → p < 256
    → pkcs5_un_padding (xs ++ replicate p (p % 256)) ≡ returned xs
unfolding pkcs5_un_padding
un_padding-append xs p pos small = rw last (
    rw (not_zero, not_more)
      (ap returned (take-append_eq (length ys - p) xs pad (omega (arith, size)))))
  where
    pad : List ℕ
    pad = replicate p (p % 256)

    ys : List ℕ
    ys = xs ++ pad

    size : length ys ≡ length xs + p
    size = omega (arith, length-append xs pad, length-replicate p (p % 256))

    last : get_or ys (length ys - 1) 0 ≡ p
    last =
        ap (λ (j : ℕ). get_or ys j 0)
          (let e : length ys - 1 ≡ length xs + (p - 1) = omega (arith, size) in e)
        ∙ get_or-append_right xs pad (p - 1)
        ∙ get_or-replicate p (p - 1) (p % 256) (omega arith)
        ∙ omega arith

    not_zero : (length ys == 0) ≡ false
    not_zero = ground (arith, size)

    not_more : ltb (length ys) p ≡ false
    not_more = ground (arith, size)

-- The padding of a text is taken off again, if the block size is positive and fits a byte.
pub pkcs5_un_padding-pkcs5_padding :
    (xs : List ℕ) (b : ℕ) → 1 ≤ b → b < 256 → pkcs5_un_padding (pkcs5_padding xs b) ≡ returned xs
unfolding pkcs5_padding
pkcs5_un_padding-pkcs5_padding xs b pos small =
    un_padding-append xs (b - length xs % b) (omega (arith, mod-lt (length xs) pos)) (omega arith)

-- A cipher of blocks of eight bytes whose decryption undoes its encryption.
pub record IsCipher (c : Cipher) : Type 0 where
  pub size : (xs : List ℕ) → length xs ≡ 8 → length (c.encrypt xs) ≡ 8
  pub back : (xs : List ℕ) → length xs ≡ 8 → All IsByte xs → c.decrypt (c.encrypt xs) ≡ xs

length-ecb_blocks :
    (c : Cipher) (n : ℕ) (xs : List ℕ)
    → IsCipher c
    → length xs ≡ 8 * n
    → length (ecb_blocks c.encrypt n xs) ≡ 8 * n
unfolding ecb_blocks
length-ecb_blocks c zero xs h size = refl
length-ecb_blocks c (suc n) xs h size = omega (
  arith,
  length-append (c.encrypt (take 8 xs)) (ecb_blocks c.encrypt n (drop 8 xs)),
  h.size (take 8 xs) (omega (arith, length-take 8 xs)),
  length-ecb_blocks c n (drop 8 xs) h (omega (arith, length-drop 8 xs)),
)

ecb_blocks_decrypt-encrypt :
    (c : Cipher) (n : ℕ) (xs : List ℕ)
    → IsCipher c
    → length xs ≡ 8 * n
    → All IsByte xs
    → ecb_blocks c.decrypt n (ecb_blocks c.encrypt n xs) ≡ xs
unfolding ecb_blocks
ecb_blocks_decrypt-encrypt c zero [] h size bytes = refl
ecb_blocks_decrypt-encrypt c zero (x ∷ xs) h size bytes = absurd (omega arith)
ecb_blocks_decrypt-encrypt c (suc n) xs h size bytes =
    let block = c.encrypt (take 8 xs) in
    let rest = ecb_blocks c.encrypt n (drop 8 xs) in
    let full : length (take 8 xs) ≡ 8 = omega (arith, length-take 8 xs) in
    let eight = h.size (take 8 xs) full in
    ap₂ (λ (a : List ℕ) (r : List ℕ). c.decrypt a ++ ecb_blocks c.decrypt n r)
      (take-append_eq 8 block rest eight) (drop-append_eq 8 block rest eight)
    ∙ ap₂ ◌++◌ (h.back (take 8 xs) full (All-take IsByte 8 xs bytes)) (
        ecb_blocks_decrypt-encrypt c n (drop 8 xs) h (omega (arith, length-drop 8 xs))
          (All-drop IsByte 8 xs bytes))
    ∙ take-append-drop 8 xs

-- What is encrypted with a key is decrypted with it to the same text of bytes, if the cipher exists
-- for the key, its decryption undoes its encryption, and base64 decodes what it encodes.
pub decrypt_desecb-entrypt_des_ecb :
    (new_cipher : List ℕ → Option Cipher) (base64_encode : List ℕ → List ℕ)
    (base64_decode : List ℕ → Option (List ℕ)) (xs key : List ℕ) (c : Cipher)
    → new_cipher (cut_key key) ≡ some c
    → IsCipher c
    → ((t : List ℕ) → base64_decode (base64_encode t) ≡ some t)
    → All IsByte xs
    → (out : List ℕ) × (entrypt_des_ecb new_cipher base64_encode base64_decode xs key
        ≡ returned out)
      × (decrypt_desecb new_cipher base64_encode base64_decode out key ≡ returned xs)
unfolding entrypt_des_ecb decrypt_desecb
decrypt_desecb-entrypt_des_ecb new_cipher enc dec xs key c found h back bytes =
    let padded = pkcs5_padding xs 8 in
    let n = length padded / 8 in
    let whole : length padded ≡ 8 * n = omega (arith, length-pkcs5_padding xs 8) in
    let sealed = ecb_blocks c.encrypt n padded in
    let size = length-ecb_blocks c n padded h whole in
    let fits : (length padded % 8 == 0) ≡ true = ground (arith, whole) in
    let fits' : (length sealed % 8 == 0) ≡ true = ground (arith, size) in
    let count : length sealed / 8 ≡ n = omega (arith, size) in
    (
      enc sealed,
      rw (found, fits) refl,
      rw (back sealed, found, fits', count)
          (ap pkcs5_un_padding
              (ecb_blocks_decrypt-encrypt c n padded h whole (padded-IsByte xs bytes))
            ∙ pkcs5_un_padding-pkcs5_padding xs 8 (omega arith) (omega arith)),
    )
