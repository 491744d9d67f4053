-- ===== src/Des/Hex.antt =====
-- encoding/hex and strings.ToUpper as common/des/soedes.go uses them, on bytes.
use soelib.Common.{
  ℕ, ◌+◌, ◌-◌, ◌*◌, ◌/◌, ◌%◌, ◌<◌, List, [], ◌∷◌, map, Option, none, some, Bool, true, false, ◌&&◌,
  if◌then◌else◌, ltb, leb, ◌==◌, All, check_below, check_below-true, ◌≡◌, refl, ap, arith, length,
}
use soelib.Des.Copying.{IsByte}

unfoldable pub hex_digit : ℕ → ℕ
hex_digit n = if ltb n 10 then b'0' + n else b'a' + (n - 10)

-- hex.EncodeToString: two lower-case digits for a byte.
unfoldable pub hex_encode : List ℕ → List ℕ
unfolding hex_digit
hex_encode [] = []
hex_encode (b ∷ bs) = hex_digit (b / 16) ∷ hex_digit (b % 16) ∷ hex_encode bs

-- strings.ToUpper on a text of ASCII characters.
unfoldable pub to_upper : ℕ → ℕ
to_upper c = if leb b'a' c && leb c b'z' then c - 32 else c

unfoldable pub from_hex_char : ℕ → Option ℕ
from_hex_char c =
    if leb b'0' c && leb c b'9'
    then some (c - b'0')
    else (if leb b'a' c && leb c b'f'
        then some (c - b'a' + 10)
        else (if leb b'A' c && leb c b'F' then some (c - b'A' + 10) else none))

abbrev pub both_digits : Option ℕ → Option ℕ → Option ℕ
both_digits (some h) (some l) = some (h * 16 + l)
both_digits _ _ = none

abbrev pub cons? : Option ℕ → Option (List ℕ) → Option (List ℕ)
cons? (some b) (some bs) = some (b ∷ bs)
cons? _ _ = none

-- hex.DecodeString; `none` is its error, a character that is no digit or an odd length.
unfoldable pub hex_decode : List ℕ → Option (List ℕ)
unfolding from_hex_char
hex_decode [] = some []
hex_decode (c ∷ []) = none
hex_decode (h ∷ l ∷ rest) =
    cons? (both_digits (from_hex_char h) (from_hex_char l)) (hex_decode rest)

abbrev is_some_of : Option ℕ → ℕ → Bool
is_some_of (some a) b = a == b
is_some_of none b = false

is_some_of_sound : (o : Option ℕ) (b : ℕ) → is_some_of o b ≡ true → o ≡ some b
is_some_of_sound o b h = ground arith

digit_table : check_below 16 (λ n. is_some_of (from_hex_char (to_upper (hex_digit n))) n) ≡ true
unfolding check_below from_hex_char to_upper hex_digit
digit_table = refl

from_hex_char-hex_digit : (n : ℕ) → n < 16 → from_hex_char (to_upper (hex_digit n)) ≡ some n
from_hex_char-hex_digit n h = is_some_of_sound _ n (
    check_below-true 16 (λ n. is_some_of (from_hex_char (to_upper (hex_digit n))) n) n digit_table
      h)

div_mod : (b : ℕ) → b / 16 * 16 + b % 16 ≡ b
div_mod b = omega arith

-- Decoding undoes encoding, in upper case.
pub hex_decode-hex_encode :
    (bs : List ℕ) → All IsByte bs → hex_decode (map to_upper (hex_encode bs)) ≡ some bs
unfolding hex_decode hex_encode
hex_decode-hex_encode [] h = refl
hex_decode-hex_encode (b ∷ bs) h =
    rw
      (
        from_hex_char-hex_digit (b / 16) (omega arith),
        from_hex_char-hex_digit (b % 16) (omega arith),
        hex_decode-hex_encode bs h.1,
      )
      (ap (λ (c : ℕ). some (c ∷ bs)) (div_mod b))

pub length-hex_encode : (bs : List ℕ) → length (hex_encode bs) ≡ 2 * length bs
unfolding hex_encode
length-hex_encode [] = refl
length-hex_encode (b ∷ bs) = omega (arith, length-hex_encode bs)
