-- ===== src/Utils/WordBitmap.antt =====
-- The bitmap of words of common/utils/bitmap.go. A number may be negative: Go's division rounds to 0,
-- and the conversion of a negative remainder to a uint is a shift that leaves nothing.
use soelib.Common.{
  ℕ, suc, ◌-◌, ◌/◌, ◌%◌, ◌^◌, bit_and, bit_or, List, [], ◌++◌, Option, none, some, Bool, not, ◌&&◌,
  ltb, ◌==◌, if◌then◌else◌, length, get_or, set, replicate,
}
use soelib.Common.Int.{ℤ, pos, negsuc}

pub record WordBitmap : Type 0 where
  pub words : List ℕ
  pub size : ℕ

unfoldable pub new_bitmap : WordBitmap
new_bitmap = record { words = []; size = 0 }

-- `num/64`
abbrev pub word_of : ℤ → ℤ
word_of (pos n) = pos (n / 64)
word_of (negsuc n) = if suc n / 64 == 0 then pos 0 else negsuc (suc n / 64 - 1)

-- `1 << uint(num%64)`
abbrev pub mask_of : ℤ → ℕ
mask_of (pos n) = 2 ^ (n % 64)
mask_of (negsuc n) = if suc n % 64 == 0 then 1 else 0

abbrev pub has_at : WordBitmap → ℤ → ℕ → Option Bool
has_at b (negsuc w) mask = none
has_at b (pos w) mask =
    some (ltb w (length b.words) && not (bit_and (get_or b.words w 0) mask == 0))

-- None is the panic of an index out of range.
unfoldable pub has : WordBitmap → ℤ → Option Bool
has b num = has_at b (word_of num) (mask_of num)

-- The loop that appends words of 0 up to a place.
abbrev pub grown : List ℕ → ℕ → List ℕ
grown words w = words ++ replicate (suc w - length words) 0

abbrev pub add_mask : WordBitmap → List ℕ → ℕ → ℕ → WordBitmap
add_mask b words w mask =
    if bit_and (get_or words w 0) mask == 0
    then record { words = set words w (bit_or (get_or words w 0) mask); size = suc b.size }
    else record { words = words; size = b.size }

abbrev pub add_at : WordBitmap → ℤ → ℕ → Option WordBitmap
add_at b (negsuc w) mask = none
add_at b (pos w) mask = some (add_mask b (grown b.words w) w mask)

unfoldable pub add : WordBitmap → ℤ → Option WordBitmap
add b num = add_at b (word_of num) (mask_of num)
