-- ===== src/Bitmap/Bits.antt =====
-- The operations of common/bitmap/bitmap.go. Sizes are not negative.
use soelib.Common.{
  ℕ, zero, suc, ◌+◌, ◌-◌, ◌/◌, ◌%◌, ◌^◌, bit_and, bit_or, List, [], ◌∷◌, Bool, true, false, ◌||◌,
  if◌then◌else◌, ltb, ◌==◌, get_or, set, replicate,
}

pub record Bitmap : Type 0 where
  pub bytes : List ℕ
  pub bitsize : ℕ
  pub maxpos : ℕ

abbrev pub bitmap_size : ℕ
bitmap_size = 2 ^ 32

-- The size that is used for a wanted one.
abbrev pub rounded : ℕ → ℕ
rounded size =
    if size == 0 || ltb bitmap_size size
    then bitmap_size
    else (if size % 8 == 0 then size else size + (8 - size % 8))

unfoldable pub new_bitmap_size : ℕ → Bitmap
new_bitmap_size size = record {
  bytes = replicate (rounded size / 8) 0;
  bitsize = rounded size - 1;
  maxpos = 0;
}

-- `b &^ (1 << pos)` and `b | (1 << pos)` on a byte.
abbrev pub cleared : ℕ → ℕ → ℕ
cleared b pos = bit_and b (255 - 2 ^ pos)

abbrev pub raised : ℕ → ℕ → ℕ
raised b pos = bit_or b (2 ^ pos)

unfoldable pub set_bit : Bitmap → ℕ → ℕ → Bitmap × Bool
set_bit m offset value =
    let index = offset / 8 in
    let pos = offset % 8 in
    let byte = get_or m.bytes index 0 in
    if ltb m.bitsize offset
    then (m, false)
    else (if value == 0
        then (record m { bytes = set m.bytes index (cleared byte pos) }, true)
        else (
          record m {
            bytes = set m.bytes index (raised byte pos);
            maxpos = if ltb m.maxpos offset then offset else m.maxpos;
          },
          true,
        ))

-- Bit `pos` of a byte: `(b >> pos) & 1`.
abbrev pub bit_of : ℕ → ℕ → ℕ
bit_of b pos = bit_and (b / 2 ^ pos) 1

unfoldable pub get_bit : Bitmap → ℕ → ℕ
get_bit m offset =
    if ltb m.bitsize offset then 0 else bit_of (get_or m.bytes (offset / 8) 0) (offset % 8)

-- The loop of `costCount`, which takes off the lowest bit that is 1; eight rounds are enough for a
-- byte.
abbrev pub cost_loop : ℕ → ℕ → ℕ → ℕ
cost_loop zero v num = num
cost_loop (suc rounds) v num =
    let v' = bit_and v (v - 1) in
    let rest = cost_loop rounds v' (num + 1) in if v' == 0 then num + 1 else rest

unfoldable pub cost_count : ℕ → ℕ
cost_count v = if v == 0 then 0 else cost_loop 8 v 0

abbrev pub count_bytes : List ℕ → ℕ → ℕ
count_bytes [] num = num
count_bytes (b ∷ bs) num = count_bytes bs (num + cost_count b)

unfoldable pub count : Bitmap → ℕ
count m = count_bytes m.bytes 0
