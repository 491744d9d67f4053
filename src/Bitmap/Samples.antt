-- ===== src/Bitmap/Samples.antt =====
-- Runs of the model of common/bitmap, and the theorems about it at a sample bitmap.
use soelib.Common.{[], ◌∷◌, false, ◌&&◌, if◌then◌else◌, leb, ◌==◌, ◌≡◌, refl, arith}
use soelib.Bitmap.Bits.{Bitmap, new_bitmap_size, set_bit, get_bit, count, cost_count}
use soelib.Bitmap.Laws.{IsWellFormed, get_bit-set_bit, sum_bits, count-sum_bits}

-- The numbers 0, 2 and 9, in two bytes.
abbrev sample : Bitmap
sample = record { bytes = 5 ∷ 2 ∷ []; bitsize = 15; maxpos = 9 }

sample-IsWellFormed : IsWellFormed sample
sample-IsWellFormed = record { size = refl; small = omega arith }

sample_run : (set_bit (set_bit (set_bit (new_bitmap_size 10) 2 1).0 9 1).0 0 7).0 ≡ sample
unfolding new_bitmap_size set_bit
sample_run = refl

out_of_range : (set_bit sample 16 1).1 ≡ false
unfolding set_bit
out_of_range = refl

ones_run : count sample ≡ 3
unfolding count cost_count
ones_run = refl

get_bit-set_bit_example :
    get_bit (set_bit sample 9 0).0 2
    ≡ (if 9 == 2 && leb 9 sample.bitsize then (if 0 == 0 then 0 else 1) else get_bit sample 2)
get_bit-set_bit_example = get_bit-set_bit sample 9 0 2 sample-IsWellFormed

count-sum_bits_example : count sample ≡ sum_bits sample.bytes
count-sum_bits_example = count-sum_bits sample sample-IsWellFormed
