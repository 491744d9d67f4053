-- ===== src/Bitmap/Laws.antt =====
-- What the operations of common/bitmap do to the set of numbers that a bitmap is.
use native.Mathlib.Decide.{ℕ_discrete}
use soelib.Common.{
  ℕ, ◌+◌, ◌*◌, ◌/◌, ◌%◌, ◌≤◌, ◌<◌, List, [], ◌∷◌, Bool, true, false, ◌&&◌, if◌then◌else◌, ltb, leb,
  ◌==◌, Bool-cases, get_or, set, length, length-set, length-replicate, All, All-set, All-get_or,
  All-replicate, get_or-set_self, get_or-set_ne, check_below, check_below-true, inl, inr, ◌≡◌, ◌≢◌,
  refl, sym, ap, ◌∙◌, arith,
}
use soelib.Bitmap.Bits.{
  Bitmap, rounded, new_bitmap_size, set_bit, get_bit, cleared, raised, bit_of, count, count_bytes,
  cost_count,
}
use soelib.Bitmap.Bytes.{bit_of-raised, bit_of-cleared, ones, cost_count-ones}

-- The bytes are bytes and have just the bits up to the last position.
pub record IsWellFormed (m : Bitmap) : Type 0 where
  pub size : 8 * length m.bytes ≡ m.bitsize + 1
  pub small : All (λ b. b < 256) m.bytes

small_changes :
    check_below 256 (λ b. check_below 8 (λ j. ltb (raised b j) 256 && ltb (cleared b j) 256)) ≡ true
unfolding check_below
small_changes = refl

changes_small : (b j : ℕ) → b < 256 → j < 8 → (ltb (raised b j) 256 && ltb (cleared b j) 256) ≡ true
changes_small b j hb hj =
    check_below-true 8 (λ j. ltb (raised b j) 256 && ltb (cleared b j) 256) j
      (check_below-true 256
        (λ b. check_below 8 (λ j. ltb (raised b j) 256 && ltb (cleared b j) 256)) b small_changes
        hb)
      hj

-- A new bitmap is well formed, whatever size is wanted.
pub new_bitmap_size-IsWellFormed : (n : ℕ) → IsWellFormed (new_bitmap_size n)
unfolding new_bitmap_size
new_bitmap_size-IsWellFormed n = record {
  size = omega (arith, length-replicate {A = ℕ} (rounded n / 8) 0, whole);
  small = All-replicate (λ b. b < 256) (rounded n / 8) 0 (omega arith);
}
  where
    whole : (8 * (rounded n / 8) ≡ rounded n) × (1 ≤ rounded n)
    whole = ground arith

byte-small : (m : Bitmap) (i : ℕ) → IsWellFormed m → get_or m.bytes i 0 < 256
byte-small m i w = All-get_or (λ b. b < 256) m.bytes i 0 (omega arith) w.small

-- A bitmap with one byte changed.
abbrev changed : Bitmap → ℕ → ℕ → Bitmap
changed m i b = record m { bytes = set m.bytes i b }

get_bit-set :
    (m : Bitmap) (offset other v d : ℕ)
    → IsWellFormed m
    → offset ≤ m.bitsize
    → ((k : ℕ)
        → k < 8
        → bit_of v k ≡ (if offset % 8 == k then d else bit_of (get_or m.bytes (offset / 8) 0) k))
    → bit_of (get_or (set m.bytes (offset / 8) v) (other / 8) 0) (other % 8)
      ≡ (if offset == other then d else bit_of (get_or m.bytes (other / 8) 0) (other % 8))
get_bit-set m offset other v d w le same = elim (ℕ_discrete (offset / 8) (other / 8)) [
  | yes e ↦ rw (sym e) (
      rw (get_or-set_self m.bytes (offset / 8) v 0 (omega (arith, w.size))) (
        same (other % 8) (omega arith)
        ∙ ap (λ (t : Bool). if t then d else bit_of (get_or m.bytes (offset / 8) 0) (other % 8))
            (same_test e)))
  | no ne ↦ rw (get_or-set_ne m.bytes (offset / 8) (other / 8) v 0 ne, other_test ne) refl
]
  where
    same_test : offset / 8 ≡ other / 8 → (offset % 8 == other % 8) ≡ (offset == other)
    same_test e = ground (arith, e)

    other_test : offset / 8 ≢ other / 8 → (offset == other) ≡ false
    other_test ne = ground (arith, ap (λ (x : ℕ). x / 8) {x = offset} {y = other})

-- Changing a bit keeps a bitmap well formed.
pub set_bit-IsWellFormed :
    (m : Bitmap) (offset value : ℕ) → IsWellFormed m → IsWellFormed (set_bit m offset value).0
unfolding set_bit
set_bit-IsWellFormed m offset value w = elim (Bool-cases (ltb m.bitsize offset)) [
  | inl out ↦ rw out w
  | inr in_range ↦ elim (Bool-cases (value == 0)) [
    | inl zero_value ↦ rw (in_range, zero_value) (resized (cleared byte pos) (ground (arith, fits)))
    | inr one ↦
        rw (in_range, one)
          (let r = resized (raised byte pos) (ground (arith, fits)) in
            record { size = r.size; small = r.small })
  ]
]
  where
    byte : ℕ
    byte = get_or m.bytes (offset / 8) 0

    pos : ℕ
    pos = offset % 8

    fits : (ltb (raised byte pos) 256 && ltb (cleared byte pos) 256) ≡ true
    fits = changes_small byte pos (byte-small m (offset / 8) w) (omega arith)

    resized : (v : ℕ) → v < 256 → IsWellFormed (changed m (offset / 8) v)
    resized v lt = record {
      size = omega (arith, w.size, length-set m.bytes (offset / 8) v);
      small = All-set (λ b. b < 256) m.bytes (offset / 8) v lt w.small;
    }

-- What a bit of a well-formed bitmap is after a bit was set: the new value at the offset that was
-- set, if that is in range, and the old value elsewhere.
pub get_bit-set_bit :
    (m : Bitmap) (offset value other : ℕ)
    → IsWellFormed m
    → get_bit (set_bit m offset value).0 other ≡ (
        if offset == other && leb offset m.bitsize
        then (if value == 0 then 0 else 1)
        else get_bit m other)
unfolding set_bit get_bit
get_bit-set_bit m offset value other w = elim (Bool-cases (ltb m.bitsize offset)) [
  | inl out ↦
      let skip : (offset == other && leb offset m.bitsize) ≡ false = ground arith in
      rw (skip, out) refl
  | inr in_range ↦ elim (Bool-cases (ltb m.bitsize other)) [
    | inl beyond ↦
        let skip : (offset == other && leb offset m.bitsize) ≡ false = ground arith in
        elim (Bool-cases (value == 0)) [
          | inl z ↦ rw (skip, in_range, z, beyond) refl
          | inr z ↦ rw (skip, in_range, z, beyond) refl
        ]
    | inr within ↦
        let here : (offset == other && leb offset m.bitsize) ≡ (offset == other) = ground arith in
        let le : offset ≤ m.bitsize = ground arith in
        elim (Bool-cases (value == 0)) [
          | inl z ↦
              rw (here, in_range, z, within)
                (get_bit-set m offset other (cleared byte pos) 0 w le (λ k lt.
                  bit_of-cleared byte pos k (byte-small m (offset / 8) w) (omega arith) lt))
          | inr z ↦
              rw (here, in_range, z, within)
                (get_bit-set m offset other (raised byte pos) 1 w le
                  (λ k lt. bit_of-raised byte pos k (byte-small m (offset / 8) w) (omega arith) lt))
        ]
  ]
]
  where
    byte : ℕ
    byte = get_or m.bytes (offset / 8) 0

    pos : ℕ
    pos = offset % 8

-- The bits of a list of bytes that are 1, counted one by one.
abbrev pub sum_bits : List ℕ → ℕ
sum_bits [] = 0
sum_bits (b ∷ bs) = ones b + sum_bits bs

count_bytes-eq :
    (bs : List ℕ) (num : ℕ) → All (λ b. b < 256) bs → count_bytes bs num ≡ num + sum_bits bs
count_bytes-eq [] num h = omega arith
count_bytes-eq (b ∷ bs) num h =
    omega (arith, count_bytes-eq bs (num + cost_count b) h.1, cost_count-ones b h.0)

-- `Count`, which takes the ones off each byte, is the number of the bits of the bitmap that are 1.
pub count-sum_bits : (m : Bitmap) → IsWellFormed m → count m ≡ sum_bits m.bytes
unfolding count
count-sum_bits m w = omega (arith, count_bytes-eq m.bytes 0 w.small)
